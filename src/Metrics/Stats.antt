-- ===== src/Metrics/Stats.antt =====
-- The statistics of a snapshot are those of the completions that the history recorded.
use llm_home_lab.Base.{
  ℕ, ◌+◌, String, ◌≡◌, ◌≢◌, refl, sym, ap, subst, ◌∙◌, inl, inr, none, some, List, [], ◌∷◌, arith,
  string_eq, eq_iff, nat_eq, length, Option-cases, List-cases, All,
}
use llm_home_lab.Base.Int.{pos}
use llm_home_lab.Dict.{Dict, lookup}
use llm_home_lab.Dict.Unique.{Unique, Unique-insert, All-of_lookup}
use llm_home_lab.Metrics.{
  MetricsRegistry, new_metrics, record_request, record_failover_outcome, record_token_usage,
  record_host_completion, total_of, add_to,
}
use llm_home_lab.Metrics.Snapshot.{
  HostCompletionStats, ok, divide, ratio_of, subscript, stats_of, completion_stats, evicted,
}
use llm_home_lab.Metrics.Runs.{Call, apply, run, Served, completions_in, sum_of, summary}
use llm_home_lab.Metrics.Tally.{IsTally, summed, lowest, highest, elsewhere-IsTally, run-IsTally}

sum_ones : (ss : List Served) → sum_of (λ s. 1) ss ≡ length ss
unfolding sum_of
sum_ones [] = refl
sum_ones (s ∷ ss) = omega (arith, sum_ones ss)

-- The total that the registry holds is the number of completions, of which there is one at least.
total-eq :
    (h : String) (ss : List Served) (m : MetricsRegistry) (n : ℕ)
    → IsTally h ss m
    → lookup h m.host_completions_total ≡ some n
    → (n ≡ length ss) × (ss ≢ [])
unfolding summed
total-eq h [] m n t e = ground (arith, t.number)
total-eq h (s ∷ ss) m n t e = ground (arith, t.number, sum_ones (s ∷ ss))

total_of-some : (h : String) (d : Dict String ℕ) {n : ℕ} → lookup h d ≡ some n → total_of h d ≡ n
unfolding total_of
total_of-some h d e = rw (total_of, e) refl

subscript-some :
    (h : String) (d : Dict String ℕ) {n : ℕ} → lookup h d ≡ some n → subscript h d ≡ ok n
unfolding subscript
subscript-some h d e = rw (subscript, e) refl

pub ratio_of-length :
    {A : Type 0} (a : ℕ) (x : A) (xs : List A)
    → ratio_of a (length (x ∷ xs))
      ≡ ok (record { numerator = pos a; denominator = length (x ∷ xs) })
unfolding ratio_of divide
ratio_of-length a x xs = ground arith

stats_of-summary :
    (h : String) (s : Served) (ss : List Served) (m : MetricsRegistry)
    → IsTally h (s ∷ ss) m
    → (stats : HostCompletionStats) × (stats_of m h (length (s ∷ ss)) ≡ ok stats)
      × (summary (s ∷ ss) ≡ some stats)
unfolding stats_of summary summed lowest highest
stats_of-summary h s ss m t = (
  _,
  rw
      (
        total_of-some h m.host_latency_ms_total t.latency,
        total_of-some h m.host_prompt_tokens_total t.prompt,
        total_of-some h m.host_completion_tokens_total t.completion,
        subscript-some h m.host_prompt_tokens_min t.prompt_min,
        subscript-some h m.host_prompt_tokens_max t.prompt_max,
        subscript-some h m.host_completion_tokens_min t.completion_min,
        subscript-some h m.host_completion_tokens_max t.completion_max,
        ratio_of-length (sum_of (λ x. x.latency_ms) (s ∷ ss)) s ss,
        ratio_of-length (sum_of (λ x. x.prompt_tokens) (s ∷ ss)) s ss,
        ratio_of-length (sum_of (λ x. x.completion_tokens) (s ∷ ss)) s ss,
      )
      refl,
  refl,
)

-- `completion_stats` has exactly the keys that it is given, each with its statistics.
pub record IsStats (m : MetricsRegistry) (d : Dict String ℕ) (out : Dict String HostCompletionStats)
    : Type 0 where
  pub absent : (h : String) → lookup h d ≡ none → lookup h out ≡ none
  pub present :
      (h : String) (n : ℕ) (stats : HostCompletionStats)
      → lookup h d ≡ some n
      → stats_of m h n ≡ ok stats
      → lookup h out ≡ some stats

completion_stats-IsStats :
    (m : MetricsRegistry) (d : Dict String ℕ)
    → All (λ (e : String × ℕ). (s : HostCompletionStats) × (stats_of m e.0 e.1 ≡ ok s)) d
    → (out : Dict String HostCompletionStats) × (completion_stats m d ≡ ok out) × IsStats m d out
unfolding completion_stats lookup
completion_stats-IsStats m [] known =
    ([], refl, record { absent = λ h e. refl; present = λ h n stats e s. cc })
completion_stats-IsStats m ((k, n) ∷ d) known =
    let (out, same, i) = completion_stats-IsStats m d known.1 in
    (
      (k, known.0.0) ∷ out,
      rw (known.0.1, same) refl,
      record {
        absent = λ h e. ground (arith, i.absent h);
        present = λ h j stats e s. ground (arith, i.present h j stats, known.0.1, eq_iff k h);
      },
    )

apply-Unique :
    (c : Call) (m : MetricsRegistry)
    → Unique m.host_completions_total
    → Unique (apply c m).host_completions_total
unfolding apply record_request record_failover_outcome record_token_usage record_host_completion
    add_to
apply-Unique (Call.request endpoint status_code latency_ms at) m u = u
apply-Unique (Call.failover succeeded at) m u = u
apply-Unique (Call.token_usage host_id prompt_tokens completion_tokens) m u = u
apply-Unique (Call.completion k latency_ms prompt_tokens completion_tokens) m u =
    Unique-insert k (total_of k m.host_completions_total + 1) m.host_completions_total u

run-Unique :
    (cs : List Call) (m : MetricsRegistry)
    → Unique m.host_completions_total
    → Unique (run cs m).host_completions_total
unfolding run
run-Unique [] m u = u
run-Unique (c ∷ cs) m u = run-Unique cs (apply c m) (apply-Unique c m u)

-- Every host that the registry counts has its statistics.
stats_of-known :
    (m : MetricsRegistry) (served : String → List Served) (h : String) (n : ℕ)
    → IsTally h (served h) m
    → lookup h m.host_completions_total ≡ some n
    → (stats : HostCompletionStats) × (stats_of m h n ≡ ok stats)
      × (summary (served h) ≡ some stats)
stats_of-known m served h n t e = elim (List-cases (served h)) [
  | inl empty ↦ absurd ((total-eq h (served h) m n t e).1 empty)
  | inr (s, ss, same) ↦
      let (stats, known, listed) = stats_of-summary h s ss m (subst (λ l. IsTally h l m) same t) in
      (
        stats,
        subst (λ l. stats_of m h l ≡ ok stats)
            (sym ((total-eq h (served h) m n t e).0 ∙ ap length same)) known,
        rw same listed,
      )
]

summary-none :
    (h : String) (ss : List Served) (m : MetricsRegistry)
    → IsTally h ss m
    → lookup h m.host_completions_total ≡ none
    → summary ss ≡ none
unfolding summary summed
summary-none h [] m t e = refl
summary-none h (s ∷ ss) m t e = ground (arith, t.number)

pub stats-summary :
    (m : MetricsRegistry) (served : String → List Served)
    → Unique m.host_completions_total
    → ((h : String) → IsTally h (served h) m)
    → (out : Dict String HostCompletionStats) × (completion_stats m m.host_completions_total
        ≡ ok out)
      × ((h : String) → lookup h out ≡ summary (served h))
unfolding summary summed
stats-summary m served u t =
    let known =
      All-of_lookup (λ (e : String × ℕ). (s : HostCompletionStats) × (stats_of m e.0 e.1 ≡ ok s))
        m.host_completions_total u
        (λ h n e. let (s, a, b) = stats_of-known m served h n (t h) e in (s, a)) in
    let (out, same, i) = completion_stats-IsStats m m.host_completions_total known in
    (
      out,
      same,
      λ h. elim (Option-cases (lookup h m.host_completions_total)) [
        | inl e ↦ i.absent h e ∙ sym (summary-none h (served h) m (t h) e)
        | inr (n, e) ↦
            let (s, a, b) = stats_of-known m served h n (t h) e in i.present h n s e a ∙ sym b
      ],
    )

-- The dictionaries of any history hold the statistics of its completions.
pub completion_stats-run :
    (window at : ℕ) (cs : List Call)
    → (out : Dict String HostCompletionStats) × (completion_stats
          (evicted at (run cs (new_metrics window)))
          (evicted at (run cs (new_metrics window))).host_completions_total
        ≡ ok out)
      × ((h : String) → lookup h out ≡ summary (completions_in h cs))
unfolding evicted
completion_stats-run window at cs =
    stats-summary (evicted at (run cs (new_metrics window))) (λ h. completions_in h cs)
      (run-Unique cs (new_metrics window) tt)
      (λ h.
        elsewhere-IsTally h (completions_in h cs) (run cs (new_metrics window)) _ _ _
          (run-IsTally h window cs))
