-- ===== src/Metrics/Tally.antt =====
-- The dictionaries of the metrics registry hold, for each host, the tally of its completions.
use llm_home_lab.Base.{
  ℕ, ◌+◌, min, max, String, ◌≡◌, refl, sym, subst, ap, Option, none, some, List, [], ◌∷◌, ◌++◌,
  arith, if◌then◌else◌, ◌==◌, string_eq, eq_iff, length, append_nil,
}
use llm_home_lab.Dict.{Dict, lookup, lookup-insert}
use llm_home_lab.Metrics.{
  Sample, Failover, MetricsRegistry, new_metrics, record_request, record_failover_outcome,
  record_token_usage, record_host_completion, total_of, add_to, get_or, lower_to, raise_to,
}
use llm_home_lab.Metrics.Runs.{
  Call, apply, run, Served, served_by, completions_in, sum_of, least, greatest, sum_of-append,
  least-append, greatest-append,
}

counted : List Served → Option ℕ
counted [] = none
counted (s ∷ ss) = some (length (s ∷ ss))

module _ (g : Served → ℕ) where
  unfoldable pub summed : List Served → Option ℕ
  summed [] = none
  summed (s ∷ ss) = some (sum_of g (s ∷ ss))

  unfoldable pub lowest : List Served → Option ℕ
  lowest [] = none
  lowest (s ∷ ss) = some (least g (g s) ss)

  unfoldable pub highest : List Served → Option ℕ
  highest [] = none
  highest (s ∷ ss) = some (greatest g (g s) ss)

-- One more completion in a dictionary is one more in the tally of its host, and of no other.
module _ (g : Served → ℕ) (h k : String) (d : Dict String ℕ) (s : Served) where
  grown : List Served → List Served
  grown ss = ss ++ (if k == h then s ∷ [] else [])

  add_to-summed :
      (ss : List Served)
      → lookup h d ≡ summed g ss
      → lookup h (add_to k (g s) d) ≡ summed g (grown ss)
  unfolding add_to total_of summed sum_of grown
  add_to-summed [] e = ground (arith, lookup-insert k h (total_of k d + g s) d, eq_iff k h)
  add_to-summed (x ∷ xs) e = ground (
    arith,
    lookup-insert k h (total_of k d + g s) d,
    eq_iff k h,
    sum_of-append g xs s,
    append_nil xs,
  )

  lower_to-lowest :
      (ss : List Served)
      → lookup h d ≡ lowest g ss
      → lookup h (lower_to k (g s) d) ≡ lowest g (grown ss)
  unfolding lower_to get_or lowest least grown
  lower_to-lowest [] e =
      ground (arith, lookup-insert k h (min (get_or k (g s) d) (g s)) d, eq_iff k h)
  lower_to-lowest (x ∷ xs) e = ground (
    arith,
    lookup-insert k h (min (get_or k (g s) d) (g s)) d,
    eq_iff k h,
    least-append g (g x) xs s,
    append_nil xs,
  )

  raise_to-highest :
      (ss : List Served)
      → lookup h d ≡ highest g ss
      → lookup h (raise_to k (g s) d) ≡ highest g (grown ss)
  unfolding raise_to get_or highest greatest grown
  raise_to-highest [] e =
      ground (arith, lookup-insert k h (max (get_or k (g s) d) (g s)) d, eq_iff k h)
  raise_to-highest (x ∷ xs) e = ground (
    arith,
    lookup-insert k h (max (get_or k (g s) d) (g s)) d,
    eq_iff k h,
    greatest-append g (g x) xs s,
    append_nil xs,
  )

-- What the registry holds of a host that has served these completions.
pub record IsTally (h : String) (ss : List Served) (m : MetricsRegistry) : Type 0 where
  pub number : lookup h m.host_completions_total ≡ summed (λ s. 1) ss
  pub latency : lookup h m.host_latency_ms_total ≡ summed (λ s. s.latency_ms) ss
  pub prompt : lookup h m.host_prompt_tokens_total ≡ summed (λ s. s.prompt_tokens) ss
  pub prompt_min : lookup h m.host_prompt_tokens_min ≡ lowest (λ s. s.prompt_tokens) ss
  pub prompt_max : lookup h m.host_prompt_tokens_max ≡ highest (λ s. s.prompt_tokens) ss
  pub completion : lookup h m.host_completion_tokens_total ≡ summed (λ s. s.completion_tokens) ss
  pub completion_min : lookup h m.host_completion_tokens_min ≡ lowest (λ s. s.completion_tokens) ss
  pub completion_max : lookup h m.host_completion_tokens_max ≡ highest (λ s. s.completion_tokens) ss

new_metrics-IsTally : (h : String) (window : ℕ) → IsTally h [] (new_metrics window)
unfolding summed lowest highest lookup
new_metrics-IsTally h window = record {
  number = refl;
  latency = refl;
  prompt = refl;
  prompt_min = refl;
  prompt_max = refl;
  completion = refl;
  completion_min = refl;
  completion_max = refl;
}

-- The other calls write none of it.
pub elsewhere-IsTally :
    (h : String) (ss : List Served) (m : MetricsRegistry) (requests : Dict String (List Sample))
    (failover_outcomes : List Failover) (token_usage_total : Dict String ℕ)
    → IsTally h ss m
    → IsTally h ss (record m {
      requests = requests;
      failover_outcomes = failover_outcomes;
      token_usage_total = token_usage_total;
    })
elsewhere-IsTally h ss m requests failover_outcomes token_usage_total t = record {
  number = t.number;
  latency = t.latency;
  prompt = t.prompt;
  prompt_min = t.prompt_min;
  prompt_max = t.prompt_max;
  completion = t.completion;
  completion_min = t.completion_min;
  completion_max = t.completion_max;
}

apply-IsTally :
    (h : String) (c : Call) (ss : List Served) (m : MetricsRegistry)
    → IsTally h ss m
    → IsTally h (ss ++ served_by h c) (apply c m)
unfolding apply served_by record_request record_failover_outcome record_token_usage
    record_host_completion grown
apply-IsTally h (Call.request endpoint status_code latency_ms at) ss m t =
    subst (λ l. IsTally h l (apply (Call.request endpoint status_code latency_ms at) m))
      (sym (append_nil ss)) (elsewhere-IsTally h ss m _ _ _ t)
apply-IsTally h (Call.failover succeeded at) ss m t =
    subst (λ l. IsTally h l (apply (Call.failover succeeded at) m)) (sym (append_nil ss))
      (elsewhere-IsTally h ss m _ _ _ t)
apply-IsTally h (Call.token_usage host_id prompt_tokens completion_tokens) ss m t =
    subst (λ l. IsTally h l (apply (Call.token_usage host_id prompt_tokens completion_tokens) m))
      (sym (append_nil ss)) (elsewhere-IsTally h ss m _ _ _ t)
apply-IsTally h (Call.completion k latency_ms prompt_tokens completion_tokens) ss m t =
    let s : Served = record {
      latency_ms = latency_ms;
      prompt_tokens = prompt_tokens;
      completion_tokens = completion_tokens;
    } in
    record {
      number = add_to-summed (λ x. 1) h k m.host_completions_total s ss t.number;
      latency = add_to-summed (λ x. x.latency_ms) h k m.host_latency_ms_total s ss t.latency;
      prompt = add_to-summed (λ x. x.prompt_tokens) h k m.host_prompt_tokens_total s ss t.prompt;
      prompt_min =
          lower_to-lowest (λ x. x.prompt_tokens) h k m.host_prompt_tokens_min s ss t.prompt_min;
      prompt_max =
          raise_to-highest (λ x. x.prompt_tokens) h k m.host_prompt_tokens_max s ss t.prompt_max;
      completion =
          add_to-summed (λ x. x.completion_tokens) h k m.host_completion_tokens_total s ss
            t.completion;
      completion_min =
          lower_to-lowest (λ x. x.completion_tokens) h k m.host_completion_tokens_min s ss
            t.completion_min;
      completion_max =
          raise_to-highest (λ x. x.completion_tokens) h k m.host_completion_tokens_max s ss
            t.completion_max;
    }

append_assoc : (xs ys zs : List Served) → (xs ++ ys) ++ zs ≡ xs ++ (ys ++ zs)
append_assoc [] ys zs = refl
append_assoc (x ∷ xs) ys zs = ap (λ l. x ∷ l) (append_assoc xs ys zs)

runs-IsTally :
    (h : String) (cs : List Call) (ss : List Served) (m : MetricsRegistry)
    → IsTally h ss m
    → IsTally h (ss ++ completions_in h cs) (run cs m)
unfolding run completions_in
runs-IsTally h [] ss m t = subst (λ l. IsTally h l m) (sym (append_nil ss)) t
runs-IsTally h (c ∷ cs) ss m t =
    subst (λ l. IsTally h l (run cs (apply c m)))
      (append_assoc ss (served_by h c) (completions_in h cs))
      (runs-IsTally h cs (ss ++ served_by h c) (apply c m) (apply-IsTally h c ss m t))

pub run-IsTally :
    (h : String) (window : ℕ) (cs : List Call)
    → IsTally h (completions_in h cs) (run cs (new_metrics window))
run-IsTally h window cs = runs-IsTally h cs [] (new_metrics window) (new_metrics-IsTally h window)
