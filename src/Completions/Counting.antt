-- ===== src/Completions/Counting.antt =====
-- The dropped completions are never counted: the count is that of the whole history.
use llm_home_lab.Base.{
  ℕ, ◌+◌, ◌≤◌, String, ◌≡◌, refl, ap, ◌∙◌, some, List, [], ◌∷◌, ◌++◌, arith, if◌then◌else◌, ◌==◌,
  string_eq, nat_eq, eq_iff, count, count-append, All,
}
use llm_home_lab.Dict.{lookup, lookup-insert}
use llm_home_lab.Completions.{
  CompletionLog, new_log, drop_old, completions_of, record_completion, in_window, count_at,
  observed,
}

-- What is dropped at a time is outside of the window at any later one.
count-drop_old :
    (window at later : ℕ) (ts : List ℕ)
    → at ≤ later
    → count (in_window window later) (drop_old window at ts) ≡ count (in_window window later) ts
unfolding count drop_old
count-drop_old window at later [] h = refl
count-drop_old window at later (t ∷ ts) h = ground (arith, count-drop_old window at later ts h)

-- The times at which the history completes tasks of the host.
unfoldable pub times_of : String → List (String × ℕ) → List ℕ
times_of host_id [] = []
times_of host_id ((h, t) ∷ es) =
    let rest = times_of host_id es in if h == host_id then t ∷ rest else rest

unfoldable pub run : List (String × ℕ) → CompletionLog → CompletionLog
run [] log = log
run ((h, t) ∷ es) log = run es (record_completion h t log)

record_completion-window :
    (h : String) (t : ℕ) (log : CompletionLog) → (record_completion h t log).window ≡ log.window
unfolding record_completion
record_completion-window h t log = refl

count-record :
    (host_id h : String) (t at : ℕ) (log : CompletionLog)
    → t ≤ at
    → count_at host_id at (record_completion h t log)
      ≡ count_at host_id at log
        + (if h == host_id then count (in_window log.window at) (t ∷ []) else 0)
unfolding count_at record_completion
count-record host_id h t at log le = ground (
  arith,
  lookup-insert h host_id (drop_old log.window t (completions_of h log ++ t ∷ [])) log.completions,
  count-drop_old log.window t at (completions_of h log ++ t ∷ []) le,
  count-append (in_window log.window at) (completions_of h log) (t ∷ []),
  eq_iff h host_id,
)

count_at-runs :
    (host_id : String) (at : ℕ) (es : List (String × ℕ)) (log : CompletionLog)
    → All (λ (e : String × ℕ). e.1 ≤ at) es
    → count_at host_id at (run es log)
      ≡ count_at host_id at log + count (in_window log.window at) (times_of host_id es)
unfolding run times_of count
count_at-runs host_id at [] log h = omega arith
count_at-runs host_id at ((k, t) ∷ es) log h =
    let later = count_at-runs host_id at es (record_completion k t log) h.1 in
    ground (
      arith,
      ap (λ w. count (in_window w at) (times_of host_id es)) (record_completion-window k t log),
      later,
      count-record host_id k t at log h.0,
    )

new_log-fields :
    (window now : ℕ) (log : CompletionLog)
    → new_log window now ≡ some log
    → (log.window ≡ window) × (1 ≤ window) × (log.completions ≡ [])
unfolding new_log
new_log-fields window now log h = (ground arith, ground arith, ground arith)

-- A new log counts, at any time that no recorded completion is after, exactly the host's recorded
-- completions that are younger than the window, however many it has dropped; the rate divides by a
-- positive time that is at most the window.
pub count_at-run :
    (window now at : ℕ) (host_id : String) (es : List (String × ℕ)) (log : CompletionLog)
    → new_log window now ≡ some log
    → All (λ (e : String × ℕ). e.1 ≤ at) es
    → (count_at host_id at (run es log) ≡ count (in_window window at) (times_of host_id es))
      × (1 ≤ observed at log)
      × (observed at log ≤ window)
unfolding observed lookup count_at count
count_at-run window now at host_id es log h k =
    let (same, positive, none_yet) = new_log-fields window now log h in
    (
      count_at-runs host_id at es log k ∙ rw (none_yet, same) (omega arith),
      omega (arith, same, positive),
      omega (arith, same, positive),
    )
