-- ===== src/Completions.antt =====
-- src/llm_home_lab/observability/completion_log.py: the completions of each host within a window. A
-- time is a number of microseconds since a fixed moment; `at - window` is compared without subtraction.
mod Counting
mod Examples
use llm_home_lab.Base.{
  ℕ, ◌+◌, ◌-◌, ◌*◌, String, ◌≡◌, Bool, true, false, ◌&&◌, Option, none, some, List, [], ◌∷◌, ◌++◌,
  leb, ltb, min, max, if◌then◌else◌, ◌==◌, string_eq, nat_eq, count,
}
use llm_home_lab.Dict.{Dict, lookup, insert}

pub record CompletionLog : Type 0 where
  pub window : ℕ
  pub started_at : ℕ
  pub completions : Dict String (List ℕ)

-- `CompletionLog(window, clock)` at the time of the clock; a window that is not positive is refused.
unfoldable pub new_log : ℕ → ℕ → Option CompletionLog
new_log window now =
    if window == 0
    then none
    else some (record { window = window; started_at = now; completions = [] })

-- `while completions and completions[0] <= cutoff: popleft()`
unfoldable pub drop_old : ℕ → ℕ → List ℕ → List ℕ
drop_old window at [] = []
drop_old window at (t ∷ ts) =
    let rest = drop_old window at ts in if leb (t + window) at then rest else t ∷ ts

abbrev pub completions_of : String → CompletionLog → List ℕ
completions_of host_id log = elim (lookup host_id log.completions) [ none ↦ [] | some ts ↦ ts ]

unfoldable pub record_completion : String → ℕ → CompletionLog → CompletionLog
record_completion host_id at log = record log {
  completions =
      insert host_id (drop_old log.window at (completions_of host_id log ++ at ∷ []))
        log.completions;
}

abbrev pub in_window : ℕ → ℕ → ℕ → Bool
in_window window at t = ltb at (t + window) && leb t at

unfoldable pub count_at : String → ℕ → CompletionLog → ℕ
count_at host_id at log = count (in_window log.window at) (completions_of host_id log)

-- `MIN_OBSERVED`, 60 seconds.
abbrev pub min_observed : ℕ
min_observed = 60000000

-- The time before the start counts as none.
unfoldable pub observed : ℕ → CompletionLog → ℕ
observed at log = min log.window (max (at - log.started_at) min_observed)

-- `count * timedelta(hours=1) / observed` as the two sides of the fraction.
unfoldable pub tasks_per_hour : String → ℕ → CompletionLog → ℕ × ℕ
tasks_per_hour host_id at log = (count_at host_id at log * 3600000000, observed at log)

-- With the slots in the denominator, and nothing where there are none.
unfoldable pub tasks_per_hour_per_slot : String → ℕ → Option ℕ → CompletionLog → Option (ℕ × ℕ)
tasks_per_hour_per_slot host_id at none log = none
tasks_per_hour_per_slot host_id at (some slots) log =
    if slots == 0
    then none
    else some (count_at host_id at log * 3600000000, observed at log * slots)
