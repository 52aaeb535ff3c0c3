-- ===== src/Completions/Examples.antt =====
-- The count at a log with a completion that has left the window.
use llm_home_lab.Base.{ℕ, ◌≤◌, String, ◌≡◌, refl, some, List, [], ◌∷◌, count, arith}
use llm_home_lab.Completions.{CompletionLog, new_log, in_window, count_at, observed}
use llm_home_lab.Completions.Counting.{times_of, run, count_at-run}

abbrev started : CompletionLog
started = record { window = 10; started_at = 0; completions = [] }

started_test : new_log 10 0 ≡ some started
unfolding new_log
started_test = refl

abbrev history : List (String × ℕ)
history = ("gpu", 3) ∷ ("cpu", 5) ∷ ("gpu", 15) ∷ []

count_at-run_example :
    (count_at "gpu" 16 (run history started) ≡ count (in_window 10 16) (times_of "gpu" history))
    × (1 ≤ observed 16 started)
    × (observed 16 started ≤ 10)
count_at-run_example =
    count_at-run 10 0 16 "gpu" history started started_test
      (ground arith, (ground arith, (ground arith, tt)))
