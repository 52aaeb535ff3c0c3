-- ===== src/Metrics/Runs.antt =====
-- Histories of the recording calls of the metrics registry, and what they say of one host.
use llm_home_lab.Base.{
  ℕ, ◌+◌, String, Bool, Option, none, some, List, [], ◌∷◌, ◌++◌, if◌then◌else◌, ◌==◌, string_eq,
  length, min, max, ◌≡◌, refl, arith,
}
use llm_home_lab.Base.Int.{pos}
use llm_home_lab.Metrics.{
  MetricsRegistry, record_request, record_failover_outcome, record_token_usage,
  record_host_completion,
}
use llm_home_lab.Metrics.Snapshot.{HostCompletionStats}

pub data Call : Type 0 where
  request : String → ℕ → ℕ → ℕ → Call
  failover : Bool → ℕ → Call
  token_usage : String → ℕ → ℕ → Call
  completion : String → ℕ → ℕ → ℕ → Call

unfoldable pub apply : Call → MetricsRegistry → MetricsRegistry
apply (request endpoint status_code latency_ms at) m =
    record_request endpoint status_code latency_ms at m
apply (failover succeeded at) m = record_failover_outcome succeeded at m
apply (token_usage host_id prompt_tokens completion_tokens) m =
    record_token_usage host_id prompt_tokens completion_tokens m
apply (completion host_id latency_ms prompt_tokens completion_tokens) m =
    record_host_completion host_id latency_ms prompt_tokens completion_tokens m

unfoldable pub run : List Call → MetricsRegistry → MetricsRegistry
run [] m = m
run (c ∷ cs) m = run cs (apply c m)

pub record Served : Type 0 where
  pub latency_ms : ℕ
  pub prompt_tokens : ℕ
  pub completion_tokens : ℕ

-- What a call adds to the completions of a host, and a history.
unfoldable pub served_by : String → Call → List Served
served_by h (request endpoint status_code latency_ms at) = []
served_by h (failover succeeded at) = []
served_by h (token_usage host_id prompt_tokens completion_tokens) = []
served_by h (completion host_id latency_ms prompt_tokens completion_tokens) =
    if host_id == h
    then record {
      latency_ms = latency_ms;
      prompt_tokens = prompt_tokens;
      completion_tokens = completion_tokens;
    }
      ∷ []
    else []

unfoldable pub completions_in : String → List Call → List Served
completions_in h [] = []
completions_in h (c ∷ cs) = served_by h c ++ completions_in h cs

module _ (g : Served → ℕ) where
  unfoldable pub sum_of : List Served → ℕ
  sum_of [] = 0
  sum_of (s ∷ ss) = g s + sum_of ss

  -- The least and the greatest of the numbers, the first of them given.
  unfoldable pub least : ℕ → List Served → ℕ
  least n [] = n
  least n (s ∷ ss) = min n (least (g s) ss)

  unfoldable pub greatest : ℕ → List Served → ℕ
  greatest n [] = n
  greatest n (s ∷ ss) = max n (greatest (g s) ss)

  pub sum_of-append : (xs : List Served) (s : Served) → sum_of (xs ++ s ∷ []) ≡ sum_of xs + g s
  unfolding sum_of
  sum_of-append [] s = omega arith
  sum_of-append (x ∷ xs) s = omega (arith, sum_of-append xs s)

  pub least-append :
      (n : ℕ) (xs : List Served) (s : Served) → least n (xs ++ s ∷ []) ≡ min (least n xs) (g s)
  unfolding least
  least-append n [] s = refl
  least-append n (x ∷ xs) s = omega (arith, least-append (g x) xs s)

  pub greatest-append :
      (n : ℕ) (xs : List Served) (s : Served)
      → greatest n (xs ++ s ∷ []) ≡ max (greatest n xs) (g s)
  unfolding greatest
  greatest-append n [] s = refl
  greatest-append n (x ∷ xs) s = omega (arith, greatest-append (g x) xs s)

-- The statistics of a host that has served these completions.
unfoldable pub summary : List Served → Option HostCompletionStats
summary [] = none
summary (s ∷ ss) =
    let n = length (s ∷ ss) in
    some (record {
      completions_total = n;
      avg_latency_ms = record {
        numerator = pos (sum_of (λ x. x.latency_ms) (s ∷ ss));
        denominator = n;
      };
      prompt_tokens_avg = record {
        numerator = pos (sum_of (λ x. x.prompt_tokens) (s ∷ ss));
        denominator = n;
      };
      prompt_tokens_min = least (λ x. x.prompt_tokens) s.prompt_tokens ss;
      prompt_tokens_max = greatest (λ x. x.prompt_tokens) s.prompt_tokens ss;
      completion_tokens_avg = record {
        numerator = pos (sum_of (λ x. x.completion_tokens) (s ∷ ss));
        denominator = n;
      };
      completion_tokens_min = least (λ x. x.completion_tokens) s.completion_tokens ss;
      completion_tokens_max = greatest (λ x. x.completion_tokens) s.completion_tokens ss;
    })
