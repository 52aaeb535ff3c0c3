-- ===== src/Metrics.antt =====
-- src/llm_home_lab/observability/metrics.py and the snapshot types of models.py. Latencies and times
-- are natural numbers of a small unit; a quotient is kept as its two numbers, without the rounding of
-- floats. `defaultdict(int)` is a dictionary that reads a missing key as 0.
mod Snapshot
mod Runs
mod Tally
mod Stats
mod Percentile
mod Snapshots
mod Eviction
mod Windows
mod Rendering
mod Examples
use llm_home_lab.Base.{
  ℕ, ◌+◌, ◌-◌, ◌*◌, ◌/◌, String, ◌≡◌, Bool, true, false, Option, none, some, List, [], ◌∷◌, ◌++◌,
  map, ltb, min, max, if◌then◌else◌, ◌==◌, string_eq, nat_eq, count, length,
}
use llm_home_lab.Base.Int.{ℤ, pos}
use llm_home_lab.Base.Sorting.{sort}
use llm_home_lab.Dict.{Dict, lookup, insert, values}
use llm_home_lab.Registry.{HostInfo, HostRegistry, hosts}
use llm_home_lab.Scheduling.{SchedulingQueue, depth}

pub record Sample : Type 0 where
  pub status_code : ℕ
  pub latency_ms : ℕ
  pub at : ℕ

pub record Failover : Type 0 where
  pub succeeded : Bool
  pub at : ℕ

pub record MetricsRegistry : Type 0 where
  pub window : ℕ
  pub requests : Dict String (List Sample)
  pub failover_outcomes : List Failover
  pub token_usage_total : Dict String ℕ
  pub host_completions_total : Dict String ℕ
  pub host_latency_ms_total : Dict String ℕ
  pub host_prompt_tokens_total : Dict String ℕ
  pub host_prompt_tokens_min : Dict String ℕ
  pub host_prompt_tokens_max : Dict String ℕ
  pub host_completion_tokens_total : Dict String ℕ
  pub host_completion_tokens_min : Dict String ℕ
  pub host_completion_tokens_max : Dict String ℕ

abbrev pub new_metrics : ℕ → MetricsRegistry
new_metrics window = record {
  window = window;
  requests = [];
  failover_outcomes = [];
  token_usage_total = [];
  host_completions_total = [];
  host_latency_ms_total = [];
  host_prompt_tokens_total = [];
  host_prompt_tokens_min = [];
  host_prompt_tokens_max = [];
  host_completion_tokens_total = [];
  host_completion_tokens_min = [];
  host_completion_tokens_max = [];
}

-- `while samples and at - samples[0][timestamp_index] > window: samples.popleft()`
unfoldable pub evict : {A : Type 0} → (A → ℕ) → ℕ → ℕ → List A → List A
evict time window at [] = []
evict time window at (x ∷ xs) =
    let rest = evict time window at xs in if ltb window (at - time x) then rest else x ∷ xs

unfoldable pub samples_of : String → Dict String (List Sample) → List Sample
samples_of endpoint requests = elim (lookup endpoint requests) [ none ↦ [] | some xs ↦ xs ]

unfoldable pub record_request : String → ℕ → ℕ → ℕ → MetricsRegistry → MetricsRegistry
record_request endpoint status_code latency_ms at m =
    let sample : Sample = record { status_code = status_code; latency_ms = latency_ms; at = at } in
    record m {
      requests =
          insert endpoint
            (evict (λ s. s.at) m.window at (samples_of endpoint m.requests ++ sample ∷ []))
            m.requests;
    }

unfoldable pub record_failover_outcome : Bool → ℕ → MetricsRegistry → MetricsRegistry
record_failover_outcome succeeded at m =
    let outcome : Failover = record { succeeded = succeeded; at = at } in
    record m {
      failover_outcomes = evict (λ o. o.at) m.window at (m.failover_outcomes ++ outcome ∷ []);
    }

unfoldable pub total_of : String → Dict String ℕ → ℕ
total_of k d = elim (lookup k d) [ none ↦ 0 | some n ↦ n ]

-- `d[k] += n`
unfoldable pub add_to : String → ℕ → Dict String ℕ → Dict String ℕ
add_to k n d = insert k (total_of k d + n) d

-- `d.get(k, n)`
unfoldable pub get_or : String → ℕ → Dict String ℕ → ℕ
get_or k n d = elim (lookup k d) [ none ↦ n | some v ↦ v ]

-- `d[k] = min(d.get(k, n), n)`
unfoldable pub lower_to : String → ℕ → Dict String ℕ → Dict String ℕ
lower_to k n d = insert k (min (get_or k n d) n) d

-- `d[k] = max(d.get(k, n), n)`
unfoldable pub raise_to : String → ℕ → Dict String ℕ → Dict String ℕ
raise_to k n d = insert k (max (get_or k n d) n) d

unfoldable pub record_token_usage : String → ℕ → ℕ → MetricsRegistry → MetricsRegistry
record_token_usage host_id prompt_tokens completion_tokens m = record m {
  token_usage_total = add_to host_id (prompt_tokens + completion_tokens) m.token_usage_total;
}

unfoldable pub record_host_completion : String → ℕ → ℕ → ℕ → MetricsRegistry → MetricsRegistry
record_host_completion host_id latency_ms prompt_tokens completion_tokens m = record m {
  host_completions_total = add_to host_id 1 m.host_completions_total;
  host_latency_ms_total = add_to host_id latency_ms m.host_latency_ms_total;
  host_prompt_tokens_total = add_to host_id prompt_tokens m.host_prompt_tokens_total;
  host_prompt_tokens_min = lower_to host_id prompt_tokens m.host_prompt_tokens_min;
  host_prompt_tokens_max = raise_to host_id prompt_tokens m.host_prompt_tokens_max;
  host_completion_tokens_total = add_to host_id completion_tokens m.host_completion_tokens_total;
  host_completion_tokens_min = lower_to host_id completion_tokens m.host_completion_tokens_min;
  host_completion_tokens_max = raise_to host_id completion_tokens m.host_completion_tokens_max;
}
