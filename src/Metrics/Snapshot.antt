-- ===== src/Metrics/Snapshot.antt =====
-- `MetricsRegistry.snapshot` of src/llm_home_lab/observability/metrics.py, with what Python raises at a
-- division by 0, a missing key or an index out of range.
use llm_home_lab.Base.{
  ℕ, ◌+◌, ◌-◌, ◌*◌, ◌/◌, String, Option, none, some, List, [], ◌∷◌, ◌++◌, map, ltb, min,
  if◌then◌else◌, ◌==◌, string_eq, nat_eq, count, length,
}
use llm_home_lab.Base.Int.{ℤ, pos}
use llm_home_lab.Base.Sorting.{sort}
use llm_home_lab.Dict.{Dict, lookup, insert}
use llm_home_lab.Registry.{HostInfo, HostRegistry, hosts}
use llm_home_lab.Scheduling.{SchedulingQueue, depth}
use llm_home_lab.Metrics.{Sample, Failover, MetricsRegistry, evict, total_of}

pub record Ratio : Type 0 where
  pub numerator : ℤ
  pub denominator : ℕ

pub record HostCompletionStats : Type 0 where
  pub completions_total : ℕ
  pub avg_latency_ms : Ratio
  pub prompt_tokens_avg : Ratio
  pub prompt_tokens_min : ℕ
  pub prompt_tokens_max : ℕ
  pub completion_tokens_avg : Ratio
  pub completion_tokens_min : ℕ
  pub completion_tokens_max : ℕ

pub record SliSnapshot : Type 0 where
  pub availability : Ratio
  pub p95_latency_ms : ℕ
  pub failover_success_rate : Option Ratio
  pub host_saturation : Dict String Ratio
  pub queue_depth : ℕ
  pub tokens_of : Dict String ℕ
  pub host_completion_stats : Dict String HostCompletionStats

-- What Python raises at a division by 0, a missing key and an index out of range.
pub data MetricsError : Type 0 where
  zero_division : MetricsError
  key_error : String → MetricsError
  index_error : MetricsError

pub data Result {ℓ} (A : Type ℓ) : Type ℓ where
  ok : A → Result A
  raised : MetricsError → Result A

infixl 5 ◌>>=◌
abbrev pub ◌>>=◌ {ℓ κ} : {A : Type ℓ} {B : Type κ} → Result A → (A → Result B) → Result B
ok a >>= f = f a
raised e >>= f = raised e

unfoldable pub evict_all : ℕ → ℕ → Dict String (List Sample) → Dict String (List Sample)
evict_all window at [] = []
evict_all window at ((endpoint, samples) ∷ requests) =
    (endpoint, evict (λ s. s.at) window at samples) ∷ evict_all window at requests

-- `[sample for samples in self._requests.values() for sample in samples]`
unfoldable pub all_samples : Dict String (List Sample) → List Sample
all_samples [] = []
all_samples ((endpoint, samples) ∷ requests) = samples ++ all_samples requests

-- `values[index]`
unfoldable pub at_index : List ℕ → ℕ → Result ℕ
at_index [] i = raised index_error
at_index (v ∷ vs) i = if i == 0 then ok v else at_index vs (i - 1)

-- The percentile is in hundredths: `math.ceil(percentile * n)` is `(percent * n + 99) / 100`. A
-- difference that is negative in the source is 0 here, where the source takes its `max` with 0.
unfoldable pub percentile : List ℕ → ℕ → Result ℕ
percentile vs percent =
    let ordered = sort vs in
    let n = length ordered in at_index ordered (min ((percent * n + 99) / 100 - 1) (n - 1))

unfoldable pub divide : ℤ → ℕ → Result Ratio
divide a b = if b == 0 then raised zero_division else ok (record { numerator = a; denominator = b })

unfoldable pub ratio_of : ℕ → ℕ → Result Ratio
ratio_of a b = divide (pos a) b

unfoldable pub availability_of : List Sample → Result Ratio
availability_of [] = ok (record { numerator = pos 1; denominator = 1 })
availability_of (s ∷ ss) = ratio_of (count (λ x. ltb x.status_code 500) (s ∷ ss)) (length (s ∷ ss))

unfoldable pub p95_of : List Sample → Result ℕ
p95_of [] = ok 0
p95_of (s ∷ ss) = percentile (map (λ x. x.latency_ms) (s ∷ ss)) 95

unfoldable pub failover_rate_of : List Failover → Result (Option Ratio)
failover_rate_of [] = ok none
failover_rate_of (o ∷ os) = do
  let rate = (← ratio_of (count (λ x. x.succeeded) (o ∷ os)) (length (o ∷ os)))
  ok (some rate)

unfoldable pub saturation_of : List HostInfo → Dict String Ratio → Result (Dict String Ratio)
saturation_of [] d = ok d
saturation_of (h ∷ hs) d = divide h.in_flight h.capacity.max_concurrent_requests >>= λ ratio.
    saturation_of hs (insert h.host_id ratio d)

-- `d[k]`
unfoldable pub subscript : String → Dict String ℕ → Result ℕ
subscript k d = elim (lookup k d) [ none ↦ raised (key_error k) | some v ↦ ok v ]

unfoldable pub stats_of : MetricsRegistry → String → ℕ → Result HostCompletionStats
stats_of m host_id total = ratio_of (total_of host_id m.host_latency_ms_total) total >>= λ latency.
    ratio_of (total_of host_id m.host_prompt_tokens_total) total >>= λ prompt.
    subscript host_id m.host_prompt_tokens_min >>= λ prompt_min.
    subscript host_id m.host_prompt_tokens_max >>= λ prompt_max.
    ratio_of (total_of host_id m.host_completion_tokens_total) total >>= λ completion.
    subscript host_id m.host_completion_tokens_min >>= λ completion_min.
    subscript host_id m.host_completion_tokens_max >>= λ completion_max. ok (record {
      completions_total = total;
      avg_latency_ms = latency;
      prompt_tokens_avg = prompt;
      prompt_tokens_min = prompt_min;
      prompt_tokens_max = prompt_max;
      completion_tokens_avg = completion;
      completion_tokens_min = completion_min;
      completion_tokens_max = completion_max;
    })

-- `{host_id: ... for host_id, total in self._host_completions_total.items()}`: the keys are distinct.
unfoldable pub completion_stats :
    MetricsRegistry → Dict String ℕ → Result (Dict String HostCompletionStats)
completion_stats m [] = ok []
completion_stats m ((host_id, total) ∷ d) = stats_of m host_id total >>= λ stats.
    completion_stats m d >>= λ rest. ok ((host_id, stats) ∷ rest)

-- The registry without what `snapshot` evicts.
unfoldable pub evicted : ℕ → MetricsRegistry → MetricsRegistry
evicted at m = record m {
  requests = evict_all m.window at m.requests;
  failover_outcomes = evict (λ o. o.at) m.window at m.failover_outcomes;
}

unfoldable pub snapshot_of :
    {W : Type 0} → MetricsRegistry → HostRegistry → SchedulingQueue W → Result SliSnapshot
snapshot_of m registry q = availability_of (all_samples m.requests) >>= λ availability.
    p95_of (all_samples m.requests) >>= λ p95. failover_rate_of m.failover_outcomes >>= λ rate.
    saturation_of (hosts registry) [] >>= λ saturation.
    completion_stats m m.host_completions_total >>= λ stats. ok (record {
      availability = availability;
      p95_latency_ms = p95;
      failover_success_rate = rate;
      host_saturation = saturation;
      queue_depth = depth q;
      tokens_of = m.token_usage_total;
      host_completion_stats = stats;
    })

-- No step before the eviction of the failover outcomes raises, so that it has always happened.
unfoldable pub snapshot :
    {W : Type 0}
    → ℕ
    → HostRegistry
    → SchedulingQueue W
    → MetricsRegistry
    → Result SliSnapshot × MetricsRegistry
unfolding snapshot_of
snapshot at registry q m = let n = evicted at m in (snapshot_of n registry q, n)
