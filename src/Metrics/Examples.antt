-- ===== src/Metrics/Examples.antt =====
-- The theorems on the metrics at a history of two hosts with a request that has left the window.
use llm_home_lab.Base.{
  ℕ, ◌*◌, ◌≤◌, ◌<◌, String, ◌≡◌, refl, Bool, true, false, ◌&&◌, ◌⊎◌, none, List, [], ◌∷◌, ◌∙◌,
  arith, leb, ltb, any, count, In, string_eq,
}
use llm_home_lab.Base.Int.{pos}
use llm_home_lab.Dict.{lookup}
use llm_home_lab.Registry.{HostCapabilities, HostInfo, HostRegistry, hosts}
use llm_home_lab.Scheduling.{empty}
use llm_home_lab.Metrics.{Sample, new_metrics}
use llm_home_lab.Metrics.Snapshot.{
  SliSnapshot, ok, raised, zero_division, percentile, all_samples, availability_of, evicted,
  snapshot,
}
use llm_home_lab.Metrics.Runs.{
  Call, request, failover, token_usage, completion, run, completions_in, summary,
}
use llm_home_lab.Metrics.Percentile.{percentile-nearest_rank}
use llm_home_lab.Metrics.Snapshots.{has_no_slots, snapshot-run}
use llm_home_lab.Metrics.Eviction.{recent, requested, requests_in, InOrder}
use llm_home_lab.Metrics.Windows.{share, all_samples-run}

abbrev history : List Call
history =
    request "/v1/chat" 200 40 0
    ∷ completion "gpu" 40 10 7
    ∷ request "/v1/chat" 503 5 8
    ∷ failover true 8
    ∷ request "/metrics" 200 1 12
    ∷ completion "gpu" 20 30 3
    ∷ token_usage "gpu" 40 10
    ∷ []

history-InOrder : InOrder 0 history 14
unfolding InOrder
history-InOrder = (ground arith, (ground arith, (ground arith, ground arith)))

all_samples-run_example :
    ((p : Sample → Bool)
      → count p (all_samples (evicted 14 (run history (new_metrics 10))).requests)
        ≡ count (λ s. recent 10 14 s && p s) (requests_in history))
    × (availability_of (all_samples (evicted 14 (run history (new_metrics 10))).requests)
        ≡ ok (
            share
              (count (λ s. recent 10 14 s && ltb s.status_code 500) (requests_in history))
              (count (recent 10 14) (requests_in history))))
all_samples-run_example = all_samples-run 10 14 history history-InOrder

-- One of the two requests that are left failed.
availability_test :
    availability_of (all_samples (evicted 14 (run history (new_metrics 10))).requests)
    ≡ ok (record { numerator = pos 1; denominator = 2 })
unfolding availability_of evicted run count requests_in requested all_samples
availability_test = all_samples-run_example.1 ∙ refl

abbrev capabilities : HostCapabilities
capabilities = record {
  backend_type = "llamaserver";
  context_window = 8192;
  base_url = "http://gpu";
  allowed_models = none;
  memory_budget_gb = none;
  model_sizes_gb = none;
  model_aliases = none;
  position = none;
}

abbrev gpu : ℕ → HostInfo
gpu slots = record {
  host_id = "gpu";
  capabilities = capabilities;
  capacity = record { max_concurrent_requests = slots };
  in_flight = pos 1;
  last_seen = 0;
}

abbrev registry : HostRegistry
registry = record { hosts_by_id = ("gpu", gpu 2) ∷ []; store = [] }

snapshot-run_example :
    ((any has_no_slots (hosts registry) ≡ true)
      × ((snapshot 14 registry (empty {W = ℕ}) (run history (new_metrics 10))).0
          ≡ raised zero_division))
    ⊎ ((any has_no_slots (hosts registry) ≡ false)
        × (s : SliSnapshot) × ((snapshot 14 registry
              (empty {W = ℕ})
              (run history (new_metrics 10))).0
            ≡ ok s)
        × ((h : String) → lookup h s.host_completion_stats ≡ summary (completions_in h history)))
snapshot-run_example = snapshot-run 10 14 registry (empty {W = ℕ}) history

percentile-nearest_rank_example :
    (p : ℕ) × (percentile (4 ∷ 9 ∷ 2 ∷ []) 95 ≡ ok p)
    × In p (4 ∷ 9 ∷ 2 ∷ [])
    × (95 * 3 ≤ 100 * count (λ x. leb x p) (4 ∷ 9 ∷ 2 ∷ []))
    × (100 * count (λ x. ltb x p) (4 ∷ 9 ∷ 2 ∷ []) < 95 * 3)
percentile-nearest_rank_example = percentile-nearest_rank 4 (9 ∷ 2 ∷ [])
