-- ===== src/Scheduling/Examples.antt =====
-- The queue theorems at a queue with two sessions and one host.
use llm_home_lab.Base.{
  ℕ, String, ◌+◌, ◌≡◌, ◌⊎◌, refl, none, some, List, [], ◌∷◌, string_eq, nat_eq, contains, any,
}
use llm_home_lab.Base.Int.{pos}
use llm_home_lab.Dict.{lookup, insert, member}
use llm_home_lab.Registry.{HostCapabilities, HostInfo, HostRegistry, hosts}
use llm_home_lab.Base.Sorting.{sort, insert_ℕ}
use llm_home_lab.Scheduling.{
  QueueEntry, SchedulingQueue, empty, enqueue, add_entry, add_session, add_eligibility, depth,
  has_free_capacity, allowed, turn, scan_sessions, scan_tier, scan_tiers, take_entry, Reply,
  request, raised, nothing, dispatch,
}
use llm_home_lab.Scheduling.Valid.{IsValid, empty-IsValid, enqueue-IsValid}
use llm_home_lab.Scheduling.Dispatching.{Fair, dispatch-IsFair}
use llm_home_lab.Scheduling.Depth.{
  Step, enqueued, cancelled, dispatched, run, run-IsValid, depth-enqueue, depth-dispatch,
}

abbrev caps : HostCapabilities
caps = record {
  backend_type = "lmstudio";
  context_window = 8192;
  base_url = "http://gpu-box.home:1234";
  allowed_models = none;
  memory_budget_gb = none;
  model_sizes_gb = none;
  model_aliases = none;
  position = none;
}

abbrev host : HostInfo
host = record {
  host_id = "gpu";
  capabilities = caps;
  capacity = record { max_concurrent_requests = 4 };
  in_flight = pos 1;
  last_seen = 7;
}

abbrev registry : HostRegistry
registry = record { hosts_by_id = ("gpu", host) ∷ []; store = [] }

abbrev waiting : String → String → QueueEntry
waiting id session = record { request_id = id; session_id = session; priority = 0; at = 7 }

abbrev one : SchedulingQueue ℕ
one = enqueue (waiting "r1" "s1") none empty

-- The first request may only use a host that is gone; the second may use any.
abbrev two : SchedulingQueue ℕ
two =
    enqueue (waiting "r2" "s2") none
      (enqueue (waiting "r1" "s1") (some (λ world. "old" ∷ [])) empty)

two-IsValid : IsValid two
two-IsValid =
    enqueue-IsValid (waiting "r2" "s2") none
      (enqueue (waiting "r1" "s1") (some (λ world. "old" ∷ [])) empty)
      (enqueue-IsValid (waiting "r1" "s1") (some (λ world. "old" ∷ [])) empty empty-IsValid)

dispatch_test :
    dispatch registry 0 none none two ≡ (request "r2", take_entry 0 "s2" (waiting "r2" "s2") [] two)
unfolding dispatch has_free_capacity any hosts scan_tiers scan_tier scan_sessions turn allowed
    enqueue add_entry add_session add_eligibility sort insert_ℕ lookup insert member contains
dispatch_test = refl

dispatch-IsFair_example :
    Fair registry 0 none none two (take_entry 0 "s2" (waiting "r2" "s2") [] two) (request "r2")
dispatch-IsFair_example =
    dispatch-IsFair registry 0 none none two (take_entry 0 "s2" (waiting "r2" "s2") [] two)
      (request "r2") two-IsValid dispatch_test

depth-dispatch_test :
    ((request "r2" ≡ nothing) × (depth (take_entry 0 "s2" (waiting "r2" "s2") [] two) ≡ depth two))
    ⊎ ((id : String) × (request "r2" ≡ request id)
        × (depth (take_entry 0 "s2" (waiting "r2" "s2") [] two) + 1 ≡ depth two))
depth-dispatch_test =
    depth-dispatch registry 0 none none two (take_entry 0 "s2" (waiting "r2" "s2") [] two)
      (request "r2") two-IsValid dispatch_test

depth-enqueue_test : depth (enqueue (waiting "r2" "s1") none one) ≡ depth one + 1
depth-enqueue_test = depth-enqueue (waiting "r2" "s1") none one

abbrev calls : List (Step ℕ)
calls =
    enqueued (waiting "r1" "s1") none ∷ dispatched registry 0 none none ∷ cancelled "r1" "s1" 0 ∷ []

run-IsValid_example :
    IsValid (run calls empty)
    × ((q : SchedulingQueue ℕ)
        → ◌≡◌ {A = Reply × SchedulingQueue ℕ}
            (dispatch registry 0 none none (run calls empty))
            (raised, q)
        → ⊥)
run-IsValid_example = run-IsValid calls registry 0 none none
