-- ===== src/Api/Hosts.antt =====
-- The helpers of `create_app` in src/llm_home_lab/api/app.py on the hosts: which of them serve a model,
-- which can be reserved and which can take a request now. Sizes are whole numbers of a small unit. A
-- backend is known by the id of its host; what its `list_models` answers is given.
use llm_home_lab.Base.{
  ℕ, ◌+◌, String, Bool, true, false, not, ◌&&◌, Option, none, some, List, [], ◌∷◌, map, leb,
  if◌then◌else◌, ◌==◌, string_eq, nat_eq, contains,
}
use llm_home_lab.Base.Int.{ℤ, pos, leb_ℤ}
use llm_home_lab.Dict.{Dict, lookup}
use llm_home_lab.Registry.{HostInfo, HostRegistry, hosts}
use llm_home_lab.Health.{HealthMonitor, is_healthy, has_probe_history}
use llm_home_lab.Leases.Models.{ReservableHost}
use llm_home_lab.Routing.{RoutingCandidate}
use llm_home_lab.Api.Errors.{Result, ok, raised, ◌>>=◌, zero_division}

-- What a backend says of its models: it has no `list_models`, or this is the answer.
pub data Listing : Type 0 where
  no_listing : Listing
  listed : Option (List String) → Listing

-- `host.capabilities.model_sizes_gb or {}`
abbrev pub sizes_of : HostInfo → Dict String ℕ
sizes_of host = elim (host.capabilities.model_sizes_gb) [ none ↦ [] | some sizes ↦ sizes ]

-- The memory in use, if the size of every loaded model is known.
unfoldable pub usage_of : Dict String ℕ → List String → Option ℕ
usage_of sizes [] = some 0
usage_of sizes (m ∷ ms) = elim (lookup m sizes) [
  | none ↦ none
  | some size ↦ elim (usage_of sizes ms) [ none ↦ none | some rest ↦ some (size + rest) ]
]

unfoldable pub fits_in_budget : HostInfo → String → List String → Bool
fits_in_budget host model loaded = elim (host.capabilities.memory_budget_gb) [
  | none ↦ false
  | some budget ↦ elim (lookup model (sizes_of host)) [
    | none ↦ false
    | some requested_size ↦ elim (usage_of (sizes_of host) loaded) [
      | none ↦ false
      | some current_usage ↦ leb (current_usage + requested_size) budget
    ]
  ]
]

-- A host serves the model, or its memory budget is in the way, or neither.
pub data Match : Type 0 where
  capable budget_blocked unserved : Match

abbrev pub has_budget : HostInfo → Bool
has_budget host = elim (host.capabilities.memory_budget_gb) [ none ↦ false | some b ↦ true ]

unfoldable pub match_loaded : String → HostInfo → List String → Match
match_loaded model host loaded =
    if contains loaded model
    then capable
    else if fits_in_budget host model loaded
    then capable
    else if has_budget host
    then budget_blocked
    else unserved

unfoldable pub match_listing : String → HostInfo → Listing → Match
match_listing model host no_listing = capable
match_listing model host (listed none) = capable
match_listing model host (listed (some loaded)) = match_loaded model host loaded

unfoldable pub match_host : (HostInfo → Listing) → String → HostInfo → Match
match_host listing model host = elim (host.capabilities.allowed_models) [
  | none ↦ match_listing model host (listing host)
  | some allowed ↦ if contains allowed model then capable else unserved
]

-- The capable hosts, and whether the budget of some other is in the way.
unfoldable pub model_capable_hosts :
    (HostInfo → Listing) → String → List HostInfo → List HostInfo × Bool
model_capable_hosts listing model [] = ([], false)
model_capable_hosts listing model (h ∷ hs) =
    let (rest, blocked) = model_capable_hosts listing model hs in
    elim (match_host listing model h) [
      | capable ↦ (h ∷ rest, blocked)
      | budget_blocked ↦ (rest, true)
      | unserved ↦ (rest, blocked)
    ]

unfoldable pub node_status : HealthMonitor → ℕ → String → String
node_status monitor at host_id =
    if not (has_probe_history host_id monitor)
    then "unknown"
    else if is_healthy host_id at monitor
    then "online"
    else "offline"

-- With a model, only the capable hosts serve it.
unfoldable pub serves_requested_model :
    (HostInfo → Listing) → Option String → List HostInfo → HostInfo → Bool
serves_requested_model listing none hs h = true
serves_requested_model listing (some model) hs h =
    contains (map (λ g. g.host_id) (model_capable_hosts listing model hs).0) h.host_id

unfoldable pub reservable_hosts :
    (HostInfo → Listing) → Option String → HealthMonitor → ℕ → HostRegistry → List ReservableHost
reservable_hosts listing model monitor now registry =
    map
      (λ h. record {
        host_id = h.host_id;
        status = node_status monitor now h.host_id;
        healthy = is_healthy h.host_id now monitor;
        serves_requested_model = serves_requested_model listing model (hosts registry) h;
      })
      (hosts registry)

-- `sum(... for host in registry.hosts() if _node_status(...) == "online")`
unfoldable pub capacity_of : HealthMonitor → ℕ → List HostInfo → ℕ
capacity_of monitor at [] = 0
capacity_of monitor at (h ∷ hs) =
    (if node_status monitor at h.host_id == "online" then h.capacity.max_concurrent_requests else 0)
    + capacity_of monitor at hs

-- The candidates among the hosts, with the quotient of two counts given by `load`. `slots` is what
-- the count of requests in flight of a host object is when it is read.
module _ {F : Type 0} (load : ℤ → ℕ → F) (slots : HostInfo → ℤ) (monitor : HealthMonitor)
    (at : ℕ) where
  -- `load_ratio`, a division by zero if the count is negative and there are no slots.
  unfoldable pub load_ratio : HostInfo → Result F
  load_ratio h =
      if h.capacity.max_concurrent_requests == 0
      then raised zero_division
      else ok (load (slots h) h.capacity.max_concurrent_requests)

  unfoldable pub can_take : HostInfo → Bool
  can_take h =
      is_healthy h.host_id at monitor
      && not (leb_ℤ (pos h.capacity.max_concurrent_requests) (slots h))

  abbrev pub candidate_of : HostInfo → F → RoutingCandidate F
  candidate_of h ratio = record {
    backend_id = h.host_id;
    latency_ms = ratio;
    context_window = h.capabilities.context_window;
  }

  unfoldable pub eligible_candidates : List HostInfo → Result (List (RoutingCandidate F))
  eligible_candidates [] = ok []
  eligible_candidates (h ∷ hs) =
      let rest = eligible_candidates hs in
      if can_take h
      then (load_ratio h >>= λ ratio. rest >>= λ candidates. ok (candidate_of h ratio ∷ candidates))
      else rest
