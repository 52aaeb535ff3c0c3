-- ===== src/Api/Chat.antt =====
-- The route `chat_completions` of src/llm_home_lab/api/app.py, up to the slot that it acquires. The state
-- is that of the parts of the service; at an `await` other tasks turn it into any state, or cancel the
-- request. Between two awaits the clocks stand still. The host objects that a request has
-- collected are those of the registry until a host is registered again, which gives it a new object.
pub mod Placing
pub mod Open
pub mod Safety
pub mod Waiting
use llm_home_lab.Base.{
  ℕ, ◌+◌, String, ◌≡◌, Bool, true, false, not, ◌||◌, Option, none, some, List, [], ◌∷◌, map, any,
  filter, ltb, if◌then◌else◌, ◌==◌, string_eq,
}
use llm_home_lab.Base.Int.{ℤ}
use llm_home_lab.Registry.{HostInfo, HostRegistry, hosts, in_flight}
use llm_home_lab.Registry
use llm_home_lab.Health.{HealthMonitor, is_healthy}
use llm_home_lab.Leases.Models.{NodeLease}
use llm_home_lab.Leases.Models
use llm_home_lab.Leases.Book.{NodeLeaseBook, require, is_held}
use llm_home_lab.Scheduling.{
  SchedulingQueue, QueueEntry, enqueue, cancel, dispatch, Reply, nothing, request,
}
use llm_home_lab.Scheduling
use llm_home_lab.Routing.{
  Score, RoutingCandidate, RoutingEngine, RoutingDecision, Request, select_backend,
}
use llm_home_lab.Routing
use llm_home_lab.Completions.{CompletionLog}
use llm_home_lab.Metrics.{MetricsRegistry, record_failover_outcome}
use llm_home_lab.Api.Errors.{
  AppError, no_available_backend, model_not_available, model_capacity_exceeded, lease_error,
  key_error, cancelled, zero_division, Result, ok, raised, ◌>>=◌,
}
use llm_home_lab.Api.Hosts.{Listing, model_capable_hosts, eligible_candidates}

-- A host object that a request holds: it is the registry's, or it was replaced and keeps its count.
pub data HostObject : Type 0 where
  current : HostObject
  replaced : ℤ → HostObject

-- What the candidates are computed from.
pub record World : Type 0 where
  pub now : ℕ
  pub lease_now : ℕ
  pub registry : HostRegistry
  pub book : NodeLeaseBook
  pub monitor : HealthMonitor
  pub objects : HostInfo → HostObject

-- `host.in_flight`
abbrev pub slots_of : World → HostInfo → ℤ
slots_of w host = elim (w.objects host) [
  | replaced k ↦ k
  | current ↦ elim (in_flight host.host_id w.registry) [
    | Registry.Result.ok k ↦ k
    | Registry.Result.err e ↦ host.in_flight
  ]
]

pub record App (F : Type 0) : Type 0 where
  pub world : World
  pub queue : SchedulingQueue World
  pub router : RoutingEngine F
  pub metrics : MetricsRegistry
  pub log : CompletionLog

-- What an `await` gives back.
pub data Await (F : Type 0) : Type 0 where
  resumed : App F → Await F
  stopped : App F → Await F

abbrev pub with_book : {F : Type 0} → NodeLeaseBook → App F → App F
with_book book app = record app { world = record app.world { book = book } }

abbrev pub lease_result {ℓ} : {A : Type ℓ} → Models.Result A → Result A
lease_result (Models.Result.ok a) = ok a
lease_result (Models.Result.err e) = raised (lease_error e)

-- The hosts that no lease holds, in their order, and whether some host is held.
unfoldable pub open_hosts :
    List HostInfo → ℕ → NodeLeaseBook → (List HostInfo × Bool) × NodeLeaseBook
open_hosts [] now book = (([], false), book)
open_hosts (h ∷ hs) now book =
    let (held, after) = is_held h.host_id now book in
    let ((rest, some_held), last) = open_hosts hs now after in
    ((if held then rest else h ∷ rest, held || some_held), last)

abbrev pub on_node : String → List HostInfo → List HostInfo
on_node host_id = filter (λ h. h.host_id == host_id)

-- `lease_book.require(token, lease_now) if token else None`
unfoldable pub require_token :
    Option String → ℕ → NodeLeaseBook → Result (Option NodeLease) × NodeLeaseBook
require_token none now book = (ok none, book)
require_token (some token) now book =
    if token == ""
    then (ok none, book)
    else let (lease, after) = require token now book in
      (lease_result lease >>= λ l. ok (some l), after)

-- The hosts that the request may use, or why there is none.
unfoldable pub pinned_hosts : String → NodeLease → List HostInfo → Result (List HostInfo)
pinned_hosts model lease capable = elim (on_node lease.host_id capable) [
  | [] ↦ raised (model_not_available model)
  | h ∷ hs ↦ ok (h ∷ hs)
]

unfoldable pub unpinned_hosts : String → Bool → Bool → List HostInfo → Result (List HostInfo)
unpinned_hosts model leased_any budget_blocked [] = raised (
    if leased_any
    then no_available_backend
    else if budget_blocked
    then model_capacity_exceeded model
    else model_not_available model)
unpinned_hosts model leased_any budget_blocked (h ∷ hs) = ok (h ∷ hs)

unfoldable pub usable_hosts :
    String
    → Option NodeLease
    → List HostInfo
    → Bool
    → ℕ
    → NodeLeaseBook
    → Result (List HostInfo) × NodeLeaseBook
usable_hosts model (some lease) capable budget_blocked now book =
    (pinned_hosts model lease capable, book)
usable_hosts model none capable budget_blocked now book =
    let ((free, leased_any), after) = open_hosts capable now book in
    (unpinned_hosts model leased_any budget_blocked free, after)

-- The hosts of `current_candidates`: the leased node, or those that are not held.
unfoldable pub live_hosts :
    Option NodeLease → List HostInfo → ℕ → NodeLeaseBook → List HostInfo × NodeLeaseBook
live_hosts (some lease) capable now book = (on_node lease.host_id capable, book)
live_hosts none capable now book =
    let ((free, _), after) = open_hosts capable now book in (free, after)

abbrev pub ids_of : {F : Type 0} → List (RoutingCandidate F) → List String
ids_of = map (λ c. c.backend_id)

module _ {F : Type 0} (load : ℤ → ℕ → F) (token : Option String) (capable : List HostInfo) where
  abbrev pub candidates_among : World → List HostInfo → Result (List (RoutingCandidate F))
  candidates_among w = eligible_candidates load (slots_of w) w.monitor w.now

  abbrev pub candidates_for :
      World
      → Result (Option NodeLease)
      → NodeLeaseBook
      → Result (List (RoutingCandidate F)) × NodeLeaseBook
  candidates_for w (raised e) book = (raised e, book)
  candidates_for w (ok live) book =
      let (usable, after) = live_hosts live capable w.lease_now book in
      (candidates_among w usable, after)

  unfoldable pub current_candidates : World → Result (List (RoutingCandidate F)) × NodeLeaseBook
  current_candidates w =
      let (live, book) = require_token token w.lease_now w.book in candidates_for w live book

  -- The callback of the queue: a lease that has ended or is unknown leaves no host. Two things of the
  -- source are left out: the division by zero of a host with no slots and a count below zero, which
  -- would leave `dispatch`, and the removal of leases that have ended, which every later call repeats.
  unfoldable pub queued_host_ids : World → List String
  queued_host_ids w = elim ((current_candidates w).0) [ ok cs ↦ ids_of cs | raised e ↦ [] ]
