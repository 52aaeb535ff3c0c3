-- ===== src/Api/Chat/Placing.antt =====
-- The body of `chat_completions` of src/llm_home_lab/api/app.py from the lease check to the acquired slot:
-- the wait in the queue, which ends with the entry cancelled, and the choice of the backend. The
-- `n`-th await of the request is `others n`. The loop of the wait is on fuel.
use llm_home_lab.Base.{
  ℕ, zero, suc, ◌+◌, String, Bool, true, false, not, Option, none, some, List, [], ◌∷◌, any, ltb,
  if◌then◌else◌, ◌==◌, string_eq,
}
use llm_home_lab.Base.Int.{ℤ}
use llm_home_lab.Registry.{HostInfo, hosts, acquire_slot}
use llm_home_lab.Registry
use llm_home_lab.Health.{is_healthy}
use llm_home_lab.Leases.Models.{NodeLease}
use llm_home_lab.Leases.Book.{NodeLeaseBook}
use llm_home_lab.Scheduling.{QueueEntry, enqueue, cancel, dispatch, Reply, nothing, request}
use llm_home_lab.Routing.{Score, RoutingCandidate, RoutingDecision, Request, select_backend}
use llm_home_lab.Routing
use llm_home_lab.Metrics.{record_failover_outcome}
use llm_home_lab.Api.Errors.{
  AppError, no_available_backend, key_error, unknown_host, cancelled, Result, ok, raised,
}
use llm_home_lab.Api.Hosts.{Listing, model_capable_hosts}
use llm_home_lab.Api.Chat.{
  App, Await, resumed, stopped, with_book, require_token, usable_hosts, current_candidates, ids_of,
  queued_host_ids,
}

pub record ChatRequest : Type 0 where
  pub request_id : String
  pub model : String
  pub session_id : Option String
  pub stream : Bool
  pub asked : Request

-- `dispatch_wait_timeout` and `dispatch_poll_interval`, in one unit.
pub record Waits : Type 0 where
  pub timeout : ℕ
  pub interval : ℕ

pub data Outcome {ℓ} (A : Type ℓ) : Type ℓ where
  done : A → Outcome A
  failed : AppError → Outcome A
  out_of_fuel : Outcome A

-- One turn of the loop after the sleep.
pub data Turn (F : Type 0) : Type 0 where
  again : Turn F
  leave : List (RoutingCandidate F) → Turn F
  error : AppError → Turn F

-- `request.session_id or request_id`
abbrev pub queue_session_id : ChatRequest → String
queue_session_id r = elim (r.session_id) [
  | none ↦ r.request_id
  | some s ↦ if s == "" then r.request_id else s
]

module _ {F : Type 0} where
  abbrev pub failover_recorded : Bool → Bool → App F → App F
  failover_recorded false succeeded app = app
  failover_recorded true succeeded app = record app {
    metrics = record_failover_outcome succeeded app.world.now app.metrics;
  }

  -- What the reply of `dispatch` means to the request.
  unfoldable pub turn_of : String → List (RoutingCandidate F) → Reply → Turn F
  turn_of request_id cs nothing = again
  turn_of request_id cs Reply.raised = error (key_error request_id)
  turn_of request_id cs (request id) = if id == request_id then leave cs else again

  -- The end of a turn: the loop goes on, or it is left.
  abbrev pub next :
      Turn F
      → App F
      → (App F → Outcome (List (RoutingCandidate F)) × App F)
      → Outcome (List (RoutingCandidate F)) × App F
  next again app loop = loop app
  next (leave cs) app loop = (done cs, app)
  next (error e) app loop = (failed e, app)

module _ {F : Type 0} (load : ℤ → ℕ → F) (others : ℕ → App F → Await F) (waits : Waits)
    (token : Option String) (r : ChatRequest) (started : ℕ) (capable : List HostInfo)
    (failover_in_play : Bool) where
  unfoldable pub dispatched : List (RoutingCandidate F) → App F → Turn F × App F
  dispatched [] app = (again, app)
  dispatched (c ∷ cs) app =
      let (reply, q) =
        dispatch app.world.registry app.world (some (ids_of (c ∷ cs))) (some r.request_id)
          app.queue in
      (turn_of r.request_id (c ∷ cs) reply, record app { queue = q })

  unfoldable pub polled : Result (List (RoutingCandidate F)) → App F → Turn F × App F
  polled (raised e) app = (error e, app)
  polled (ok cs) app = dispatched cs app

  unfoldable pub poll : Await F → Turn F × App F
  poll (stopped app) = (error cancelled, app)
  poll (resumed app) =
      let (candidates, book) = current_candidates load token capable app.world in
      polled candidates (with_book book app)

  -- The loop, its `else` included, from a time waited and the number of the next await.
  unfoldable pub wait_loop : ℕ → ℕ → ℕ → App F → Outcome (List (RoutingCandidate F)) × App F
  wait_loop zero n waited app = (out_of_fuel, app)
  wait_loop (suc fuel) n waited app = elim (ltb waited waits.timeout) [
    | false ↦ (failed no_available_backend, failover_recorded failover_in_play false app)
    | true ↦
        let (turn, after) = poll (others n app) in
        next turn after (wait_loop fuel (n + 1) (waited + waits.interval))
  ]

  abbrev pub entry_of : QueueEntry
  entry_of = record {
    request_id = r.request_id;
    session_id = queue_session_id r;
    priority = 0;
    at = started;
  }

  -- `enqueue`, the loop under `try`, and `cancel` under `finally`.
  unfoldable pub wait_in_queue : ℕ → ℕ → App F → Outcome (List (RoutingCandidate F)) × App F
  wait_in_queue fuel n app =
      let queued : App F = record app {
        queue = enqueue entry_of (some (queued_host_ids load token capable)) app.queue;
      } in
      let (outcome, last) = wait_loop fuel n 0 queued in
      (outcome, record last { queue = cancel r.request_id (queue_session_id r) 0 last.queue })

  -- The candidates at once, or after a wait.
  unfoldable pub find_candidates :
      ℕ
      → ℕ
      → Result (List (RoutingCandidate F))
      → App F
      → Outcome (List (RoutingCandidate F)) × App F
  find_candidates fuel n (raised e) app = (failed e, app)
  find_candidates fuel n (ok []) app = wait_in_queue fuel n app
  find_candidates fuel n (ok (c ∷ cs)) app = (done (c ∷ cs), app)

module _ {F : Type 0} (score : Score F) where
  abbrev pub registered :
      RoutingDecision F
      → Registry.Result Registry.HostRegistry
      → App F
      → Outcome (RoutingDecision F) × App F
  registered d (Registry.Result.ok registry) app =
      (done d, record app { world = record app.world { registry = registry } })
  registered d (Registry.Result.err (Registry.RegistryError.key_error k)) app =
      (failed (key_error k), app)
  registered d (Registry.Result.err (Registry.RegistryError.host_not_registered k)) app =
      (failed (unknown_host k), app)

  unfoldable pub acquired :
      Routing.Result (RoutingDecision F × Routing.RoutingEngine F)
      → App F
      → Outcome (RoutingDecision F) × App F
  acquired (Routing.Result.no_available_backend budget) app = (failed no_available_backend, app)
  acquired (Routing.Result.ok (d, router)) app =
      registered d (acquire_slot d.backend_id app.world.registry) (record app { router = router })

  unfoldable pub decide :
      ChatRequest
      → Outcome (List (RoutingCandidate F)) × App F
      → Outcome (RoutingDecision F) × App F
  decide r (out_of_fuel, app) = (out_of_fuel, app)
  decide r (failed e, app) = (failed e, app)
  decide r (done cs, app) = acquired (select_backend score r.asked cs r.session_id app.router) app

-- The backend, with whether a failover was in play.
abbrev pub tagged :
    {F : Type 0}
    → Bool
    → Outcome (RoutingDecision F) × App F
    → Outcome (RoutingDecision F × Bool) × App F
tagged failover_in_play (done d, app) = (done (d, failover_in_play), app)
tagged failover_in_play (failed e, app) = (failed e, app)
tagged failover_in_play (out_of_fuel, app) = (out_of_fuel, app)

-- The whole of it. `started` is the time at which the request came in.
module _ {F : Type 0} (score : Score F) (load : ℤ → ℕ → F) (others : ℕ → App F → Await F)
    (waits : Waits) (token : Option String) (r : ChatRequest) (started fuel : ℕ)
    (capable : List HostInfo) where
  unfoldable pub place_on :
      Result (List HostInfo) → App F → Outcome (RoutingDecision F × Bool) × App F
  place_on (raised e) app = (failed e, app)
  place_on (ok usable) app =
      let failover_in_play =
        any (λ h. not (is_healthy h.host_id started app.world.monitor)) usable in
      let (candidates, book) = current_candidates load token capable app.world in
      tagged failover_in_play (
        decide score r (
          find_candidates load others waits token r started capable failover_in_play fuel 1
            candidates (with_book book app)))

  unfoldable pub place_pinned :
      Bool
      → Result (Option NodeLease) × NodeLeaseBook
      → App F
      → Outcome (RoutingDecision F × Bool) × App F
  place_pinned budget_blocked (raised e, book) app = (failed e, with_book book app)
  place_pinned budget_blocked (ok pinned, book) app =
      let (usable, after) =
        usable_hosts r.model pinned capable budget_blocked app.world.lease_now book in
      place_on usable (with_book after app)

  unfoldable pub place_listed : Bool → Await F → Outcome (RoutingDecision F × Bool) × App F
  place_listed budget_blocked (stopped app) = (failed cancelled, app)
  place_listed budget_blocked (resumed app) =
      place_pinned budget_blocked (require_token token app.world.lease_now app.world.book) app

module _ {F : Type 0} (score : Score F) (load : ℤ → ℕ → F) (listing : HostInfo → Listing)
    (others : ℕ → App F → Await F) (waits : Waits) (token : Option String) (r : ChatRequest)
    (fuel : ℕ) where
  unfoldable pub place_required :
      Result (Option NodeLease) → App F → Outcome (RoutingDecision F × Bool) × App F
  place_required (raised e) app = (failed e, app)
  place_required (ok pinned) app =
      let (capable, budget_blocked) =
        model_capable_hosts listing r.model (hosts app.world.registry) in
      place_listed score load others waits token r app.world.now fuel capable budget_blocked
        (others 0 app)

  unfoldable pub place : App F → Outcome (RoutingDecision F × Bool) × App F
  place app =
      let (pinned, book) = require_token token app.world.lease_now app.world.book in
      place_required pinned (with_book book app)
