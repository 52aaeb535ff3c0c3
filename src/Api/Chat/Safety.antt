-- ===== src/Api/Chat/Safety.antt =====
-- The backend of a chat completion serves the model, can take the request, and is the leased node of
-- the request or a node that no lease holds, when its slot is acquired.
use llm_home_lab.Base.{
  ℕ, zero, suc, ◌+◌, String, ◌≡◌, refl, sym, subst, Bool, false, not, inl, inr, Option, List, [],
  ◌∷◌, any, arith, ltb, ◌==◌, string_eq, In, Bool-cases,
}
use llm_home_lab.Base.Int.{ℤ}
use llm_home_lab.Registry.{HostInfo, hosts, acquire_slot}
use llm_home_lab.Registry
use llm_home_lab.Health.{is_healthy}
use llm_home_lab.Leases.Models.{NodeLease}
use llm_home_lab.Leases.Book.{NodeLeaseBook}
use llm_home_lab.Scheduling.{Reply, nothing, request}
use llm_home_lab.Routing.{Score, RoutingCandidate, RoutingDecision}
use llm_home_lab.Routing.Choice.{select_backend-IsBest}
use llm_home_lab.Api.Errors.{AppError, no_available_backend, Result, ok, raised}
use llm_home_lab.Api.Hosts.{Listing, model_capable_hosts}
use llm_home_lab.Api.Chat.{
  World, App, Await, resumed, stopped, with_book, require_token, usable_hosts, current_candidates,
}
use llm_home_lab.Api.Chat.Placing.{
  ChatRequest, Waits, Outcome, done, failed, out_of_fuel, Turn, again, leave, error, turn_of, next,
  failover_recorded, dispatched, polled, poll, wait_loop, wait_in_queue, find_candidates, acquired,
  registered, decide, tagged, place_on, place_pinned, place_listed, place_required, place,
}
use llm_home_lab.Api.Chat.Open.{Usable, current_candidates-Usable}

turn_of-leave :
    {F : Type 0} (id : String) (cs ds : List (RoutingCandidate F)) (reply : Reply)
    → turn_of id cs reply ≡ leave ds
    → cs ≡ ds
unfolding turn_of
turn_of-leave id cs ds nothing e = cc
turn_of-leave id cs ds Reply.raised e = cc
turn_of-leave id cs ds (request other) e = elim (Bool-cases (other == id)) [
  | inl own ↦ ground arith
  | inr foreign ↦ ground arith
]

module _ {F : Type 0} (load : ℤ → ℕ → F) (others : ℕ → App F → Await F) (waits : Waits)
    (token : Option String) (r : ChatRequest) (started : ℕ) (capable : List HostInfo)
    (failover_in_play : Bool) where
  abbrev AllUsable : List (RoutingCandidate F) → App F → Type 0
  AllUsable cs app =
      (c : RoutingCandidate F) → In c cs → Usable load token capable app.world c.backend_id

  dispatched-AllUsable :
      (cs ds : List (RoutingCandidate F)) (app : App F)
      → AllUsable cs app
      → (dispatched load others waits token r started capable failover_in_play cs app).0 ≡ leave ds
      → AllUsable ds
          (dispatched load others waits token r started capable failover_in_play cs app).1
  unfolding dispatched
  dispatched-AllUsable [] ds app u e = absurd (cc)
  dispatched-AllUsable (c ∷ cs) ds app u e =
      let same = turn_of-leave r.request_id (c ∷ cs) ds _ e in
      λ d i. u d (subst (In d) (sym same) i)

  polled-AllUsable :
      (x : Result (List (RoutingCandidate F))) (ds : List (RoutingCandidate F)) (app : App F)
      → ((cs : List (RoutingCandidate F)) → x ≡ ok cs → AllUsable cs app)
      → (polled load others waits token r started capable failover_in_play x app).0 ≡ leave ds
      → AllUsable ds (polled load others waits token r started capable failover_in_play x app).1
  unfolding polled
  polled-AllUsable (raised x) ds app u e = absurd (cc)
  polled-AllUsable (ok cs) ds app u e = dispatched-AllUsable cs ds app (u cs refl) e

  poll-AllUsable :
      (x : Await F) (ds : List (RoutingCandidate F))
      → (poll load others waits token r started capable failover_in_play x).0 ≡ leave ds
      → AllUsable ds (poll load others waits token r started capable failover_in_play x).1
  unfolding poll
  poll-AllUsable (stopped app) ds e = absurd (cc)
  poll-AllUsable (resumed app) ds e =
      polled-AllUsable (current_candidates load token capable app.world).0 ds
        (with_book (current_candidates load token capable app.world).1 app)
        (λ cs same c i. current_candidates-Usable load token capable app.world cs c same i) e

  abbrev Finds : Outcome (List (RoutingCandidate F)) × App F → Type 0
  Finds x = (cs : List (RoutingCandidate F)) → x.0 ≡ done cs → AllUsable cs x.1

  next-Finds :
      (t : Turn F) (app : App F) (loop : App F → Outcome (List (RoutingCandidate F)) × App F)
      → ((ds : List (RoutingCandidate F)) → t ≡ leave ds → AllUsable ds app)
      → Finds (loop app)
      → Finds (next t app loop)
  next-Finds again app loop u f = f
  next-Finds (leave ds) app loop u f = λ cs e. u cs (cc)
  next-Finds (error x) app loop u f = λ cs e. absurd (cc)

  over-Finds :
      (b : Bool) (x : AppError) (app : App F) → Finds (failed x, failover_recorded b false app)
  over-Finds b x app = λ cs e. absurd (cc)

  wait_loop-Finds :
      (fuel n waited : ℕ) (app : App F)
      → Finds
          (wait_loop load others waits token r started capable failover_in_play fuel n waited app)
  unfolding wait_loop
  wait_loop-Finds zero n waited app = λ cs e. absurd (cc)
  wait_loop-Finds (suc fuel) n waited app = elim (Bool-cases (ltb waited waits.timeout)) [
    | inr over ↦ rw (wait_loop, over) (over-Finds failover_in_play no_available_backend app)
    | inl more ↦
        let p = poll load others waits token r started capable failover_in_play (others n app) in
        rw (wait_loop, more)
          (next-Finds p.0 p.1
            (wait_loop load others waits token r started capable failover_in_play fuel (n + 1)
              (waited + waits.interval))
            (λ ds e. poll-AllUsable (others n app) ds e)
            (wait_loop-Finds fuel (n + 1) (waited + waits.interval) p.1))
  ]

  find_candidates-Finds :
      (fuel n : ℕ) (x : Result (List (RoutingCandidate F))) (app : App F)
      → ((cs : List (RoutingCandidate F)) → x ≡ ok cs → AllUsable cs app)
      → Finds
          (find_candidates load others waits token r started capable failover_in_play fuel n x app)
  unfolding find_candidates wait_in_queue
  find_candidates-Finds fuel n (raised x) app u = λ cs e. absurd (cc)
  find_candidates-Finds fuel n (ok []) app u = wait_loop-Finds fuel n 0 _
  find_candidates-Finds fuel n (ok (c ∷ cs)) app u = λ ds e. u ds (cc)

module _ {F : Type 0} (score : Score F) (load : ℤ → ℕ → F) (token : Option String) (r : ChatRequest)
    (capable : List HostInfo) where
  -- A backend that a request may have: its slot was acquired from a registry with which it was usable.
  abbrev pub Placed : World → String → Type 0
  Placed w id =
      (before : Registry.HostRegistry) × (acquire_slot id before ≡ Registry.Result.ok w.registry)
      × Usable load token capable (record w { registry = before }) id

  abbrev Given : Outcome (RoutingDecision F) × App F → Type 0
  Given x = (d : RoutingDecision F) → x.0 ≡ done d → Placed x.1.world d.backend_id

  registered-Given :
      (d : RoutingDecision F) (x : Registry.Result Registry.HostRegistry) (app : App F)
      → acquire_slot d.backend_id app.world.registry ≡ x
      → Usable load token capable app.world d.backend_id
      → Given (registered score d x app)
  registered-Given d (Registry.Result.ok registry) app a u = λ g e.
      let same : d ≡ g = cc in
      subst
        (λ (z : RoutingDecision F). Placed (record app.world { registry = registry }) z.backend_id)
        same (app.world.registry, a, u)
  registered-Given d (Registry.Result.err (Registry.RegistryError.key_error k)) app a u =
      λ g e. absurd (cc)
  registered-Given d (Registry.Result.err (Registry.RegistryError.host_not_registered k)) app a u =
      λ g e. absurd (cc)

  decide-Given :
      (x : Outcome (List (RoutingCandidate F))) (app : App F)
      → ((cs : List (RoutingCandidate F))
          → x ≡ done cs
          → (c : RoutingCandidate F) → In c cs
          → Usable load token capable app.world c.backend_id)
      → Given (decide score r (x, app))
  unfolding decide acquired
  decide-Given out_of_fuel app u = λ d e. absurd (cc)
  decide-Given (failed x) app u = λ d e. absurd (cc)
  decide-Given (done cs) app u =
      elim (select_backend-IsBest score r.asked cs r.session_id app.router) [
        | inl (refused, _) ↦ rw (acquired, refused) (λ d e. absurd (cc))
        | inr ((d, router), selected, (c, there, same, _), _) ↦
            rw (acquired, selected)
              (registered-Given d (acquire_slot d.backend_id app.world.registry)
                (record app { router = router }) refl
                (subst (λ k. Usable load token capable app.world k) same (u cs refl c there)))
      ]

  -- The same, with the flag.
  abbrev GivenTagged : Outcome (RoutingDecision F × Bool) × App F → Type 0
  GivenTagged x = (d : RoutingDecision F × Bool) → x.0 ≡ done d → Placed x.1.world d.0.backend_id

  tagged-Given :
      (b : Bool) (x : Outcome (RoutingDecision F)) (app : App F)
      → Given (x, app)
      → GivenTagged (tagged b (x, app))
  tagged-Given b out_of_fuel app g = λ d e. absurd (cc)
  tagged-Given b (failed x) app g = λ d e. absurd (cc)
  tagged-Given b (done c) app g = λ d e.
      let same : c ≡ d.0 = cc in
      subst (λ (z : RoutingDecision F). Placed app.world z.backend_id) same (g c refl)

  module _ (others : ℕ → App F → Await F) (waits : Waits) (started fuel : ℕ) where
    place_on-Given :
        (usable : Result (List HostInfo)) (app : App F)
        → GivenTagged (place_on score load others waits token r started fuel capable usable app)
    unfolding place_on
    place_on-Given (raised x) app = λ d e. absurd (cc)
    place_on-Given (ok usable) app =
        let failover_in_play =
          any (λ h. not (is_healthy h.host_id started app.world.monitor)) usable in
        let (candidates, book) = current_candidates load token capable app.world in
        let found =
          find_candidates load others waits token r started capable failover_in_play fuel 1
            candidates (with_book book app) in
        let decided = decide score r found in
        tagged-Given failover_in_play decided.0 decided.1 (
          decide-Given found.0 found.1 (
            find_candidates-Finds load others waits token r started capable failover_in_play fuel 1
              candidates (with_book book app)
              (λ cs same c i. current_candidates-Usable load token capable app.world cs c same i)))

    place_pinned-Given :
        (blocked : Bool) (pinned : Result (Option NodeLease)) (book : NodeLeaseBook) (app : App F)
        → GivenTagged (
            place_pinned score load others waits token r started fuel capable blocked
              (pinned, book)
              app)
    unfolding place_pinned
    place_pinned-Given blocked (raised x) book app = λ d e. absurd (cc)
    place_pinned-Given blocked (ok pinned) book app =
        let (usable, after) =
          usable_hosts r.model pinned capable blocked app.world.lease_now book in
        place_on-Given usable (with_book after app)

    place_listed-Given :
        (blocked : Bool) (x : Await F)
        → GivenTagged (place_listed score load others waits token r started fuel capable blocked x)
    unfolding place_listed
    place_listed-Given blocked (stopped app) = λ d e. absurd (cc)
    place_listed-Given blocked (resumed app) =
        let (pinned, book) = require_token token app.world.lease_now app.world.book in
        place_pinned-Given blocked pinned book app

place_required-Given :
    {F : Type 0} (score : Score F) (load : ℤ → ℕ → F) (listing : HostInfo → Listing)
    (others : ℕ → App F → Await F) (waits : Waits) (token : Option String) (r : ChatRequest)
    (fuel : ℕ) (pinned : Result (Option NodeLease)) (app : App F)
    → GivenTagged score load token r
        (model_capable_hosts listing r.model (hosts app.world.registry)).0
        (place_required score load listing others waits token r fuel pinned app)
unfolding place_required
place_required-Given score load listing others waits token r fuel (raised x) app =
    λ d e. absurd (cc)
place_required-Given score load listing others waits token r fuel (ok pinned) app =
    let (capable, blocked) = model_capable_hosts listing r.model (hosts app.world.registry) in
    place_listed-Given score load token r capable others waits app.world.now fuel blocked
      (others 0 app)

-- Whatever other tasks do while a chat request waits, a backend that it is given is that of a host
-- registered at its start that serves the model, and its slot was acquired when the host was healthy,
-- and either the request named no lease and no lease held the host, or its token was good for a lease
-- on just this host; and the host had fewer requests in flight than the maximum that it had at the
-- start: by the registry's count, or, if the host was registered again or removed meanwhile, by the count
-- that its replaced object kept.
pub place-IsSafe :
    {F : Type 0} (score : Score F) (load : ℤ → ℕ → F) (listing : HostInfo → Listing)
    (others : ℕ → App F → Await F) (waits : Waits) (token : Option String) (r : ChatRequest)
    (fuel : ℕ) (app : App F) (d : RoutingDecision F × Bool)
    → (place score load listing others waits token r fuel app).0 ≡ done d
    → Placed score load token r
        (model_capable_hosts listing r.model (hosts app.world.registry)).0
        (place score load listing others waits token r fuel app).1.world
        d.0.backend_id
unfolding place
place-IsSafe score load listing others waits token r fuel app d e =
    let (pinned, book) = require_token token app.world.lease_now app.world.book in
    place_required-Given score load listing others waits token r fuel pinned (with_book book app) d
      e
