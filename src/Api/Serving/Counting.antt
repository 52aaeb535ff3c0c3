-- ===== src/Api/Serving/Counting.antt =====
-- The count of a host while a chat completion waits and acquires its slot.
use llm_home_lab.Base.{
  ℕ, zero, suc, ◌+◌, String, ◌≡◌, Bool, true, false, not, inl, inr, Option, List, [], ◌∷◌, any, ltb,
  if◌then◌else◌, ◌==◌, string_eq, Bool-cases,
}
use llm_home_lab.Base.Int.{ℤ, pos, ◌+ℤ◌}
use llm_home_lab.Registry.{
  add_slots, HostInfo, HostRegistry, hosts, in_flight, acquire_slot, release_slot, after,
}
use llm_home_lab.Registry
use llm_home_lab.Registry.Slots.{add_slots-in_flight}
use llm_home_lab.Health.{is_healthy}
use llm_home_lab.Leases.Models.{NodeLease}
use llm_home_lab.Leases.Book.{NodeLeaseBook}
use llm_home_lab.Routing.{Score, RoutingCandidate, RoutingDecision, RoutingEngine, select_backend}
use llm_home_lab.Routing
use llm_home_lab.Api.Errors.{Result, ok, raised}
use llm_home_lab.Api.Hosts.{Listing, model_capable_hosts}
use llm_home_lab.Api.Chat.{
  App, Await, resumed, stopped, with_book, require_token, usable_hosts, current_candidates,
}
use llm_home_lab.Api.Chat.Placing.{
  ChatRequest, Waits, Outcome, done, failed, out_of_fuel, Turn, again, leave, error, next,
  failover_recorded, tagged, dispatched, polled, poll, wait_loop, wait_in_queue, find_candidates,
  acquired, registered, decide, place_on, place_pinned, place_listed, place_required, place,
}

abbrev pub awaited : {F : Type 0} → Await F → App F
awaited (resumed app) = app
awaited (stopped app) = app

-- The count of a host while a request runs: one more if it was given that host.
abbrev pub taken : String → String → ℤ
taken h id = if id == h then pos 1 else pos 0

module _ {F : Type 0} (h : String) where
  -- The host has this count in flight.
  abbrev pub Holds : ℤ → App F → Type 0
  Holds k app = in_flight h app.world.registry ≡ Registry.Result.ok k

  pub failover_recorded-Holds :
      (b c : Bool) (k : ℤ) (app : App F) → Holds k app → Holds k (failover_recorded b c app)
  failover_recorded-Holds true c k app e = e
  failover_recorded-Holds false c k app e = e

  module _ (load : ℤ → ℕ → F) (others : ℕ → App F → Await F) (waits : Waits) (token : Option String)
      (r : ChatRequest) (started : ℕ) (capable : List HostInfo) (failover_in_play : Bool) (k : ℤ)
      (keeps : (n : ℕ) (app : App F) → Holds k app → Holds k (awaited (others n app))) where
    polled-Holds :
        (x : Result (List (RoutingCandidate F))) (app : App F)
        → Holds k app
        → Holds k (polled load others waits token r started capable failover_in_play x app).1
    unfolding polled dispatched
    polled-Holds (raised x) app e = e
    polled-Holds (ok []) app e = e
    polled-Holds (ok (c ∷ cs)) app e = e

    poll-Holds :
        (x : Await F)
        → Holds k (awaited x)
        → Holds k (poll load others waits token r started capable failover_in_play x).1
    unfolding poll
    poll-Holds (stopped app) e = e
    poll-Holds (resumed app) e =
        polled-Holds (current_candidates load token capable app.world).0
          (with_book (current_candidates load token capable app.world).1 app) e

    next-Holds :
        (t : Turn F) (app : App F) (loop : App F → Outcome (List (RoutingCandidate F)) × App F)
        → Holds k app
        → Holds k (loop app).1
        → Holds k (next t app loop).1
    next-Holds again app loop e l = l
    next-Holds (leave cs) app loop e l = e
    next-Holds (error x) app loop e l = e

    wait_loop-Holds :
        (fuel n waited : ℕ) (app : App F)
        → Holds k app
        → Holds k
            (wait_loop load others waits token r started capable failover_in_play fuel n waited
              app).1
    unfolding wait_loop
    wait_loop-Holds zero n waited app e = e
    wait_loop-Holds (suc fuel) n waited app e = elim (Bool-cases (ltb waited waits.timeout)) [
      | inr over ↦ rw (wait_loop, over) (failover_recorded-Holds failover_in_play false k app e)
      | inl more ↦
          let p = poll load others waits token r started capable failover_in_play (others n app) in
          let kept = poll-Holds (others n app) (keeps n app e) in
          rw (wait_loop, more)
            (next-Holds p.0 p.1
              (wait_loop load others waits token r started capable failover_in_play fuel (n + 1)
                (waited + waits.interval))
              kept (wait_loop-Holds fuel (n + 1) (waited + waits.interval) p.1 kept))
    ]

    find_candidates-Holds :
        (fuel n : ℕ) (x : Result (List (RoutingCandidate F))) (app : App F)
        → Holds k app
        → Holds k
            (find_candidates load others waits token r started capable failover_in_play fuel n x
              app).1
    unfolding find_candidates wait_in_queue
    find_candidates-Holds fuel n (raised x) app e = e
    find_candidates-Holds fuel n (ok []) app e = wait_loop-Holds fuel n 0 _ e
    find_candidates-Holds fuel n (ok (c ∷ cs)) app e = e

  abbrev pub Counted : ℤ → Outcome (RoutingDecision F) × App F → Type 0
  Counted k (done d, app) = Holds (k +ℤ taken h d.backend_id) app
  Counted k (failed e, app) = Holds k app
  Counted k (out_of_fuel, app) = Holds k app

  abbrev pub CountedTagged : ℤ → Outcome (RoutingDecision F × Bool) × App F → Type 0
  CountedTagged k (done (d, b), app) = Holds (k +ℤ taken h d.backend_id) app
  CountedTagged k (failed e, app) = Holds k app
  CountedTagged k (out_of_fuel, app) = Holds k app

  module _ (score : Score F) (k : ℤ) where
    registered-Counted :
        (d : RoutingDecision F) (x : Registry.Result HostRegistry) (app : App F)
        → Holds k app
        → in_flight h (after app.world.registry x) ≡ Registry.Result.ok (k +ℤ taken h d.backend_id)
        → Counted k (registered score d x app)
    registered-Counted d (Registry.Result.ok registry) app e a = a
    registered-Counted d (Registry.Result.err (Registry.RegistryError.key_error x)) app e a = e
    registered-Counted d (Registry.Result.err (Registry.RegistryError.host_not_registered x)) app e
          a =
        e

    acquired-Counted :
        (x : Routing.Result (RoutingDecision F × RoutingEngine F)) (app : App F)
        → Holds k app
        → Counted k (acquired score x app)
    unfolding acquired acquire_slot
    acquired-Counted (Routing.Result.no_available_backend budget) app e = e
    acquired-Counted (Routing.Result.ok (d, router)) app e =
        registered-Counted d (acquire_slot d.backend_id app.world.registry)
          (record app { router = router }) e
          (add_slots-in_flight (pos 1) h d.backend_id app.world.registry k e)

    decide-Counted :
        (r : ChatRequest) (x : Outcome (List (RoutingCandidate F))) (app : App F)
        → Holds k app
        → Counted k (decide score r (x, app))
    unfolding decide
    decide-Counted r out_of_fuel app e = e
    decide-Counted r (failed x) app e = e
    decide-Counted r (done cs) app e =
        acquired-Counted (select_backend score r.asked cs r.session_id app.router) app e

  tagged-Counted :
      (k : ℤ) (b : Bool) (x : Outcome (RoutingDecision F)) (app : App F)
      → Counted k (x, app)
      → CountedTagged k (tagged b (x, app))
  tagged-Counted k b (done d) app c = c
  tagged-Counted k b (failed e) app c = c
  tagged-Counted k b out_of_fuel app c = c

  module _ (score : Score F) (load : ℤ → ℕ → F) (others : ℕ → App F → Await F) (waits : Waits)
      (token : Option String) (r : ChatRequest) (k : ℤ)
      (keeps : (n : ℕ) (app : App F) → Holds k app → Holds k (awaited (others n app))) where
    place_on-Counted :
        (started fuel : ℕ) (capable : List HostInfo) (usable : Result (List HostInfo)) (app : App F)
        → Holds k app
        → CountedTagged k (place_on score load others waits token r started fuel capable usable app)
    unfolding place_on
    place_on-Counted started fuel capable (raised x) app e = e
    place_on-Counted started fuel capable (ok usable) app e =
        let failover_in_play =
          any (λ g. not (is_healthy g.host_id started app.world.monitor)) usable in
        let (candidates, book) = current_candidates load token capable app.world in
        let found =
          find_candidates load others waits token r started capable failover_in_play fuel 1
            candidates (with_book book app) in
        let decided = decide score r found in
        tagged-Counted k failover_in_play decided.0 decided.1 (
          decide-Counted score k r found.0 found.1 (
            find_candidates-Holds load others waits token r started capable failover_in_play k keeps
              fuel 1 candidates (with_book book app) e))

    place_pinned-Counted :
        (started fuel : ℕ) (capable : List HostInfo) (blocked : Bool)
        (pinned : Result (Option NodeLease)) (book : NodeLeaseBook) (app : App F)
        → Holds k app
        → CountedTagged k (
            place_pinned score load others waits token r started fuel capable blocked
              (pinned, book)
              app)
    unfolding place_pinned
    place_pinned-Counted started fuel capable blocked (raised x) book app e = e
    place_pinned-Counted started fuel capable blocked (ok pinned) book app e =
        let (usable, left) = usable_hosts r.model pinned capable blocked app.world.lease_now book in
        place_on-Counted started fuel capable usable (with_book left app) e

    place_listed-Counted :
        (started fuel : ℕ) (capable : List HostInfo) (blocked : Bool) (x : Await F)
        → Holds k (awaited x)
        → CountedTagged k
            (place_listed score load others waits token r started fuel capable blocked x)
    unfolding place_listed
    place_listed-Counted started fuel capable blocked (stopped app) e = e
    place_listed-Counted started fuel capable blocked (resumed app) e =
        let (pinned, book) = require_token token app.world.lease_now app.world.book in
        place_pinned-Counted started fuel capable blocked pinned book app e

    place_required-Counted :
        (listing : HostInfo → Listing) (fuel : ℕ) (pinned : Result (Option NodeLease)) (app : App F)
        → Holds k app
        → CountedTagged k (place_required score load listing others waits token r fuel pinned app)
    unfolding place_required
    place_required-Counted listing fuel (raised x) app e = e
    place_required-Counted listing fuel (ok pinned) app e =
        let (capable, blocked) = model_capable_hosts listing r.model (hosts app.world.registry) in
        place_listed-Counted app.world.now fuel capable blocked (others 0 app) (keeps 0 app e)

    pub place-Counted :
        (listing : HostInfo → Listing) (fuel : ℕ) (app : App F)
        → Holds k app
        → CountedTagged k (place score load listing others waits token r fuel app)
    unfolding place
    place-Counted listing fuel app e =
        let (pinned, book) = require_token token app.world.lease_now app.world.book in
        place_required-Counted listing fuel pinned (with_book book app) e
