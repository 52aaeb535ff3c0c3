-- ===== src/Routing/Examples.antt =====
-- The choice of a backend among three, one of them too small, with scores in the natural numbers.
use llm_home_lab.Base.{
  ℕ, ◌+◌, ◌≤◌, ◌≡◌, ◌⊎◌, true, none, some, List, [], ◌∷◌, leb, filter, arith, In,
}
use llm_home_lab.Routing.{
  Score, RoutingCandidate, PolicyRule, Request, RoutingEngine, RoutingDecision, ok,
  no_available_backend, estimate_token_budget, sticky_of, select_backend,
}
use llm_home_lab.Routing.Choice.{Best, select_backend-IsBest}

leb_trans : (a b c : ℕ) → leb a b ≡ true → leb b c ≡ true → leb a c ≡ true
leb_trans a b c h k = ground arith

leb_total : (a b : ℕ) → (leb a b ≡ true) ⊎ (leb b a ≡ true)
leb_total a b = ground arith

abbrev score : Score ℕ
score = record {
  zero_score = 0;
  plus = λ a b. a + b;
  le = leb;
  le_trans = leb_trans;
  le_total = leb_total;
}

abbrev fast : PolicyRule ℕ
fast = record { name = "latency"; score_fn = λ c context. c.latency_ms; task_type = none }

abbrev candidates : List (RoutingCandidate ℕ)
candidates =
    record { backend_id = "a"; latency_ms = 9; context_window = 0 }
    ∷ record { backend_id = "b"; latency_ms = 5; context_window = 8 }
    ∷ record { backend_id = "c"; latency_ms = 5; context_window = 8 }
    ∷ []

abbrev request : Request
request = record { messages = record { role = "user"; content = "hello" } ∷ []; task_type = none }

abbrev engine : RoutingEngine ℕ
engine = record { rules = fast ∷ []; sticky_sessions_enabled = true; sticky_assignments = [] }

select_backend-IsBest_example :
    let budget = estimate_token_budget request in
    ((select_backend score request candidates none engine ≡ no_available_backend budget)
      × (filter (λ c. leb budget c.context_window) candidates ≡ []))
    ⊎ ((r : RoutingDecision ℕ × RoutingEngine ℕ) × (select_backend score request candidates none
            engine
          ≡ ok r)
        × ((d : RoutingCandidate ℕ) × In d candidates
            × (d.backend_id ≡ r.0.backend_id)
            × (budget ≤ d.context_window))
        × ((sticky_of score none engine ≡ some r.0.backend_id)
            ⊎ ((w : RoutingCandidate ℕ) × (w.backend_id ≡ r.0.backend_id)
                × Best score r.0.scores (filter (λ c. leb budget c.context_window) candidates) w)))
select_backend-IsBest_example = select_backend-IsBest score request candidates none engine
