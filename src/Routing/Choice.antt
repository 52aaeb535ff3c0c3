-- ===== src/Routing/Choice.antt =====
-- The chosen backend is eligible and, without a sticky one, the best.
use llm_home_lab.Base.{
  ◌≤◌, String, ◌≡◌, refl, sym, subst, true, false, ◌⊎◌, inl, inr, Option, none, some, List, [], ◌∷◌,
  arith, eq_iff, leb, ◌==◌, string_eq, filter, All, All-map, In, In-filter, Bool-cases,
  Option-cases, List-cases,
}
use llm_home_lab.Base.Text.{str_le, str_le_refl, str_le_trans, str_le_total}
use llm_home_lab.Dict.{Dict, lookup, insert, member, lookup-insert}
use llm_home_lab.Routing.{
  Score, RoutingCandidate, RoutingContext, PolicyRule, RoutingDecision, ok, no_available_backend,
  Request, RoutingEngine, estimate_token_budget, total_of, score_candidates, match_candidates,
  score_of, before, min_by, sticky_of, assign, kept_backend, choose, select_backend,
}

module _ {F : Type 0} (score : Score F) where
  -- Who has a score is among the candidates.
  scored-In :
      (rules : List (PolicyRule F)) (context : RoutingContext) (cs : List (RoutingCandidate F))
      (scores : Dict String F) (id : String)
      → member id (score_candidates score rules context cs scores) ≡ true
      → (member id scores ≡ true) ⊎ ((c : RoutingCandidate F) × In c cs × (c.backend_id ≡ id))
  unfolding score_candidates member
  scored-In rules context [] scores id h = inl h
  scored-In rules context (c ∷ cs) scores id h =
      elim (scored-In rules context cs
        (insert c.backend_id (total_of score rules context c score.zero_score) scores) id h) [
          | inr (d, there, same) ↦ inr (d, inr there, same)
          | inl here ↦ elim (Bool-cases (c.backend_id == id)) [
            | inl own ↦ inr (c, inl refl, (eq_iff c.backend_id id).0 own)
            | inr other ↦ inl (
                ground (
                  arith,
                  lookup-insert c.backend_id id (total_of score rules context c score.zero_score)
                      scores,
                ))
          ]
        ]

  -- No candidate comes strictly before a least one.
  before_trans :
      (scores : Dict String F) (a b c : RoutingCandidate F)
      → before score scores a b ≡ false
      → before score scores b c ≡ false
      → before score scores a c ≡ false
  unfolding before
  before_trans scores a b c h k =
      let sa = score_of score scores a.backend_id in
      let sb = score_of score scores b.backend_id in
      let sc = score_of score scores c.backend_id in
      ground (
        arith,
        score.le_trans sa sb sc,
        score.le_trans sc sb sa,
        score.le_trans sb sc sa,
        score.le_trans sb sa sc,
        score.le_trans sa sc sb,
        score.le_trans sc sa sb,
        score.le_total sa sb,
        score.le_total sb sc,
        score.le_total sa sc,
        str_le_trans c.backend_id b.backend_id a.backend_id,
      )

  before_refl : (scores : Dict String F) (a : RoutingCandidate F) → before score scores a a ≡ false
  unfolding before
  before_refl scores a = ground (
    arith,
    str_le_refl a.backend_id,
    score.le_total (score_of score scores a.backend_id) (score_of score scores a.backend_id),
  )

  before_total :
      (scores : Dict String F) (a b : RoutingCandidate F)
      → before score scores a b ≡ true
      → before score scores b a ≡ false
  unfolding before
  before_total scores a b h =
      let sa = score_of score scores a.backend_id in
      let sb = score_of score scores b.backend_id in
      ground (arith, str_le_total b.backend_id a.backend_id, score.le_total sa sb)

  -- A candidate that no other comes strictly before.
  abbrev pub Least : Dict String F → List (RoutingCandidate F) → RoutingCandidate F → Type 0
  Least scores cs w = In w cs × All (λ d. before score scores d w ≡ false) cs

  min_by_lem :
      (scores : Dict String F) (c : RoutingCandidate F) (cs : List (RoutingCandidate F))
      → Least scores (c ∷ cs) (min_by score scores c cs)
  unfolding min_by
  min_by_lem scores c [] = (inl refl, (before_refl scores c, tt))
  min_by_lem scores c (d ∷ ds) = elim (Bool-cases (before score scores d c)) [
    | inl sooner ↦
        let (there, (least, all)) = min_by_lem scores d ds in
        let same : min_by score scores c (d ∷ ds) ≡ min_by score scores d ds =
          rw (min_by, sooner) refl in
        subst (λ w. Least scores (c ∷ d ∷ ds) w) (sym same)
          (
            inr there,
            (
              before_trans scores c d (min_by score scores d ds) (before_total scores d c sooner)
                  least,
              (least, all),
            ),
          )
    | inr later ↦
        let (there, (least, all)) = min_by_lem scores c ds in
        let same : min_by score scores c (d ∷ ds) ≡ min_by score scores c ds =
          rw (min_by, later) refl in
        subst (λ w. Least scores (c ∷ d ∷ ds) w) (sym same)
          (
            elim there [ inl e ↦ inl e | inr t ↦ inr (inr t) ],
            (least, (before_trans scores d c (min_by score scores c ds) later least, all)),
          )
  ]

  kept_backend-member :
      (sticky : Option String) (scores : Dict String F) (id : String)
      → kept_backend score sticky scores ≡ some id
      → (sticky ≡ some id) × (member id scores ≡ true)
  unfolding kept_backend
  kept_backend-member none scores id h = absurd (cc)
  kept_backend-member (some s) scores id h = ground arith

  abbrev Chosen :
      Option String
      → RoutingCandidate F
      → List (RoutingCandidate F)
      → RoutingEngine F
      → RoutingDecision F × RoutingEngine F
      → Type 0
  Chosen session_id c cs g r =
      ((d : RoutingCandidate F) × In d (c ∷ cs) × (d.backend_id ≡ r.0.backend_id))
      × ((sticky_of score session_id g ≡ some r.0.backend_id)
          ⊎ ((w : RoutingCandidate F) × (w.backend_id ≡ r.0.backend_id)
              × Least r.0.scores (c ∷ cs) w))

  abbrev decided :
      List (PolicyRule F) → RoutingContext → List (RoutingCandidate F) → String → RoutingDecision F
  decided rules context cs id = record {
    backend_id = id;
    scores = score_candidates score rules context cs [];
    matched_rules = match_candidates score rules context cs [];
  }

  choose_lem :
      (session_id : Option String) (context : RoutingContext) (c : RoutingCandidate F)
      (cs : List (RoutingCandidate F)) (g : RoutingEngine F)
      → Chosen session_id c cs g (choose score session_id context c cs g)
  unfolding choose lookup member
  choose_lem session_id context c cs g =
      let scores = score_candidates score g.rules context (c ∷ cs) [] in
      elim (Option-cases (kept_backend score (sticky_of score session_id g) scores)) [
        | inl free ↦
            let (there, least) = min_by_lem scores c cs in
            let winner = min_by score scores c cs in
            let same : choose score session_id context c cs g ≡ (
              decided g.rules context (c ∷ cs) winner.backend_id,
              assign score session_id winner.backend_id g,
            ) =
              rw (choose, free) refl in
            subst (λ r. Chosen session_id c cs g r) (sym same)
              ((winner, there, refl), inr (winner, refl, (there, least)))
        | inr (id, kept) ↦
            let (sticky, has) = kept_backend-member (sticky_of score session_id g) scores id kept in
            let same : choose score session_id context c cs g
                ≡ (decided g.rules context (c ∷ cs) id, g) =
              rw (choose, kept) refl in
            subst (λ r. Chosen session_id c cs g r) (sym same)
              (
                elim (scored-In g.rules context (c ∷ cs) [] id has) [
                  | inl e ↦ absurd (cc)
                  | inr found ↦ found
                ],
                inl sticky,
              )
      ]

  -- The candidate has the highest score, and the first id among those that have it.
  abbrev pub Best : Dict String F → List (RoutingCandidate F) → RoutingCandidate F → Type 0
  Best scores cs w =
      In w cs
      × All
          (λ d.
            (score.le (score_of score scores d.backend_id) (score_of score scores w.backend_id)
              ≡ true)
            × ((score.le (score_of score scores w.backend_id) (score_of score scores d.backend_id)
                  ≡ false)
                ⊎ (str_le w.backend_id d.backend_id ≡ true)))
          cs

  Least-Best :
      (scores : Dict String F) (cs : List (RoutingCandidate F)) (w : RoutingCandidate F)
      → Least scores cs w
      → Best scores cs w
  unfolding before
  Least-Best scores cs w (there, all) = (
    there,
    All-map (λ d. before score scores d w ≡ false)
        (λ d.
          (score.le (score_of score scores d.backend_id) (score_of score scores w.backend_id)
            ≡ true)
          × ((score.le (score_of score scores w.backend_id) (score_of score scores d.backend_id)
                ≡ false)
              ⊎ (str_le w.backend_id d.backend_id ≡ true)))
        cs
        (λ d h. (
          ground (
            arith,
            score.le_total (score_of score scores d.backend_id)
                (score_of score scores w.backend_id),
          ),
          ground arith,
        ))
        all,
  )

  Chosen-Best :
      (session_id : Option String) (c : RoutingCandidate F) (cs : List (RoutingCandidate F))
      (g : RoutingEngine F) (r : RoutingDecision F × RoutingEngine F)
      → Chosen session_id c cs g r
      → (sticky_of score session_id g ≡ some r.0.backend_id)
        ⊎ ((w : RoutingCandidate F) × (w.backend_id ≡ r.0.backend_id) × Best r.0.scores (c ∷ cs) w)
  Chosen-Best session_id c cs g r (found, inl sticky) = inl sticky
  Chosen-Best session_id c cs g r (found, inr (w, same, least)) =
      inr (w, same, Least-Best r.0.scores (c ∷ cs) w least)

  -- A selection fails exactly when no candidate has a window for the estimated tokens. Otherwise the
  -- backend is that of a candidate with such a window, and it is the session's sticky one or that of
  -- an eligible candidate with the highest score and the first id among those that have it.
  pub select_backend-IsBest :
      (request : Request) (candidates : List (RoutingCandidate F)) (session_id : Option String)
      (g : RoutingEngine F)
      → let budget = estimate_token_budget request in
        ((select_backend score request candidates session_id g ≡ no_available_backend budget)
          × (filter (λ c. leb budget c.context_window) candidates ≡ []))
        ⊎ ((r : RoutingDecision F × RoutingEngine F) × (select_backend score request candidates
                session_id g
              ≡ ok r)
            × ((d : RoutingCandidate F) × In d candidates
                × (d.backend_id ≡ r.0.backend_id)
                × (budget ≤ d.context_window))
            × ((sticky_of score session_id g ≡ some r.0.backend_id)
                ⊎ ((w : RoutingCandidate F) × (w.backend_id ≡ r.0.backend_id)
                    × Best r.0.scores (filter (λ c. leb budget c.context_window) candidates) w)))
  unfolding select_backend
  select_backend-IsBest request candidates session_id g =
      let budget = estimate_token_budget request in
      let context : RoutingContext = record {
        task_type = request.task_type;
        token_budget = budget;
      } in
      let eligible = λ (c : RoutingCandidate F). leb budget c.context_window in
      elim (List-cases (filter eligible candidates)) [
        | inl nobody ↦ inl (rw (select_backend, nobody) refl, nobody)
        | inr (c, cs, some_left) ↦
            let chosen = choose_lem session_id context c cs g in
            let (d, there, same) = chosen.0 in
            let (listed, fits) =
              In-filter eligible d candidates (subst (λ xs. In d xs) (sym some_left) there) in
            inr (
              choose score session_id context c cs g,
              rw (select_backend, some_left) refl,
              (d, listed, same, ground (arith, fits)),
              rw some_left
                  (Chosen-Best session_id c cs g (choose score session_id context c cs g) chosen),
            )
      ]
