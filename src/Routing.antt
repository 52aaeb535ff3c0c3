-- ===== src/Routing.antt =====
-- src/llm_home_lab/routing: models.py and engine.py. The choice of a backend by rules that score the
-- candidates. Scores are of any type with a zero, a sum and a total order, as Python's floats are
-- when none of them is NaN; the rules of a policy are given by the caller.
pub mod Choice
mod Examples
use llm_home_lab.Base.{
  ℕ, ◌+◌, ◌/◌, String, ◌≡◌, Bool, true, false, not, ◌&&◌, ◌⊎◌, Option, none, some, List, [], ◌∷◌,
  ◌++◌, foldl, leb, if◌then◌else◌, ◌==◌, string_eq, filter,
}
use llm_home_lab.Base.Text.{str_le}
use llm_home_lab.Dict.{Dict, lookup, insert, member}
use llm_home_lab.Context.{Message, total_chars}

-- What the engine uses of the type of scores.
pub record Score (F : Type 0) : Type 0 where
  pub zero_score : F
  pub plus : F → F → F
  pub le : F → F → Bool
  pub le_trans : (a b c : F) → le a b ≡ true → le b c ≡ true → le a c ≡ true
  pub le_total : (a b : F) → (le a b ≡ true) ⊎ (le b a ≡ true)

pub record RoutingCandidate (F : Type 0) : Type 0 where
  pub backend_id : String
  pub latency_ms : F
  pub context_window : ℕ

pub record RoutingContext : Type 0 where
  pub task_type : Option String
  pub token_budget : ℕ

pub record PolicyRule (F : Type 0) : Type 0 where
  pub name : String
  pub score_fn : RoutingCandidate F → RoutingContext → F
  pub task_type : Option String

pub record RoutingDecision (F : Type 0) : Type 0 where
  pub backend_id : String
  pub scores : Dict String F
  pub matched_rules : Dict String (List String)

-- `NoAvailableBackendError`, with the budget of its text.
pub data Result {ℓ} (A : Type ℓ) : Type ℓ where
  ok : A → Result A
  no_available_backend : ℕ → Result A

-- The fields of the request that the engine reads.
pub record Request : Type 0 where
  pub messages : List Message
  pub task_type : Option String

pub record RoutingEngine (F : Type 0) : Type 0 where
  pub rules : List (PolicyRule F)
  pub sticky_sessions_enabled : Bool
  pub sticky_assignments : Dict String String

abbrev pub estimate_token_budget : Request → ℕ
estimate_token_budget request = (total_chars request.messages + 3) / 4

abbrev pub sticky_backend_for : {F : Type 0} → String → RoutingEngine F → Option String
sticky_backend_for session_id g = lookup session_id g.sticky_assignments

module _ {F : Type 0} (score : Score F) where
  abbrev pub applies_to : PolicyRule F → Option String → Bool
  applies_to rule task = elim (rule.task_type) [
    | none ↦ true
    | some wanted ↦ elim task [ none ↦ false | some t ↦ wanted == t ]
  ]

  -- The total of a candidate, and the names of the rules that made it.
  unfoldable pub total_of : List (PolicyRule F) → RoutingContext → RoutingCandidate F → F → F
  total_of [] context c total = total
  total_of (r ∷ rs) context c total =
      total_of rs context c
        (if applies_to r context.task_type then score.plus total (r.score_fn c context) else total)

  unfoldable pub matched_of : List (PolicyRule F) → RoutingContext → List String
  matched_of [] context = []
  matched_of (r ∷ rs) context =
      let rest = matched_of rs context in
      if applies_to r context.task_type then r.name ∷ rest else rest

  unfoldable pub score_candidates :
      List (PolicyRule F)
      → RoutingContext
      → List (RoutingCandidate F)
      → Dict String F
      → Dict String F
  score_candidates rules context [] scores = scores
  score_candidates rules context (c ∷ cs) scores =
      score_candidates rules context cs
        (insert c.backend_id (total_of rules context c score.zero_score) scores)

  unfoldable pub match_candidates :
      List (PolicyRule F)
      → RoutingContext
      → List (RoutingCandidate F)
      → Dict String (List String)
      → Dict String (List String)
  match_candidates rules context [] matched = matched
  match_candidates rules context (c ∷ cs) matched =
      match_candidates rules context cs (insert c.backend_id (matched_of rules context) matched)

  -- `scores[id]`; every eligible candidate has a score, so the default is not taken.
  abbrev pub score_of : Dict String F → String → F
  score_of scores id = elim (lookup id scores) [ none ↦ score.zero_score | some s ↦ s ]

  -- `(-scores[d], d) < (-scores[c], c)`
  unfoldable pub before : Dict String F → RoutingCandidate F → RoutingCandidate F → Bool
  before scores d c =
      let sd = score_of scores d.backend_id in
      let sc = score_of scores c.backend_id in
      if score.le sd sc && score.le sc sd
      then not (str_le c.backend_id d.backend_id)
      else not (score.le sd sc)

  -- `min(c, *cs, key=...)`: the first of the least.
  unfoldable pub min_by :
      Dict String F → RoutingCandidate F → List (RoutingCandidate F) → RoutingCandidate F
  min_by scores c [] = c
  min_by scores c (d ∷ ds) = min_by scores (if before scores d c then d else c) ds

  unfoldable pub sticky_of : Option String → RoutingEngine F → Option String
  sticky_of none g = none
  sticky_of (some session_id) g =
      if g.sticky_sessions_enabled then sticky_backend_for session_id g else none

  -- The assignment of a session that has none.
  unfoldable pub assign : Option String → String → RoutingEngine F → RoutingEngine F
  assign none winner g = g
  assign (some session_id) winner g =
      if g.sticky_sessions_enabled && not (member session_id g.sticky_assignments)
      then record g { sticky_assignments = insert session_id winner g.sticky_assignments }
      else g

  -- The sticky backend, if it is scored.
  unfoldable pub kept_backend : Option String → Dict String F → Option String
  kept_backend none scores = none
  kept_backend (some id) scores = if member id scores then some id else none

  abbrev pub eligible_for : ℕ → List (RoutingCandidate F) → List (RoutingCandidate F)
  eligible_for token_budget = filter (λ c. leb token_budget c.context_window)

  -- With the engine's rules and the eligible candidates.
  unfoldable pub choose :
      Option String
      → RoutingContext
      → RoutingCandidate F
      → List (RoutingCandidate F)
      → RoutingEngine F
      → RoutingDecision F × RoutingEngine F
  choose session_id context c cs g =
      let scores = score_candidates g.rules context (c ∷ cs) [] in
      let decision : String → RoutingDecision F = λ id. record {
        backend_id = id;
        scores = scores;
        matched_rules = match_candidates g.rules context (c ∷ cs) [];
      } in
      elim (kept_backend (sticky_of session_id g) scores) [
        | some id ↦ (decision id, g)
        | none ↦
            let winner = min_by scores c cs in
            (decision winner.backend_id, assign session_id winner.backend_id g)
      ]

  unfoldable pub select_backend :
      Request
      → List (RoutingCandidate F)
      → Option String
      → RoutingEngine F
      → Result (RoutingDecision F × RoutingEngine F)
  select_backend request candidates session_id g =
      let budget = estimate_token_budget request in
      elim (eligible_for budget candidates) [
        | [] ↦ no_available_backend budget
        | c ∷ cs ↦ ok (
            choose session_id (record { task_type = request.task_type; token_budget = budget }) c cs
              g)
      ]
