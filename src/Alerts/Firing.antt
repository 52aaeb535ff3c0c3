-- ===== src/Alerts/Firing.antt =====
-- The active events are those of the keys that fire, and no evaluation raises an error.
use llm_home_lab.Base.{
  ℕ, String, ◌≡◌, refl, ◌∙◌, Bool, true, false, inl, inr, Option, none, some, List, [], ◌∷◌, arith,
  string_eq, eq_iff, Bool-cases, any, ◌||◌,
}
use llm_home_lab.Base.Text.{append_text}
use llm_home_lab.Dict.{Dict, insert, remove, member, lookup-insert, lookup-remove}
use llm_home_lab.Alerts.{
  Metric, single, keyed, absent, is_absent, type_error, key_error, firing, resolved, AlertRule,
  AlertEvent, AlertEvaluator, Result, ok, breaches, was_firing, event_of, evaluate_one, add_event,
  evaluate_keys, evaluate_rule, evaluate,
}

-- A key has an active event exactly while it fires.
abbrev pub IsValid : {F : Type 0} → AlertEvaluator F → Type 0
IsValid e = (k : String) → member k e.active_events ≡ was_firing k e

-- Without an absent metric an evaluation returns, with one it raises TypeError; either way the
-- evaluator that it leaves is valid.
abbrev pub Ends : {F : Type 0} → Bool → Result F (List (AlertEvent F) × AlertEvaluator F) → Type 0
Ends {F} false o = (s : List (AlertEvent F) × AlertEvaluator F) × (o ≡ ok s) × IsValid (s.1)
Ends {F} true o = (e : AlertEvaluator F) × (o ≡ type_error e) × IsValid e

module _ {S F : Type 0} (greater less : F → F → Bool) where
  evaluate_one-IsValid :
      (rule : AlertRule S F) (k : String) (value : F) (at : ℕ) (e : AlertEvaluator F)
      → IsValid e
      → (r : Option (AlertEvent F) × AlertEvaluator F) × (evaluate_one greater less rule k value at
            e
          ≡ ok r)
        × IsValid (r.1)
        × (was_firing k (r.1) ≡ breaches greater less rule value)
  unfolding evaluate_one member
  evaluate_one-IsValid rule k value at e v =
      let fired = event_of greater less rule k value at firing in
      let ended = event_of greater less rule k value at resolved in
      elim (Bool-cases (breaches greater less rule value)) [
        | inl over ↦ elim (Bool-cases (was_firing k e)) [
          | inl was ↦ (
            (none, record e { firing_keys = insert k true e.firing_keys }),
            rw (evaluate_one, over, was) refl,
            (λ j. ground (arith, v j, was, eq_iff k j, lookup-insert k j true e.firing_keys)),
            ground (arith, over, eq_iff k k, lookup-insert k k true e.firing_keys),
          )
          | inr not_yet ↦ (
            (
              some fired,
              record {
                firing_keys = insert k true e.firing_keys;
                active_events = insert k fired e.active_events;
              },
            ),
            rw (evaluate_one, over, not_yet) refl,
            (λ j. ground (
              arith,
              v j,
              eq_iff k j,
              lookup-insert k j true e.firing_keys,
              lookup-insert k j fired e.active_events,
            )),
            ground (arith, over, eq_iff k k, lookup-insert k k true e.firing_keys),
          )
        ]
        | inr under ↦ elim (Bool-cases (was_firing k e)) [
          | inl was ↦ (
            (
              some ended,
              record {
                firing_keys = insert k false e.firing_keys;
                active_events = remove k e.active_events;
              },
            ),
            rw (evaluate_one, under, was, v k ∙ was) refl,
            (λ j. ground (
              arith,
              v j,
              eq_iff k j,
              lookup-insert k j false e.firing_keys,
              lookup-remove k j e.active_events,
            )),
            ground (arith, under, eq_iff k k, lookup-insert k k false e.firing_keys),
          )
          | inr not_yet ↦ (
            (none, record e { firing_keys = insert k false e.firing_keys }),
            rw (evaluate_one, under, not_yet) refl,
            (λ j. ground (arith, v j, not_yet, eq_iff k j, lookup-insert k j false e.firing_keys)),
            ground (arith, under, eq_iff k k, lookup-insert k k false e.firing_keys),
          )
        ]
      ]

  evaluate_keys-IsValid :
      (rule : AlertRule S F) (d : Dict String F) (at : ℕ) (events : List (AlertEvent F))
      (e : AlertEvaluator F)
      → IsValid e
      → Ends false (evaluate_keys greater less rule d at (events, e))
  unfolding evaluate_keys
  evaluate_keys-IsValid rule [] at events e v = ((events, e), refl, v)
  evaluate_keys-IsValid rule ((key, value) ∷ d) at events e v =
      let (r, same, valid, fires) =
        evaluate_one-IsValid rule (append_text rule.name (append_text ":" key)) value at e v in
      let (s, done, after) = evaluate_keys-IsValid rule d at (add_event (r.0) events) (r.1) valid in
      (s, rw (evaluate_keys, same) done, after)

  evaluate_rule-IsValid :
      (rule : AlertRule S F) (m : Metric F) (at : ℕ) (events : List (AlertEvent F))
      (e : AlertEvaluator F)
      → IsValid e
      → Ends (is_absent m) (evaluate_rule greater less rule m at (events, e))
  unfolding evaluate_rule
  evaluate_rule-IsValid rule (keyed d) at events e v = evaluate_keys-IsValid rule d at events e v
  evaluate_rule-IsValid rule (single value) at events e v =
      let (r, same, valid, fires) = evaluate_one-IsValid rule rule.name value at e v in
      ((add_event (r.0) events, r.1), rw (evaluate_rule, same) refl, valid)
  evaluate_rule-IsValid rule absent at events e v = (e, refl, v)

  -- Whether a rule reads a metric without a value.
  abbrev pub reads_absent : List (AlertRule S F) → S → Bool
  reads_absent rules snapshot =
      any (λ (rule : AlertRule S F). is_absent (rule.metric snapshot)) rules

  evaluate_next :
      (rule : AlertRule S F) (rules : List (AlertRule S F)) (snapshot : S) (at : ℕ) (b : Bool)
      (o : Result F (List (AlertEvent F) × AlertEvaluator F))
      → Ends b o
      → ((s : List (AlertEvent F) × AlertEvaluator F)
          → IsValid s.1
          → Ends (reads_absent rules snapshot) (evaluate greater less rules snapshot at s))
      → Ends (b || reads_absent rules snapshot) (elim o [
        | key_error k ↦ key_error k
        | type_error e ↦ type_error e
        | ok r ↦ evaluate greater less rules snapshot at r
      ])
  evaluate_next rule rules snapshot at false o (s, same, valid) rest = rw same (rest s valid)
  evaluate_next rule rules snapshot at true o (e, same, valid) rest = (e, rw same refl, valid)

  evaluate_valid :
      (rules : List (AlertRule S F)) (snapshot : S) (at : ℕ)
      (s : List (AlertEvent F) × AlertEvaluator F)
      → IsValid s.1
      → Ends (reads_absent rules snapshot) (evaluate greater less rules snapshot at s)
  unfolding evaluate any
  evaluate_valid [] snapshot at s v = (s, refl, v)
  evaluate_valid (rule ∷ rules) snapshot at (events, e) v =
      evaluate_next rule rules snapshot at (is_absent (rule.metric snapshot)) _
        (evaluate_rule-IsValid rule (rule.metric snapshot) at events e v)
        (λ s valid. evaluate_valid rules snapshot at s valid)

  -- From a state in which a key has an active event exactly while it fires, an evaluation of rules on a
  -- snapshot never raises KeyError: it returns if every rule reads a metric with a value, and raises
  -- TypeError, its events lost, if some rule reads a metric that is None; either way it leaves such a
  -- state.
  pub evaluate-IsValid :
      (rules : List (AlertRule S F)) (snapshot : S) (at : ℕ) (e : AlertEvaluator F)
      → IsValid e
      → Ends (reads_absent rules snapshot) (evaluate greater less rules snapshot at ([], e))
  evaluate-IsValid rules snapshot at e v = evaluate_valid rules snapshot at ([], e) v
