-- ===== src/Alerts.antt =====
-- src/llm_home_lab/observability/alerts.py and the alert types of models.py. A snapshot `S` is read by
-- the rule's metric, which gives one value or a value for each key; values `F` are compared by two given
-- tests. A metric may have no value (None). The rules file is outside of the model.
mod Firing
mod Examples
use llm_home_lab.Base.{
  ℕ, String, ◌≡◌, Bool, true, false, not, ◌&&◌, Option, none, some, List, [], ◌∷◌, ◌++◌,
  if◌then◌else◌, ◌==◌, string_eq,
}
use llm_home_lab.Base.Text.{append_text}
use llm_home_lab.Dict.{Dict, lookup, insert, remove, member, values}

pub data Comparison : Type 0 where
  gt lt : Comparison

pub data Metric (F : Type 0) : Type 0 where
  single : F → Metric F
  keyed : Dict String F → Metric F
  absent : Metric F

abbrev pub is_absent : {F : Type 0} → Metric F → Bool
is_absent (single value) = false
is_absent (keyed d) = false
is_absent absent = true

pub data AlertState : Type 0 where
  firing resolved : AlertState

pub record AlertRule (S F : Type 0) : Type 0 where
  pub name : String
  pub metric : S → Metric F
  pub comparison : Comparison
  pub threshold_value : F
  pub severity : String
  pub runbook_url : String

pub record AlertEvent (F : Type 0) : Type 0 where
  pub rule_name : String
  pub severity : String
  pub state : AlertState
  pub value : F
  pub threshold_value : F
  pub runbook_url : String
  pub at : ℕ

pub record AlertEvaluator (F : Type 0) : Type 0 where
  pub firing_keys : Dict String Bool
  pub active_events : Dict String (AlertEvent F)

abbrev pub new_evaluator : {F : Type 0} → AlertEvaluator F
new_evaluator = record { firing_keys = []; active_events = [] }

-- `KeyError` is what `del` raises on a missing key, `TypeError` what the comparison of None raises; the
-- evaluator keeps what it was before the comparison.
pub data Result (F A : Type 0) : Type 0 where
  ok : A → Result F A
  key_error : String → Result F A
  type_error : AlertEvaluator F → Result F A

-- `setdefault(state_key, False)`
abbrev pub was_firing : {F : Type 0} → String → AlertEvaluator F → Bool
was_firing k e = elim (lookup k e.firing_keys) [ none ↦ false | some b ↦ b ]

abbrev pub add_event :
    {F : Type 0} → Option (AlertEvent F) → List (AlertEvent F) → List (AlertEvent F)
add_event none events = events
add_event (some v) events = events ++ v ∷ []

module _ {S F : Type 0} (greater less : F → F → Bool) where
  abbrev pub breaches : AlertRule S F → F → Bool
  breaches rule value = elim (rule.comparison) [
    | gt ↦ greater value rule.threshold_value
    | lt ↦ less value rule.threshold_value
  ]

  abbrev pub event_of : AlertRule S F → String → F → ℕ → AlertState → AlertEvent F
  event_of rule k value at state = record {
    rule_name = k;
    severity = rule.severity;
    state = state;
    value = value;
    threshold_value = rule.threshold_value;
    runbook_url = rule.runbook_url;
    at = at;
  }

  unfoldable pub evaluate_one :
      AlertRule S F
      → String
      → F
      → ℕ
      → AlertEvaluator F
      → Result F (Option (AlertEvent F) × AlertEvaluator F)
  evaluate_one rule k value at e =
      let breached = breaches rule value in
      let was = was_firing k e in
      let fired = event_of rule k value at firing in
      let ended = event_of rule k value at resolved in
      if breached && not was
      then ok (
        some fired,
        record {
          firing_keys = insert k true e.firing_keys;
          active_events = insert k fired e.active_events;
        },
      )
      else if not breached && was
      then (if member k e.active_events
          then ok (
            some ended,
            record {
              firing_keys = insert k false e.firing_keys;
              active_events = remove k e.active_events;
            },
          )
          else key_error k)
      else ok (none, record e { firing_keys = insert k was e.firing_keys })

  unfoldable pub evaluate_keys :
      AlertRule S F
      → Dict String F
      → ℕ
      → List (AlertEvent F) × AlertEvaluator F
      → Result F (List (AlertEvent F) × AlertEvaluator F)
  evaluate_keys rule [] at (events, e) = ok (events, e)
  evaluate_keys rule ((key, value) ∷ d) at (events, e) =
      elim (evaluate_one rule (append_text rule.name (append_text ":" key)) value at e) [
        | key_error k ↦ key_error k
        | type_error e ↦ type_error e
        | ok r ↦ evaluate_keys rule d at (add_event (r.0) events, r.1)
      ]

  unfoldable pub evaluate_rule :
      AlertRule S F
      → Metric F
      → ℕ
      → List (AlertEvent F) × AlertEvaluator F
      → Result F (List (AlertEvent F) × AlertEvaluator F)
  evaluate_rule rule (keyed d) at s = evaluate_keys rule d at s
  evaluate_rule rule (single value) at (events, e) = elim (evaluate_one rule rule.name value at e) [
    | key_error k ↦ key_error k
    | type_error e ↦ type_error e
    | ok r ↦ ok (add_event (r.0) events, r.1)
  ]
  evaluate_rule rule absent at (events, e) = type_error e

  unfoldable pub evaluate :
      List (AlertRule S F)
      → S
      → ℕ
      → List (AlertEvent F) × AlertEvaluator F
      → Result F (List (AlertEvent F) × AlertEvaluator F)
  evaluate [] snapshot at s = ok s
  evaluate (rule ∷ rules) snapshot at s = elim (evaluate_rule rule (rule.metric snapshot) at s) [
    | key_error k ↦ key_error k
    | type_error e ↦ type_error e
    | ok r ↦ evaluate rules snapshot at r
  ]

unfoldable pub current_state : {F : Type 0} → AlertEvaluator F → List (AlertEvent F)
current_state e = values e.active_events
