-- ===== src/Alerts/Examples.antt =====
-- One rule on a snapshot that is a number, before and after it fires.
use llm_home_lab.Base.{ℕ, ◌≡◌, refl, arith, ltb, true, any, List, [], ◌∷◌, string_eq}
use llm_home_lab.Dict.{lookup, member}
use llm_home_lab.Alerts.{
  single, gt, AlertRule, AlertEvent, AlertEvaluator, firing, ok, type_error, absent, evaluate,
  evaluate_rule,
}
use llm_home_lab.Alerts.Firing.{IsValid, evaluate-IsValid}

abbrev rule : AlertRule ℕ ℕ
rule = record {
  name = "latency";
  metric = λ n. single n;
  comparison = gt;
  threshold_value = 5;
  severity = "warning";
  runbook_url = "";
}

abbrev fired : AlertEvent ℕ
fired = record {
  rule_name = "latency";
  severity = "warning";
  state = firing;
  value = 9;
  threshold_value = 5;
  runbook_url = "";
  at = 1;
}

abbrev alarmed : AlertEvaluator ℕ
alarmed = record { firing_keys = ("latency", true) ∷ []; active_events = ("latency", fired) ∷ [] }

alarmed-IsValid : IsValid alarmed
unfolding member lookup
alarmed-IsValid k = ground arith

evaluate-IsValid_example :
    (s : List (AlertEvent ℕ) × AlertEvaluator ℕ) × (evaluate
        (λ a b. ltb b a)
        ltb
        (rule ∷ [])
        3
        2
        ([], alarmed)
      ≡ ok s)
    × IsValid (s.1)
unfolding any
evaluate-IsValid_example =
    evaluate-IsValid (λ a b. ltb b a) ltb (rule ∷ []) 3 2 alarmed alarmed-IsValid

-- A rule on the success rate of failovers before there was any failover.
no_failover_yet_test :
    evaluate
      (λ a b. ltb b a)
      ltb
      (record rule { metric = λ n. absent } ∷ rule ∷ [])
      9
      2
      ([], alarmed)
    ≡ type_error alarmed
unfolding evaluate evaluate_rule
no_failover_yet_test = refl
