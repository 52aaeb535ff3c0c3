-- ===== src/Health/Examples.antt =====
-- The health theorems at a breaker of thresholds 3 and 2 with a cooldown of 30.
use llm_home_lab.Base.{
  ℕ, ◌+◌, ◌≤◌, String, ◌≡◌, refl, Bool, true, false, some, List, [], ◌∷◌, arith, string_eq,
}
use llm_home_lab.Dict.{lookup, insert}
use llm_home_lab.Health.{
  Config, BackendHealthState, ProbeResult, Probe, new_state, init, cooled, push_history, state_of,
  probe_state, run, record_probe,
}
use llm_home_lab.Health.Status.{Agrees, run-Agrees}
use llm_home_lab.Health.Breaker.{
  IsConsistent, probe_state-IsConsistent, probes, of_backend, state_of-run, probes_fail,
  probes_succeed, recovery_needs,
}

abbrev config : Config
config = record { failure_threshold = 3; recovery_threshold = 2; cooldown = 30 }

abbrev probe : String → Bool → ℕ → Probe
probe id healthy at = record { backend_id = id; result = record { healthy = healthy; at = at } }

abbrev outage : List Probe
outage = probe "a" false 1 ∷ probe "b" true 2 ∷ probe "a" false 3 ∷ probe "a" false 4 ∷ []

abbrev down : BackendHealthState
down = record {
  is_healthy = false;
  consecutive_failures = 3;
  consecutive_successes = 0;
  unhealthy_since = some 4;
  history = false ∷ false ∷ false ∷ [];
}

outage_test : state_of "a" (run outage (init config)) ≡ down
unfolding run init record_probe state_of probe_state lookup insert push_history
outage_test = refl

new_state-IsConsistent : IsConsistent config new_state
new_state-IsConsistent = record {
  below_failures = λ e. omega arith;
  at_failures = λ e. absurd (cc);
  not_since = λ e. refl;
  since = λ e. cc;
  below_successes = omega arith;
  bounded = omega arith;
}

run-Agrees_example : Agrees (run outage (init config))
run-Agrees_example = run-Agrees config outage

state_of-run_test :
    state_of "a" (run outage (init config))
    ≡ probes config (state_of "a" (init config)) (of_backend "a" outage)
unfolding init
state_of-run_test = state_of-run "a" outage (init config)

probe_state-IsConsistent_example : IsConsistent config (probe_state config new_state false 7).state
probe_state-IsConsistent_example =
    probe_state-IsConsistent config new_state false 7 (omega arith) (omega arith)
      new_state-IsConsistent

abbrev failures : List ProbeResult
failures =
    record { healthy = false; at = 1 }
    ∷ record { healthy = false; at = 2 }
    ∷ record { healthy = false; at = 3 }
    ∷ []

probes_fail_test : (probes config new_state failures).is_healthy ≡ false
probes_fail_test =
    probes_fail config new_state failures refl (omega arith) (refl, (refl, (refl, tt)))

abbrev successes : List ProbeResult
successes = record { healthy = true; at = 34 } ∷ record { healthy = true; at = 35 } ∷ []

probes_succeed_example : (probes config down successes).is_healthy ≡ true
probes_succeed_example =
    probes_succeed config down 4 successes refl refl (omega arith)
      ((refl, omega arith), ((refl, omega arith), tt))

abbrev almost : BackendHealthState
almost = record down { consecutive_successes = 1 }

recovery_needs_example :
    (true ≡ true) × (2 ≤ 1 + 1) × ((since : ℕ) × (some 4 ≡ some since) × (since + 30 ≤ 40))
unfolding probe_state cooled
recovery_needs_example = recovery_needs config almost true 40 refl refl
