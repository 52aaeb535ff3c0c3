-- ===== src/Health.antt =====
-- The circuit breaker of src/llm_home_lab/health: models.py and monitor.py. Times are microseconds.
-- The log line of `_record_transition` is left out.
mod Status
mod Breaker
mod Examples
use llm_home_lab.Base.{
  ℕ, zero, suc, ◌+◌, ◌≤◌, String, ◌≡◌, Bool, true, false, not, Option, none, some, List, [], ◌∷◌,
  ◌++◌, leb, ltb, if◌then◌else◌, length, count, Equality, string_eq,
}
use llm_home_lab.Dict.{Dict, lookup, insert, member}

pub record ProbeResult : Type 0 where
  pub healthy : Bool
  pub at : ℕ

pub record FailoverEvent : Type 0 where
  pub backend_id : String
  pub from_healthy : Bool
  pub to_healthy : Bool
  pub at : ℕ

-- `deque(maxlen=20)`
abbrev pub history_max : ℕ
history_max = 20

pub record BackendHealthState : Type 0 where
  pub is_healthy : Bool
  pub consecutive_failures : ℕ
  pub consecutive_successes : ℕ
  pub unhealthy_since : Option ℕ
  pub history : List Bool

-- `BackendHealthState()`
abbrev pub new_state : BackendHealthState
new_state = record {
  is_healthy = true;
  consecutive_failures = 0;
  consecutive_successes = 0;
  unhealthy_since = none;
  history = [];
}

-- `deque.append` at a maximal length: the oldest item makes room.
unfoldable pub push_history : List Bool → Bool → List Bool
push_history [] healthy = healthy ∷ []
push_history (x ∷ xs) healthy =
    if ltb (length (x ∷ xs)) history_max then (x ∷ xs) ++ healthy ∷ [] else xs ++ healthy ∷ []

-- The arguments of `HealthMonitor.__init__`.
pub record Config : Type 0 where
  pub failure_threshold : ℕ
  pub recovery_threshold : ℕ
  pub cooldown : ℕ

pub record HealthMonitor : Type 0 where
  pub config : Config
  pub open config use *
  pub states : Dict String BackendHealthState
  pub events : List FailoverEvent

-- `HealthMonitor(...)`
unfoldable pub init : Config → HealthMonitor
init config = record { config = config; states = []; events = [] }

-- `self._states.get(backend_id, BackendHealthState())`
unfoldable pub state_of : String → HealthMonitor → BackendHealthState
state_of backend_id m = elim (lookup backend_id m.states) [ none ↦ new_state | some s ↦ s ]

unfoldable pub is_healthy : String → ℕ → HealthMonitor → Bool
unfolding state_of
is_healthy backend_id at m = (state_of backend_id m).is_healthy

unfoldable pub has_probe_history : String → HealthMonitor → Bool
has_probe_history backend_id m = member backend_id m.states

-- A quotient of two counts, the value of a float division.
pub record Ratio : Type 0 where
  pub num : ℕ
  pub den : ℕ

ratio_of : List Bool → Ratio
ratio_of [] = record { num = 1; den = 1 }
ratio_of (x ∷ xs) = record { num = count (λ b. b) (x ∷ xs); den = length (x ∷ xs) }

pub health_score : String → HealthMonitor → Ratio
unfolding ratio_of
health_score backend_id m = elim (lookup backend_id m.states) [
  | none ↦ record { num = 1; den = 1 }
  | some s ↦ ratio_of s.history
]

unfoldable pub failure_count : String → HealthMonitor → ℕ
failure_count backend_id m = elim (lookup backend_id m.states) [
  | none ↦ 0
  | some s ↦ count not s.history
]

-- What a probe does to its backend: the state object as the method leaves it, and the transition
-- `(from_healthy, to_healthy)` that it records.
pub record Outcome : Type 0 where
  pub state : BackendHealthState
  pub transition : Option (Bool × Bool)

-- `at < unhealthy_since + self._cooldown` fails, with `unhealthy_since` set.
unfoldable pub cooled : Option ℕ → ℕ → ℕ → Bool
cooled none cooldown at = false
cooled (some since) cooldown at = leb (since + cooldown) at

unfoldable pub update_unhealthy_state : Config → BackendHealthState → Bool → ℕ → Outcome
update_unhealthy_state c s healthy at =
    if not healthy
    then record {
      state = record s { consecutive_successes = 0; unhealthy_since = some at };
      transition = none;
    }
    else if not (cooled s.unhealthy_since c.cooldown at)
    then record { state = s; transition = none }
    else if leb c.recovery_threshold (s.consecutive_successes + 1)
    then record {
      state = record s {
        is_healthy = true;
        consecutive_failures = 0;
        consecutive_successes = 0;
        unhealthy_since = none;
      };
      transition = some (false, true);
    }
    else record {
      state = record s { consecutive_successes = s.consecutive_successes + 1 };
      transition = none;
    }

unfoldable pub update_healthy_state : Config → BackendHealthState → Bool → ℕ → Outcome
update_healthy_state c s healthy at =
    if healthy
    then record { state = record s { consecutive_failures = 0 }; transition = none }
    else if leb c.failure_threshold (s.consecutive_failures + 1)
    then record {
      state = record s {
        is_healthy = false;
        consecutive_failures = s.consecutive_failures + 1;
        consecutive_successes = 0;
        unhealthy_since = some at;
      };
      transition = some (true, false);
    }
    else record {
      state = record s { consecutive_failures = s.consecutive_failures + 1 };
      transition = none;
    }

-- `state.history.append(healthy)`, and the branch on `state.is_healthy`.
unfoldable pub probe_state : Config → BackendHealthState → Bool → ℕ → Outcome
unfolding update_unhealthy_state update_healthy_state
probe_state c old healthy at =
    let s : BackendHealthState = record old { history = push_history old.history healthy } in
    if not s.is_healthy
    then update_unhealthy_state c s healthy at
    else update_healthy_state c s healthy at

unfoldable pub record_transition :
    String → Option (Bool × Bool) → ℕ → List FailoverEvent → List FailoverEvent
record_transition backend_id none at events = events
record_transition backend_id (some (from_healthy, to_healthy)) at events =
    events
    ++ record {
      backend_id = backend_id;
      from_healthy = from_healthy;
      to_healthy = to_healthy;
      at = at;
    }
      ∷ []

-- The state object is shared with the dictionary, so what is assigned to it is written there.
unfoldable pub record_probe : String → Bool → ℕ → HealthMonitor → HealthMonitor
unfolding record_transition
record_probe backend_id healthy at m =
    let done = probe_state m.config (state_of backend_id m) healthy at in
    record m {
      states = insert backend_id done.state m.states;
      events = record_transition backend_id done.transition at m.events;
    }

-- One probe of one backend, and a history of them.
pub record Probe : Type 0 where
  pub backend_id : String
  pub result : ProbeResult

pub run : List Probe → HealthMonitor → HealthMonitor
run [] m = m
run (p ∷ ps) m = run ps (record_probe p.backend_id p.result.healthy p.result.at m)
