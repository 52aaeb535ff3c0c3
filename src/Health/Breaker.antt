-- ===== src/Health/Breaker.antt =====
-- One backend's breaker: its invariant, when it trips, when it recovers, and that backends do not
-- disturb one another.
use llm_home_lab.Base.{
  ℕ, ◌+◌, ◌≤◌, ◌<◌, String, ◌≡◌, ◌≢◌, refl, ap, ◌∙◌, Bool, true, false, none, some, List, [], ◌∷◌,
  arith, eq_iff, ◌==◌, string_eq, ltb, leb, if◌then◌else◌, length, length-append, All, All-map,
  Bool-cases, inl, inr,
}
use llm_home_lab.Dict.{lookup-insert}
use llm_home_lab.Health.{
  HealthMonitor, Config, BackendHealthState, ProbeResult, Probe, history_max, push_history, cooled,
  probe_state, state_of, record_probe, run,
}

-- What holds of a backend's state under the thresholds of its monitor.
pub record IsConsistent (c : Config) (s : BackendHealthState) : Type 0 where
  pub below_failures : s.is_healthy ≡ true → s.consecutive_failures < c.failure_threshold
  pub at_failures : s.is_healthy ≡ false → s.consecutive_failures ≡ c.failure_threshold
  pub not_since : s.is_healthy ≡ true → s.unhealthy_since ≡ none
  pub since : s.is_healthy ≡ false → s.unhealthy_since ≢ none
  pub below_successes : s.consecutive_successes < c.recovery_threshold
  pub bounded : length s.history ≤ history_max

push_history-bounded :
    (xs : List Bool) (b : Bool) → length xs ≤ history_max → length (push_history xs b) ≤ history_max
unfolding push_history
push_history-bounded [] b h = omega arith
push_history-bounded (x ∷ xs) b h = ground (arith, length-append {0} xs (b ∷ []))

-- With positive thresholds every probe keeps this of a backend: while it is healthy, its failures in a
-- row are fewer than the failure threshold and no time of failure is set; while it is unhealthy, they are
-- just the threshold and the time is set; its successes are fewer than the recovery threshold; and its
-- history is no longer than its bound.
pub probe_state-IsConsistent :
    (c : Config) (s : BackendHealthState) (healthy : Bool) (at : ℕ)
    → 0 < c.failure_threshold
    → 0 < c.recovery_threshold
    → IsConsistent c s
    → IsConsistent c (probe_state c s healthy at).state
unfolding probe_state cooled
probe_state-IsConsistent c s healthy at pf pr h =
    let room = push_history-bounded s.history healthy h.bounded in ground (arith, room)

-- The probes of one backend, in order.
abbrev pub probes : Config → BackendHealthState → List ProbeResult → BackendHealthState
probes c s [] = s
probes c s (r ∷ rs) = probes c (probe_state c s r.healthy r.at).state rs

abbrev pub of_backend : String → List Probe → List ProbeResult
of_backend b [] = []
of_backend b (p ∷ ps) = if p.backend_id == b then p.result ∷ of_backend b ps else of_backend b ps

state_of-record_probe :
    (b a : String) (healthy : Bool) (at : ℕ) (m : HealthMonitor)
    → state_of b (record_probe a healthy at m)
      ≡ (if a == b then (probe_state m.config (state_of b m) healthy at).state else state_of b m)
unfolding record_probe state_of
state_of-record_probe b a healthy at m = ground (
  arith,
  eq_iff a b,
  lookup-insert a b (probe_state m.config (state_of a m) healthy at).state m.states,
)

-- The state of a backend after any probes is that after its own probes alone.
pub state_of-run :
    (b : String) (ps : List Probe) (m : HealthMonitor)
    → state_of b (run ps m) ≡ probes m.config (state_of b m) (of_backend b ps)
unfolding run record_probe
state_of-run b [] m = refl
state_of-run b (p ∷ ps) m =
    state_of-run b ps (record_probe p.backend_id p.result.healthy p.result.at m)
    ∙ ap (λ s. probes m.config s (of_backend b ps))
        (state_of-record_probe b p.backend_id p.result.healthy p.result.at m)
    ∙ elim (Bool-cases (p.backend_id == b)) [ inl own ↦ rw own | inr other ↦ rw other ]

probes_down :
    (c : Config) (s : BackendHealthState) (rs : List ProbeResult)
    → s.is_healthy ≡ false
    → All (λ r. r.healthy ≡ false) rs
    → (probes c s rs).is_healthy ≡ false
probes_down c s [] down bad = down
probes_down c s (r ∷ rs) down bad =
    probes_down c (probe_state c s r.healthy r.at).state rs (unfold probe_state in ground arith)
      bad.1

probes_up :
    (c : Config) (s : BackendHealthState) (rs : List ProbeResult)
    → s.is_healthy ≡ true
    → All (λ r. r.healthy ≡ true) rs
    → (probes c s rs).is_healthy ≡ true
probes_up c s [] up good = up
probes_up c s (r ∷ rs) up good =
    probes_up c (probe_state c s r.healthy r.at).state rs (unfold probe_state in ground arith)
      good.1

one_failure :
    (c : Config) (s : BackendHealthState) (healthy : Bool) (at : ℕ)
    → s.is_healthy ≡ true
    → healthy ≡ false
    → let s' = (probe_state c s healthy at).state in
      (s'.is_healthy ≡ ltb (s.consecutive_failures + 1) c.failure_threshold)
      × (s'.consecutive_failures ≡ s.consecutive_failures + 1)
unfolding probe_state
one_failure c s healthy at up bad = ground arith

-- From a healthy state with fewer failures in a row than the threshold, failing probes trip the
-- breaker exactly when the row reaches the threshold.
pub probes_fail :
    (c : Config) (s : BackendHealthState) (rs : List ProbeResult)
    → s.is_healthy ≡ true
    → s.consecutive_failures < c.failure_threshold
    → All (λ r. r.healthy ≡ false) rs
    → (probes c s rs).is_healthy ≡ ltb (s.consecutive_failures + length rs) c.failure_threshold
probes_fail c s [] up below bad = ground arith
probes_fail c s (r ∷ rs) up below bad =
    let s' = (probe_state c s r.healthy r.at).state in
    let one = one_failure c s r.healthy r.at up bad.0 in
    elim (Bool-cases (ltb (s.consecutive_failures + 1) c.failure_threshold)) [
      | inl more ↦ ground (arith, probes_fail c s' rs, one, bad.1)
      | inr tripped ↦ ground (arith, probes_down c s' rs, one, bad.1)
    ]

-- A success counts towards recovery only after the cooldown.
one_success :
    (c : Config) (s : BackendHealthState) (healthy : Bool) (at since : ℕ)
    → s.is_healthy ≡ false
    → s.unhealthy_since ≡ some since
    → since + c.cooldown ≤ at
    → healthy ≡ true
    → let s' = (probe_state c s healthy at).state in
      (s'.is_healthy ≡ leb c.recovery_threshold (s.consecutive_successes + 1))
      × (leb c.recovery_threshold (s.consecutive_successes + 1) ≡ false
          → (s'.unhealthy_since ≡ some since)
            × (s'.consecutive_successes ≡ s.consecutive_successes + 1))
unfolding probe_state cooled
one_success c s healthy at since down e late good = ground arith

-- From an unhealthy state, successful probes after the cooldown bring the backend back exactly when
-- their number reaches the recovery threshold.
pub probes_succeed :
    (c : Config) (s : BackendHealthState) (since : ℕ) (rs : List ProbeResult)
    → s.is_healthy ≡ false
    → s.unhealthy_since ≡ some since
    → s.consecutive_successes < c.recovery_threshold
    → All (λ r. (r.healthy ≡ true) × (since + c.cooldown ≤ r.at)) rs
    → (probes c s rs).is_healthy ≡ leb c.recovery_threshold (s.consecutive_successes + length rs)
probes_succeed c s since [] down e below good = ground arith
probes_succeed c s since (r ∷ rs) down e below good =
    let s' = (probe_state c s r.healthy r.at).state in
    let one = one_success c s r.healthy r.at since down e good.0.1 good.0.0 in
    elim (Bool-cases (leb c.recovery_threshold (s.consecutive_successes + 1))) [
      | inl back ↦ ground (
        arith,
        probes_up c s' rs,
        one,
        All-map (λ (q : ProbeResult). (q.healthy ≡ true) × (since + c.cooldown ≤ q.at))
            (λ (q : ProbeResult). q.healthy ≡ true) rs (λ q h. h.0) good.1,
      )
      | inr more ↦ ground (arith, probes_succeed c s' since rs, one, good.1)
    ]

-- A probe brings an unhealthy backend back only if it succeeds, at the cooldown's end or later,
-- counted from `unhealthy_since`, and completes the row of successes.
pub recovery_needs :
    (c : Config) (s : BackendHealthState) (healthy : Bool) (at : ℕ)
    → s.is_healthy ≡ false
    → (probe_state c s healthy at).state.is_healthy ≡ true
    → (healthy ≡ true)
      × (c.recovery_threshold ≤ s.consecutive_successes + 1)
      × ((since : ℕ) × (s.unhealthy_since ≡ some since) × (since + c.cooldown ≤ at))
unfolding probe_state cooled
recovery_needs c s healthy at down up = ground arith
