-- ===== src/Health/Status.antt =====
-- The event log tells the whole status: a backend is what its last event made it.
use llm_home_lab.Base.{
  ℕ, String, ◌≡◌, ◌⊎◌, inl, inr, refl, ap, sym, ◌∙◌, Bool, true, not, List, [], ◌∷◌, ◌++◌, arith,
  eq_iff, ◌==◌, string_eq, if◌then◌else◌, none, some,
}
use llm_home_lab.Dict.{lookup, lookup-insert}
use llm_home_lab.Health.{
  BackendHealthState, Config, HealthMonitor, FailoverEvent, Probe, init, state_of, is_healthy,
  probe_state, record_probe, run,
}

-- What the log says of a backend that was healthy before it.
abbrev pub status : String → Bool → List FailoverEvent → Bool
status b before [] = before
status b before (v ∷ vs) = status b (if v.backend_id == b then v.to_healthy else before) vs

-- Each event of a backend leaves the status that the events before it had set.
abbrev pub Alternates : String → Bool → List FailoverEvent → Type 0
Alternates b before [] = Unit {0}
Alternates b before (v ∷ vs) =
    (v.backend_id ≡ b → (v.from_healthy ≡ before) × (v.to_healthy ≡ not before))
    × Alternates b (if v.backend_id == b then v.to_healthy else before) vs

status-append :
    (b : String) (before : Bool) (vs ws : List FailoverEvent)
    → status b before (vs ++ ws) ≡ status b (status b before vs) ws
status-append b before [] ws = refl
status-append b before (v ∷ vs) ws =
    status-append b (if v.backend_id == b then v.to_healthy else before) vs ws

Alternates-append :
    (b : String) (before : Bool) (vs ws : List FailoverEvent)
    → Alternates b before vs
    → Alternates b (status b before vs) ws
    → Alternates b before (vs ++ ws)
Alternates-append b before [] ws h k = k
Alternates-append b before (v ∷ vs) ws h k =
    (h.0, Alternates-append b (if v.backend_id == b then v.to_healthy else before) vs ws h.1 k)

-- The monitor and its log agree.
pub record Agrees (m : HealthMonitor) : Type 0 where
  pub current : (b : String) (at : ℕ) → is_healthy b at m ≡ status b true m.events
  pub history : (b : String) → Alternates b true m.events

abbrev flip : String → Bool → ℕ → FailoverEvent
flip a before at = record {
  backend_id = a;
  from_healthy = before;
  to_healthy = not before;
  at = at;
}

-- The transition that a probe records is from the status before it to the opposite one.
probe_state-transition :
    (c : Config) (s : BackendHealthState) (healthy : Bool) (at : ℕ)
    → let done = probe_state c s healthy at in
      ((done.transition ≡ none) × (done.state.is_healthy ≡ s.is_healthy))
      ⊎ ((done.transition ≡ some (s.is_healthy, not s.is_healthy))
          × (done.state.is_healthy ≡ not s.is_healthy))
unfolding probe_state
probe_state-transition c s healthy at = ground arith

-- A probe leaves the status of every backend, or turns its own and logs that.
record_probe_cases :
    (a : String) (healthy : Bool) (at : ℕ) (m : HealthMonitor)
    → let m' = record_probe a healthy at m in
      let before = is_healthy a at m in
      ((m'.events ≡ m.events) × ((b : String) (t : ℕ) → is_healthy b t m' ≡ is_healthy b t m))
      ⊎ ((m'.events ≡ m.events ++ flip a before at ∷ [])
          × ((b : String) (t : ℕ)
              → is_healthy b t m' ≡ (if a == b then not before else is_healthy b t m)))
unfolding record_probe is_healthy
record_probe_cases a healthy at m =
    elim (probe_state-transition m.config (state_of a m) healthy at) [
      | inl (quiet, same) ↦ inl (
        ground arith,
        λ b t. ground (
          arith,
          eq_iff a b,
          lookup-insert a b (probe_state m.config (state_of a m) healthy at).state m.states,
        ),
      )
      | inr (turn, turned) ↦ inr (
        ground arith,
        λ b t. ground (
          arith,
          eq_iff a b,
          lookup-insert a b (probe_state m.config (state_of a m) healthy at).state m.states,
        ),
      )
    ]

record_probe-Agrees :
    (a : String) (healthy : Bool) (at : ℕ) (m : HealthMonitor)
    → Agrees m
    → Agrees (record_probe a healthy at m)
unfolding is_healthy
record_probe-Agrees a healthy at m h = elim (record_probe_cases a healthy at m) [
  | inl (e, same) ↦ record {
    current = λ b t. same b t ∙ h.current b t ∙ ap (status b true) (sym e);
    history = λ b. rw e (h.history b);
  }
  | inr (e, turned) ↦ record {
    current = λ b t. rw (e, status-append, turned b t) (ground (arith, h.current b t));
    history = λ b. rw e (
        Alternates-append b true m.events _ (h.history b)
          (ground (arith, eq_iff a b, h.current b at)));
  }
]

run_from-Agrees : (ps : List Probe) (m : HealthMonitor) → Agrees m → Agrees (run ps m)
unfolding run
run_from-Agrees [] m h = h
run_from-Agrees (p ∷ ps) m h =
    run_from-Agrees ps (record_probe p.backend_id p.result.healthy p.result.at m)
      (record_probe-Agrees p.backend_id p.result.healthy p.result.at m h)

-- After any probes of any backends from a new monitor, each backend has the status that its last
-- event gave it (healthy with no event), and each event turns the status that stood before it.
pub run-Agrees : (c : Config) (ps : List Probe) → Agrees (run ps (init c))
unfolding init is_healthy lookup
run-Agrees c ps = run_from-Agrees ps (init c) (record { current = λ b at. refl; history = λ b. tt })
