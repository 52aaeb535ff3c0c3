-- ===== src/Leases/Runner/Releasing.antt =====
-- What a run of the wrapper of src/llm_home_lab/leases/runner.py does to the orchestrator.
use llm_home_lab.Base.{
  ℕ, zero, suc, ◌⊎◌, Option, none, some, String, ◌≡◌, refl, ap, Bool, true, false, inl, inr,
  Bool-cases, if◌then◌else◌,
}
use llm_home_lab.Leases.Models.{NodeLease}
use llm_home_lab.Leases.Runner.{
  Reservation, leased, reservation_refused, reserve_unreachable, Heartbeat, beaten, lease_lost,
  heartbeat_unreachable, Child, LeaseApi, Outcome, returned, raised, beat, release_lease, run_child,
  with_reservation, run_leased, Overdue, cleaned_up, Beaten, stopped, lost, renewed, missed, Wait,
  ends, keyboard_interrupt, timeout_expired, exit_lost, outcome_of, wait_for, Told,
}

module _ {W : Type 0} (api : LeaseApi W) where
  beat_answered :
      (n : ℕ) (token : String) (w : W) (a : Heartbeat)
      → (api.heartbeat token w).0 ≡ a
      → let w' = (api.heartbeat token w).1 in
        Beaten api token (beat api n token w').0 w' (beat api n token w').1
        → Beaten api token (beat api (suc n) token w).0 w (beat api (suc n) token w).1
  unfolding beat
  beat_answered n token w beaten e rest =
      rw (beat, e) (renewed _ w _ _ (ap (λ a. (a, (api.heartbeat token w).1)) e) rest)
  beat_answered n token w lease_lost e rest =
      rw (beat, e) (lost w _ (ap (λ a. (a, (api.heartbeat token w).1)) e))
  beat_answered n token w heartbeat_unreachable e rest =
      rw (beat, e) (missed _ w _ _ (ap (λ a. (a, (api.heartbeat token w).1)) e) rest)

  beat-Beaten :
      (n : ℕ) (token : String) (w : W)
      → Beaten api token (beat api n token w).0 w (beat api n token w).1
  unfolding beat
  beat-Beaten zero token w = stopped w
  beat-Beaten (suc n) token w =
      let (answer, w') = api.heartbeat token w in
      beat_answered n token w answer refl (beat-Beaten n token w')

  -- What happens after the last heartbeat that is answered in time: the release, and at most one
  -- heartbeat before or after it, if no heartbeat found the lease lost.
  abbrev pub Closes : Bool → String → W → W → Type 0
  Closes true token w w' = w' ≡ (api.release token w).1
  Closes false token w w' =
      (w' ≡ (api.release token w).1)
      ⊎ ((w' ≡ (api.release token (api.heartbeat token w).1).1)
          ⊎ (w' ≡ (api.heartbeat token (api.release token w).1).1))

  -- The end of a run under a lease.
  abbrev pub ReleasedOnce : NodeLease → W → Outcome × W → Type 0
  ReleasedOnce lease w result =
      (l : Bool) × (w' : W) × Beaten api lease.token l w w'
      × Closes l lease.token w' result.1
      × Told l result.0

  cleaned_up-Closes :
      (o : Option Overdue) (l : Bool) (token : String) (w : W)
      → Closes l token w (cleaned_up api o l token w).1
  unfolding cleaned_up release_lease
  cleaned_up-Closes o true token w = refl
  cleaned_up-Closes none false token w = inl refl
  cleaned_up-Closes (some o) false token w = elim (Bool-cases o.before_release) [
    | inl before ↦ rw (cleaned_up, before) (inr (inl refl))
    | inr after ↦ rw (cleaned_up, after) (inr (inr refl))
  ]

  Told-outcome :
      (l : Bool) (waited : Wait)
      → Told l (elim (outcome_of waited) [
        | returned code ↦ returned (if l then exit_lost else code)
        | raised e ↦ raised e
      ])
  Told-outcome false waited = inl refl
  Told-outcome true (ends code) = inr (inl refl)
  Told-outcome true keyboard_interrupt = inr (inr (_, refl))
  Told-outcome true timeout_expired = inr (inr (_, refl))

  -- A lease known to be lost stays so.
  Told-later :
      (o : Option Overdue) (l : Bool) (token : String) (w : W) (waited : Wait)
      → Told l (elim (outcome_of waited) [
        | returned code ↦ returned (if (cleaned_up api o l token w).0 then exit_lost else code)
        | raised e ↦ raised e
      ])
  unfolding cleaned_up
  Told-later o false token w waited = inl refl
  Told-later o true token w waited = Told-outcome true waited

  run_child-releases :
      (child : Child) (lease : NodeLease) (w : W)
      → ReleasedOnce lease w (run_child api child lease w)
  unfolding run_child release_lease
  run_child-releases child lease w = elim (Bool-cases child.starts) [
    | inl starts ↦
        let (l, w') = beat api child.due lease.token w in
        let waited = wait_for child.first child.second child.third in
        rw (run_child, starts)
          (
            l,
            w',
            beat-Beaten child.due lease.token w,
            cleaned_up-Closes child.overdue l lease.token w',
            Told-later child.overdue l lease.token w' waited,
          )
    | inr fails ↦ rw (run_child, fails) (false, w, stopped w, inl refl, inl refl)
  ]

  -- The end of a run on a reservation's answer.
  abbrev pub Ended : Reservation → W → Outcome × W → Type 0
  Ended (leased lease) w result = ReleasedOnce lease w result
  Ended reservation_refused w result = result ≡ (returned 2, w)
  Ended reserve_unreachable w result = result ≡ (returned 3, w)

  with_reservation-Ended :
      (child : Child) (r : Reservation) (w : W) → Ended r w (with_reservation api child r w)
  unfolding with_reservation
  with_reservation-Ended child (leased lease) w = run_child-releases child lease w
  with_reservation-Ended child reservation_refused w = refl
  with_reservation-Ended child reserve_unreachable w = refl

  -- A run with a command, whatever the orchestrator answers and however the child ends: without a lease
  -- it returns 2 when refused and 3 when the orchestrator is not reached, and makes no other call; with
  -- one, heartbeats of its token follow, none after the one that finds the lease lost, and one release of
  -- the token, which is the last call but for at most one heartbeat that is under way when the join of
  -- its thread times out; if a heartbeat answered before that found the lease lost, the code is 4,
  -- unless an exception leaves the wait.
  pub run_leased-releases :
      (child : Child) (w : W)
      → Ended (api.reserve w).0 (api.reserve w).1 (run_leased api true child w)
  unfolding run_leased
  run_leased-releases child w = with_reservation-Ended child (api.reserve w).0 (api.reserve w).1
