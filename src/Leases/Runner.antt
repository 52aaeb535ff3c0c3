-- ===== src/Leases/Runner.antt =====
-- src/llm_home_lab/leases/runner.py: the wrapper that reserves a node, runs a command and releases the
-- node. The calls of the orchestrator act on any state `W` of it; the child process is given: whether it
-- starts, how many heartbeats come due while it runs, and how the waits for it end. The lines that the
-- wrapper prints are left out, and so is an interrupt outside of the waits for the child.
mod Releasing
pub mod Server
mod Examples
use llm_home_lab.Base.{
  ℕ, zero, suc, String, ◌≡◌, refl, Bool, true, false, not, Option, none, some, ◌⊎◌, inl, inr, arith,
  if◌then◌else◌, ◌==◌, nat_beq, leb, ◌||◌, ◌&&◌, ◌+◌,
}
use llm_home_lab.Base.Int.{ℤ, pos, negsuc}
use llm_home_lab.Leases.Models.{NodeLease}

-- The exceptions of a call are values.
pub data Reservation : Type 0 where
  leased : NodeLease → Reservation
  reservation_refused reserve_unreachable : Reservation

pub data Heartbeat : Type 0 where
  beaten lease_lost heartbeat_unreachable : Heartbeat

pub data Release : Type 0 where
  released release_unreachable : Release

-- The answer to a request: a transport error, or a status and the object of its body, if it is one.
pub data Response : Type 0 where
  transport_error : Response
  response : ℕ → Option NodeLease → Response

abbrev pub payload : Option NodeLease → Reservation
payload none = reserve_unreachable
payload (some lease) = leased lease

-- `OrchestratorLeaseApi.reserve`
unfoldable pub reserve_answer : Response → Reservation
reserve_answer transport_error = reserve_unreachable
reserve_answer (response status body) =
    if nat_beq status 400 || nat_beq status 404 || nat_beq status 409
    then reservation_refused
    else if leb 400 status
    then reserve_unreachable
    else payload body

-- `OrchestratorLeaseApi.heartbeat`
unfoldable pub heartbeat_answer : Response → Heartbeat
heartbeat_answer transport_error = heartbeat_unreachable
heartbeat_answer (response status body) =
    if nat_beq status 409
    then lease_lost
    else if nat_beq status 403
    then lease_lost
    else if leb 400 status
    then heartbeat_unreachable
    else beaten

-- `OrchestratorLeaseApi.release`
unfoldable pub release_answer : Response → Release
release_answer transport_error = release_unreachable
release_answer (response status body) =
    if nat_beq status 404
    then released
    else if leb 400 status
    then release_unreachable
    else released

-- How a wait for the child ends.
pub data Wait : Type 0 where
  ends : ℤ → Wait
  keyboard_interrupt timeout_expired : Wait

-- What the wrapper returns, or the exception that leaves it.
pub data Outcome : Type 0 where
  returned : ℕ → Outcome
  raised : Wait → Outcome

-- `128 - code if code < 0 else code`
abbrev pub exit_code : ℤ → ℕ
exit_code (pos n) = n
exit_code (negsuc n) = 129 + n

abbrev pub outcome_of : Wait → Outcome
outcome_of (ends code) = returned (exit_code code)
outcome_of keyboard_interrupt = raised keyboard_interrupt
outcome_of timeout_expired = raised timeout_expired

-- `_wait_for`, over the ends of its waits in their order: the second one has a timeout.
unfoldable pub wait_for : Wait → Wait → Wait → Wait
wait_for keyboard_interrupt timeout_expired third = third
wait_for keyboard_interrupt (ends code) third = ends code
wait_for keyboard_interrupt keyboard_interrupt third = keyboard_interrupt
wait_for (ends code) second third = ends code
wait_for timeout_expired second third = timeout_expired

abbrev pub exit_refused : ℕ
exit_refused = 2

abbrev pub exit_unreachable : ℕ
exit_unreachable = 3

abbrev pub exit_lost : ℕ
exit_lost = 4

-- A heartbeat that is under way when `beater.join` times out: whether the orchestrator serves it before
-- the release, and whether its answer comes before the test of `lost`.
pub record Overdue : Type 0 where
  pub before_release : Bool
  pub before_test : Bool

-- The child process: whether `popen` starts it, the heartbeats that are answered before the join is
-- over, the one that is not, and the waits.
pub record Child : Type 0 where
  pub starts : Bool
  pub due : ℕ
  pub overdue : Option Overdue
  pub first : Wait
  pub second : Wait
  pub third : Wait

-- `LeaseApi`
pub record LeaseApi (W : Type 0) : Type 0 where
  pub reserve : W → Reservation × W
  pub heartbeat : String → W → Heartbeat × W
  pub release : String → W → Release × W

-- The lease was not lost, or the wrapper says so, or an exception leaves it.
abbrev pub Told : Bool → Outcome → Type 0
Told l outcome =
    (l ≡ false) ⊎ ((outcome ≡ returned exit_lost) ⊎ ((e : Wait) × (outcome ≡ raised e)))

abbrev pub is_lost : Heartbeat → Bool
is_lost beaten = false
is_lost lease_lost = true
is_lost heartbeat_unreachable = false

module _ {W : Type 0} (api : LeaseApi W) where
  -- The thread `beat`: whether the lease was lost.
  unfoldable pub beat : ℕ → String → W → Bool × W
  beat zero token w = (false, w)
  beat (suc n) token w =
      let (answer, w) = api.heartbeat token w in
      elim answer [
        | beaten ↦ beat n token w
        | lease_lost ↦ (true, w)
        | heartbeat_unreachable ↦ beat n token w
      ]

  -- `_release`: a failure is only printed.
  unfoldable pub release_lease : String → W → W
  release_lease token w = (api.release token w).1

  -- The `finally` block, and whether `lost` is set at its test. A thread that has found the lease lost
  -- has nothing under way.
  unfoldable pub cleaned_up : Option Overdue → Bool → String → W → Bool × W
  cleaned_up o true token w = (true, release_lease token w)
  cleaned_up none false token w = (false, release_lease token w)
  cleaned_up (some o) false token w =
      if o.before_release
      then (let (answer, w) = api.heartbeat token w in
          (o.before_test && is_lost answer, release_lease token w))
      else (let (answer, w) = api.heartbeat token (release_lease token w) in
          (o.before_test && is_lost answer, w))

  -- The command under the lease.
  unfoldable pub run_child : Child → NodeLease → W → Outcome × W
  run_child child lease w =
      if not child.starts
      then (returned 127, release_lease lease.token w)
      else (let (lost, w) = beat child.due lease.token w in
          let (lost, w) = cleaned_up child.overdue lost lease.token w in
          let waited = outcome_of (wait_for child.first child.second child.third) in
          (
            elim waited [
              | returned code ↦ returned (if lost then exit_lost else code)
              | raised e ↦ raised e
            ],
            w,
          ))

  unfoldable pub with_reservation : Child → Reservation → W → Outcome × W
  with_reservation child (leased lease) w = run_child child lease w
  with_reservation child reservation_refused w = (returned exit_refused, w)
  with_reservation child reserve_unreachable w = (returned exit_unreachable, w)

  -- The first argument is whether there is a command.
  unfoldable pub run_leased : Bool → Child → W → Outcome × W
  run_leased false child w = (returned exit_refused, w)
  run_leased true child w = with_reservation child (api.reserve w).0 (api.reserve w).1

  -- The heartbeats of a lease, up to the one that finds it lost.
  pub data Beaten (token : String) : Bool → W → W → Type 0 where
    stopped : (w : W) → Beaten token false w w
    lost : (w w' : W) → api.heartbeat token w ≡ (lease_lost, w') → Beaten token true w w'
    renewed :
        (l : Bool) (w w' w'' : W)
        → api.heartbeat token w ≡ (beaten, w')
        → Beaten token l w' w''
        → Beaten token l w w''
    missed :
        (l : Bool) (w w' w'' : W)
        → api.heartbeat token w ≡ (heartbeat_unreachable, w')
        → Beaten token l w' w''
        → Beaten token l w w''
