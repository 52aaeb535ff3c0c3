-- ===== src/Leases/Runner/Server.antt =====
-- The wrapper of src/llm_home_lab/leases/runner.py against the routes create_node_lease,
-- heartbeat_node_lease and release_node_lease of src/llm_home_lab/api/app.py on one lease book. The
-- state is the orchestrator's clock and the book; some time passes before each call. What the network
-- does with a call of each kind at each time is given.
use llm_home_lab.Base.{
  ℕ, ◌+◌, ◌≤◌, ◌⊎◌, String, ◌≡◌, refl, sym, ap, subst, Bool, true, false, Option, none, some, List,
  inl, inr, string_eq,
}
use llm_home_lab.Base.Int.{ℤ}
use llm_home_lab.Dict.{lookup}
use llm_home_lab.Leases.Models.{ReservableHost, NodeLease, Result, ok, err, failed, lease_not_held}
use llm_home_lab.Leases.Book.{NodeLeaseBook, heartbeat, release, reserve, require, store}
use llm_home_lab.Leases.Book.Valid.{IsValid}
use llm_home_lab.Leases.Book.Calls.{heartbeat-IsValid, release-IsValid}
use llm_home_lab.Leases.Book.Histories.{step-IsValid, reserves}
use llm_home_lab.Leases.Book.Tokens.{
  HardAt, release-gone, require-gone, heartbeat-gone, gone-HardAt, heartbeat-HardAt, require-over,
  reserved-HardAt,
}
use llm_home_lab.Leases.Runner.{
  Response, response, transport_error, Child, LeaseApi, reserve_answer, heartbeat_answer,
  release_answer, Beaten, stopped, lost, renewed, missed, run_leased, leased,
}
use llm_home_lab.Leases.Runner.Releasing.{run_leased-releases, Ended, Closes}
use llm_home_lab.Api.Errors.{on_lease_error}

-- The answer of a route: the lease, or the answer of the exception's handler.
abbrev pub answer_of : ℕ → Result NodeLease → Response
answer_of status (ok lease) = response status (some lease)
answer_of status (err e) = let r = on_lease_error e in response r.status_code none

abbrev pub Server : Type 0
Server = ℕ × NodeLeaseBook

pub data Request : Type 0 where
  reserving beating releasing : Request

-- What becomes of a call: it is served and answered, served and its answer lost, or lost.
pub data Delivery : Type 0 where
  delivered answer_lost request_lost : Delivery

abbrev pub exchange :
    {A : Type 0}
    → Delivery
    → (Response → A)
    → ℕ
    → ℕ
    → NodeLeaseBook
    → Result NodeLease × NodeLeaseBook
    → A × Server
exchange delivered read status now b r = (read (answer_of status r.0), (now, r.1))
exchange answer_lost read status now b r = (read transport_error, (now, r.1))
exchange request_lost read status now b r = (read transport_error, (now, b))

exchange-keeps :
    {A : Type 0} (P : NodeLeaseBook → Type 0) (d : Delivery) (read : Response → A) (status now : ℕ)
    (b : NodeLeaseBook) (r : Result NodeLease × NodeLeaseBook)
    → P b
    → P r.1
    → P (exchange d read status now b r).1.1
exchange-keeps P delivered read status now b r p q = q
exchange-keeps P answer_lost read status now b r p q = q
exchange-keeps P request_lost read status now b r p q = p

module _ (network : Request → ℕ → Delivery) (tick : ℕ) (hosts : List ReservableHost)
    (holder : String) (host_id model : Option String) (ceiling : Option ℤ) (fresh : String) where
  -- The wrapper's calls as the server answers them.
  abbrev pub orchestrator : LeaseApi Server
  orchestrator = record {
    reserve = λ (now, b).
        exchange (network reserving (now + tick)) reserve_answer 201 (now + tick) b
          (reserve holder hosts host_id model ceiling (now + tick) fresh b);
    heartbeat = λ token (now, b).
        exchange (network beating (now + tick)) heartbeat_answer 200 (now + tick) b
          (heartbeat token (now + tick) b);
    release = λ token (now, b).
        exchange (network releasing (now + tick)) release_answer 200 (now + tick) b
          (release token (now + tick) b);
  }

  -- A valid book in which the token's lease ends at `hard`.
  abbrev Keeps : String → ℕ → NodeLeaseBook → Type 0
  Keeps token hard b = IsValid b × HardAt token hard b

  -- The token is unknown, or a release was lost.
  abbrev Freed : String → NodeLeaseBook → Type 0
  Freed token b =
      (lookup token b.by_token ≡ none) ⊎ ((t : ℕ) × (network releasing t ≡ request_lost))

  beat-Keeps :
      (token : String) (hard : ℕ) (s : Server)
      → Keeps token hard s.1
      → Keeps token hard (orchestrator.heartbeat token s).1.1
  beat-Keeps token hard (now, b) (v, h) =
      exchange-keeps (Keeps token hard) (network beating (now + tick)) heartbeat_answer 200
        (now + tick) b (heartbeat token (now + tick) b) (v, h)
        (heartbeat-IsValid token (now + tick) b v, heartbeat-HardAt token hard (now + tick) b v h)

  beats-Keeps :
      (token : String) (hard : ℕ) (l : Bool) (s s' : Server)
      → Beaten orchestrator token l s s'
      → Keeps token hard s.1
      → Keeps token hard s'.1
  beats-Keeps token hard _ _ _ (stopped s) v = v
  beats-Keeps token hard _ _ _ (lost s s' e) v =
      subst (λ (r : Server). Keeps token hard r.1) (ap (λ r. r.1) e) (beat-Keeps token hard s v)
  beats-Keeps token hard _ _ _ (renewed l s m s' e rest) v =
      beats-Keeps token hard l m s' rest
        (subst (λ (r : Server). Keeps token hard r.1) (ap (λ r. r.1) e) (beat-Keeps token hard s v))
  beats-Keeps token hard _ _ _ (missed l s m s' e rest) v =
      beats-Keeps token hard l m s' rest
        (subst (λ (r : Server). Keeps token hard r.1) (ap (λ r. r.1) e) (beat-Keeps token hard s v))

  exchange-Freed :
      (d : Delivery) (token : String) (now : ℕ) (b : NodeLeaseBook)
      → network releasing now ≡ d
      → IsValid b
      → Freed token (exchange d release_answer 200 now b (release token now b)).1.1
  exchange-Freed delivered token now b e v = inl (release-gone token now b v)
  exchange-Freed answer_lost token now b e v = inl (release-gone token now b v)
  exchange-Freed request_lost token now b e v = inr (now, e)

  release-Freed :
      (token : String) (hard : ℕ) (s : Server)
      → Keeps token hard s.1
      → Keeps token hard (orchestrator.release token s).1.1
        × Freed token (orchestrator.release token s).1.1
  release-Freed token hard (now, b) (v, h) =
      let t = now + tick in
      (
        exchange-keeps (Keeps token hard) (network releasing t) release_answer 200 t b
            (release token t b) (v, h)
            (
              release-IsValid token t b v,
              gone-HardAt token hard (release token t b).1 (release-gone token t b v),
            ),
        exchange-Freed (network releasing t) token t b refl v,
      )

  beat-Freed :
      (token : String) (s : Server)
      → Freed token s.1
      → Freed token (orchestrator.heartbeat token s).1.1
  beat-Freed token (now, b) (inr lost_call) = inr lost_call
  beat-Freed token (now, b) (inl gone) = inl (
      exchange-keeps (λ b. lookup token b.by_token ≡ none) (network beating (now + tick))
        heartbeat_answer 200 (now + tick) b (heartbeat token (now + tick) b) gone
        (heartbeat-gone token (now + tick) b gone))

  -- A valid book in which the token is unknown, or ends at `hard` as a release was lost.
  abbrev Left : String → ℕ → Server → Type 0
  Left token hard s = Keeps token hard s.1 × Freed token s.1

  Closes-Left :
      (l : Bool) (token : String) (hard : ℕ) (s s' : Server)
      → Closes orchestrator l token s s'
      → Keeps token hard s.1
      → Left token hard s'
  Closes-Left true token hard s s' e v =
      subst (Left token hard) (sym e) (release-Freed token hard s v)
  Closes-Left false token hard s s' (inl e) v =
      subst (Left token hard) (sym e) (release-Freed token hard s v)
  Closes-Left false token hard s s' (inr (inl e)) v =
      subst (Left token hard) (sym e)
        (release-Freed token hard (orchestrator.heartbeat token s).1 (beat-Keeps token hard s v))
  Closes-Left false token hard s s' (inr (inr e)) v =
      let (kept, freed) = release-Freed token hard s v in
      let after = (orchestrator.release token s).1 in
      subst (Left token hard) (sym e)
        (beat-Keeps token hard after kept, beat-Freed token after freed)

  -- On a valid lease book that does not hold the new token: if the book grants the wrapper's reservation
  -- and the answer arrives, then, whatever the network does with later calls, whether the command
  -- starts, however many heartbeats come due, even one at work past the release, and however the command
  -- ends, the book that the run leaves does not hold the lease's token at any time, unless a release
  -- did not reach the orchestrator; and even then the token is refused from the lease's ceiling on.
  pub run_leased-frees :
      (child : Child) (now later over : ℕ) (b : NodeLeaseBook) (lease : NodeLease)
      → IsValid b
      → lookup fresh b.by_token ≡ none
      → (reserve holder hosts host_id model ceiling (now + tick) fresh b).0 ≡ ok lease
      → network reserving (now + tick) ≡ delivered
      → lease.hard_expires_at ≤ over
      → let b' = (run_leased orchestrator true child (now, b)).1.1 in
        ((require lease.token later b' ≡ (err lease_not_held, b'))
          ⊎ ((t : ℕ) × (network releasing t ≡ request_lost)))
        × (failed (require lease.token over b').0 ≡ true)
  unfolding reserve_answer store
  run_leased-frees child now later over b lease v new granted arrived late =
      let t = now + tick in
      let r = reserve holder hosts host_id model ceiling t fresh b in
      let valid : IsValid r.1 =
        step-IsValid b (reserves holder hosts host_id model ceiling t fresh) v new in
      let held : HardAt lease.token lease.hard_expires_at r.1 =
        reserved-HardAt hosts model t fresh holder host_id ceiling b lease granted in
      let result = run_leased orchestrator true child (now, b) in
      let answer : orchestrator.reserve (now, b) ≡ (leased lease, (t, r.1)) =
        rw arrived (ap (λ x. (reserve_answer (answer_of 201 x), (t, r.1))) granted) in
      let (l, s, beats, closes, told) =
        subst (λ x. Ended orchestrator x.0 x.1 result) answer
          (run_leased-releases orchestrator child (now, b)) in
      let (kept, freed) =
        Closes-Left l lease.token lease.hard_expires_at s result.1 closes
          (beats-Keeps lease.token lease.hard_expires_at l (t, r.1) s beats (valid, held)) in
      (
        elim freed [
          | inl gone ↦ inl (require-gone lease.token later result.1.1 gone)
          | inr lost_call ↦ inr lost_call
        ],
        require-over lease.token lease.hard_expires_at over result.1.1 kept.1 late,
      )
