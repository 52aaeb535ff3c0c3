-- ===== src/Leases/Book/Effects.antt =====
-- What a holder meets: heartbeat, release and expiry, by token and by node.
use llm_home_lab.Base.{
  ℕ, ◌+◌, ◌≤◌, ◌<◌, min, String, ◌≡◌, refl, ap, subst, sym, ◌∙◌, ◌↔◌, ◌⊎◌, inl, inr, true, false,
  not, none, some, arith, eq_iff, string_eq, Option-cases,
}
use llm_home_lab.Dict.{lookup, lookup-remove}
use llm_home_lab.Leases.Models.{NodeLease, ok, err, failed, lease_not_held, lease_ended}
use llm_home_lab.Leases.Book.{
  NodeLeaseBook, ended, purge_unlocked, drop_unlocked, store, renew, live_unlocked, require,
  is_held, heartbeat, release, force_release,
}
use llm_home_lab.Leases.Book.Valid.{IsValid, purge-IsValid}
use llm_home_lab.Leases.Book.Purge.{lookup-purge}
use llm_home_lab.Leases.Book.Calls.{live_cases, require-eq-live}
use llm_home_lab.Leases.Book.Grants.{is_held_iff, require-store, is_held-store, unheld}

-- A token is good for a lease exactly where the lease's node is held by that lease.
pub require_iff :
    (now : ℕ) (b : NodeLeaseBook) (l : NodeLease)
    → IsValid b
    → (require l.token now b ≡ (ok l, b))
      ↔ ((lookup l.host_id b.by_host ≡ some l) × ((is_held l.host_id now b).0 ≡ true))
unfolding require is_held
require_iff now b l v =
    (λ e. ground (arith, v.token_side l.token l), λ e. ground (arith, v.host_side l.host_id l))

-- A released lease is gone: its token is not good at any time, and its node is not held.
pub release_ends :
    (token : String) (now later : ℕ) (b b' : NodeLeaseBook) (l : NodeLease)
    → IsValid b
    → release token now b ≡ (ok l, b')
    → (require token later b' ≡ (err lease_not_held, b'))
      × ((is_held l.host_id later b').0 ≡ false)
      × (lookup token b.by_token ≡ some l)
unfolding release require is_held drop_unlocked
release_ends token now later b b' l v e = elim (live_cases token now b) [
  | inl (_, f) ↦ absurd (ground arith)
  | inr (inl (k, _, _, f)) ↦ absurd (ground arith)
  | inr (inr (k, found, live, f)) ↦ ground (
    arith,
    v.token_side token k,
    lookup-remove k.token token b.by_token,
    lookup-remove k.host_id k.host_id b.by_host,
    eq_iff k.token token,
    eq_iff k.host_id k.host_id,
  )
]

-- A lease that has ended, by its ttl or by its ceiling, is refused once as ended and then unknown,
-- and its node is free at once, whoever asks first.
pub expiry_frees :
    (now later : ℕ) (b : NodeLeaseBook) (l : NodeLease)
    → IsValid b
    → lookup l.token b.by_token ≡ some l
    → (l.expires_at ≤ now) ⊎ (l.hard_expires_at ≤ now)
    → let b' = (require l.token now b).1 in
      ((require l.token now b).0 ≡ err (lease_ended l.host_id l.holder))
      × (require l.token later b' ≡ (err lease_not_held, b'))
      × ((is_held l.host_id now b).0 ≡ false)
      × ((is_held l.host_id later b').0 ≡ false)
unfolding require is_held ended drop_unlocked
expiry_frees now later b l v found over = ground (
  arith,
  v.token_side l.token l,
  lookup-remove l.token l.token b.by_token,
  lookup-remove l.host_id l.host_id b.by_host,
  eq_iff l.token l.token,
  eq_iff l.host_id l.host_id,
)

heartbeat_live :
    (token : String) (now : ℕ) (b : NodeLeaseBook) (l : NodeLease)
    → live_unlocked token now b ≡ (ok l, b)
    → heartbeat token now b ≡ (ok (renew now b l), store (renew now b l) b)
unfolding heartbeat
heartbeat_live token now b l e = rw (e, heartbeat)

renew-live :
    (now : ℕ) (b : NodeLeaseBook) (l : NodeLease)
    → 0 < b.ttl
    → ended now l ≡ false
    → ended now (renew now b l) ≡ false
unfolding renew ended
renew-live now b l lasts live = ground arith

require_found :
    (token : String) (now : ℕ) (b : NodeLeaseBook) (l : NodeLease)
    → require token now b ≡ (ok l, b)
    → (lookup token b.by_token ≡ some l) × (ended now l ≡ false)
unfolding require
require_found token now b l e = ground arith

-- A heartbeat on a live lease moves its expiry to now plus the ttl, never past the ceiling, changes
-- nothing else of it, and keeps the node held and the token good.
pub heartbeat_extends :
    (token : String) (now : ℕ) (b : NodeLeaseBook) (l : NodeLease)
    → IsValid b
    → 0 < b.ttl
    → require token now b ≡ (ok l, b)
    → let l' = record l { expires_at = min (now + b.ttl) l.hard_expires_at } in
      let b' = (heartbeat token now b).1 in
      ((heartbeat token now b).0 ≡ ok l')
      × (l'.expires_at ≤ l.hard_expires_at)
      × (require token now b' ≡ (ok l', b'))
      × ((is_held l.host_id now b').0 ≡ true)
unfolding renew
heartbeat_extends token now b l v lasts good =
    let found = require_found token now b l good in
    let own = (v.token_side token l found.0).0 in
    let done = heartbeat_live token now b l (sym (require-eq-live token now b) ∙ good) in
    let live = renew-live now b l lasts found.1 in
    (
      ap (λ r. r.0) done,
      omega arith,
      rw done (
          subst
            (λ t.
              require t now (store (renew now b l) b)
              ≡ (ok (renew now b l), store (renew now b l) b))
            own (require-store (renew now b l) now b live)),
      rw done (is_held-store (renew now b l) now b live),
    )

is_held-none :
    (h : String) (now : ℕ) (b : NodeLeaseBook)
    → lookup h b.by_host ≡ none
    → (is_held h now b).0 ≡ false
unfolding is_held
is_held-none h now b n = ground arith

is_held-drop :
    (h : String) (now : ℕ) (b : NodeLeaseBook) (l : NodeLease)
    → IsValid b
    → lookup h b.by_host ≡ some l
    → (is_held h now (drop_unlocked b l)).0 ≡ false
unfolding is_held drop_unlocked
is_held-drop h now b l v f =
    ground (arith, v.host_side h l, lookup-remove l.host_id h b.by_host, eq_iff l.host_id h)

-- A forced release takes the lease of a node that is held, and fails on one that is not; either way
-- the node is not held afterwards.
pub force_release_frees :
    (host_id : String) (now later : ℕ) (b : NodeLeaseBook)
    → IsValid b
    → (failed (force_release host_id now b).0 ≡ not (is_held host_id now b).0)
      × ((is_held host_id later (force_release host_id now b).1).0 ≡ false)
unfolding force_release
force_release_frees host_id now later b v =
    let p = purge_unlocked now b in
    elim (Option-cases (lookup host_id p.by_host)) [
      | inl n ↦
          rw (n, force_release) (rw (unheld host_id now b v n) refl, is_held-none host_id later p n)
      | inr (l, f) ↦
          let was = (lookup-purge now b v host_id l).0 f in
          let held = (is_held_iff host_id now b).1 (l, was.0, was.1) in
          rw (f, force_release)
            (rw held refl, is_held-drop host_id later p l (purge-IsValid now b v) f)
    ]
