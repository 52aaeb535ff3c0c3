-- ===== src/Leases/Book/Calls.antt =====
-- Every method keeps the book valid, whatever its outcome.
use llm_home_lab.Base.{
  ℕ, String, ◌≡◌, refl, ◌⊎◌, inl, inr, true, false, none, some, arith, string_eq, Option-cases,
  Bool-cases,
}
use llm_home_lab.Dict.{lookup}
use llm_home_lab.Leases.Models.{NodeLease, ok, err, lease_not_held, lease_ended}
use llm_home_lab.Leases.Book.{
  NodeLeaseBook, ended, drop_unlocked, purge_unlocked, store, renew, live_unlocked, require,
  is_held, heartbeat, release, force_release, view,
}
use llm_home_lab.Leases.Book.Valid.{IsValid, drop-IsValid, store-IsValid, purge-IsValid}

found-IsValid :
    (b : NodeLeaseBook) (t : String) (l : NodeLease)
    → IsValid b
    → lookup t b.by_token ≡ some l
    → IsValid (drop_unlocked b l)
found-IsValid b t l v e =
    drop-IsValid b l (inr (v.token_side t l e).1, inr (ground (arith, v.token_side t l e))) v

held-IsValid :
    (b : NodeLeaseBook) (h : String) (l : NodeLease)
    → IsValid b
    → lookup h b.by_host ≡ some l
    → IsValid (drop_unlocked b l)
held-IsValid b h l v e =
    drop-IsValid b l (inr (ground (arith, v.host_side h l e)), inr (v.host_side h l e).1) v

-- The three outcomes of the lookup by token.
pub live_cases :
    (t : String) (now : ℕ) (b : NodeLeaseBook)
    → ((lookup t b.by_token ≡ none) × (live_unlocked t now b ≡ (err lease_not_held, b)))
      ⊎ ((l : NodeLease) × (lookup t b.by_token ≡ some l)
          × (ended now l ≡ true)
          × (live_unlocked t now b ≡ (err (lease_ended l.host_id l.holder), drop_unlocked b l)))
      ⊎ ((l : NodeLease) × (lookup t b.by_token ≡ some l)
          × (ended now l ≡ false)
          × (live_unlocked t now b ≡ (ok l, b)))
unfolding live_unlocked
live_cases t now b = elim (Option-cases (lookup t b.by_token)) [
  | inl e ↦ inl (e, rw (e, live_unlocked))
  | inr (l, e) ↦ elim (Bool-cases (ended now l)) [
    | inl over ↦ inr (inl (l, e, over, rw (e, live_unlocked, over)))
    | inr live ↦ inr (inr (l, e, live, rw (e, live_unlocked, live)))
  ]
]

pub require-eq-live :
    (t : String) (now : ℕ) (b : NodeLeaseBook) → require t now b ≡ live_unlocked t now b
unfolding require live_unlocked
require-eq-live t now b = refl

pub live-IsValid :
    (t : String) (now : ℕ) (b : NodeLeaseBook) → IsValid b → IsValid (live_unlocked t now b).1
live-IsValid t now b v = elim (live_cases t now b) [
  | inl (_, e) ↦ rw e v
  | inr (inl (l, f, _, e)) ↦ rw e (found-IsValid b t l v f)
  | inr (inr (l, f, _, e)) ↦ rw e v
]

-- A heartbeat writes the lease back under its own host and token.
renew-IsValid :
    (t : String) (now : ℕ) (b : NodeLeaseBook) (l : NodeLease)
    → lookup t b.by_token ≡ some l
    → IsValid b
    → IsValid (store (renew now b l) b)
unfolding renew
renew-IsValid t now b l f v =
    let side = v.token_side t l f in
    let g = (v.host_side l.host_id l side.1).2 in
    store-IsValid b (renew now b l) (λ k e. ground (arith, side), λ k e. ground (arith, side))
      (record { within = omega arith; capped = g.capped }) v

pub is_held-IsValid :
    (h : String) (now : ℕ) (b : NodeLeaseBook) → IsValid b → IsValid (is_held h now b).1
unfolding is_held
is_held-IsValid h now b v = elim (Option-cases (lookup h b.by_host)) [
  | inl e ↦ rw (e, is_held) v
  | inr (l, e) ↦ ground (arith, held-IsValid b h l v e)
]

pub view-IsValid : (h : String) (now : ℕ) (b : NodeLeaseBook) → IsValid b → IsValid (view h now b).1
unfolding view
view-IsValid h now b v = elim (Option-cases (lookup h b.by_host)) [
  | inl e ↦ rw (e, view) v
  | inr (l, e) ↦ ground (arith, held-IsValid b h l v e)
]

pub heartbeat-IsValid :
    (t : String) (now : ℕ) (b : NodeLeaseBook) → IsValid b → IsValid (heartbeat t now b).1
unfolding heartbeat
heartbeat-IsValid t now b v = elim (live_cases t now b) [
  | inl (_, e) ↦ rw (e, heartbeat) v
  | inr (inl (l, f, _, e)) ↦ rw (e, heartbeat) (found-IsValid b t l v f)
  | inr (inr (l, f, _, e)) ↦ rw (e, heartbeat) (renew-IsValid t now b l f v)
]

pub release-IsValid :
    (t : String) (now : ℕ) (b : NodeLeaseBook) → IsValid b → IsValid (release t now b).1
unfolding release
release-IsValid t now b v = elim (live_cases t now b) [
  | inl (_, e) ↦ rw (e, release) v
  | inr (inl (l, f, _, e)) ↦ rw (e, release) (found-IsValid b t l v f)
  | inr (inr (l, f, _, e)) ↦ rw (e, release) (found-IsValid b t l v f)
]

pub force_release-IsValid :
    (h : String) (now : ℕ) (b : NodeLeaseBook) → IsValid b → IsValid (force_release h now b).1
unfolding force_release
force_release-IsValid h now b v =
    let p = purge_unlocked now b in
    let vp = purge-IsValid now b v in
    elim (Option-cases (lookup h p.by_host)) [
      | inl e ↦ rw (e, force_release) vp
      | inr (l, e) ↦ rw (e, force_release) (held-IsValid p h l vp e)
    ]
