-- ===== src/Leases/Book/Tokens.antt =====
-- What a book of src/llm_home_lab/leases/book.py holds under a token, over its calls.
use llm_home_lab.Base.{
  ℕ, ◌≤◌, ◌∙◌, Option-cases, String, ◌≡◌, refl, sym, ap, true, Option, none, some, List, inl, inr,
  arith, eq_iff, string_eq,
}
use llm_home_lab.Base.Int.{ℤ}
use llm_home_lab.Dict.{lookup, lookup-remove, lookup-insert}
use llm_home_lab.Leases.Models.{ReservableHost, NodeLease, ok, err, failed, lease_not_held}
use llm_home_lab.Leases.Book.{
  NodeLeaseBook, heartbeat, release, reserve, require, drop_unlocked, store, renew, ended,
  purge_unlocked,
}
use llm_home_lab.Leases.Book.Reserve.{reserve_granted}
use mathlib.Core.Option.{none-ne-some}
use llm_home_lab.Leases.Book.Valid.{IsValid}
use llm_home_lab.Leases.Book.Calls.{live_cases}

pub release-gone :
    (token : String) (now : ℕ) (b : NodeLeaseBook)
    → IsValid b
    → lookup token (release token now b).1.by_token ≡ none
unfolding release drop_unlocked
release-gone token now b v = elim (live_cases token now b) [
  | inl (gone, f) ↦ rw (release, f) gone
  | inr (inl (k, found, _, f)) ↦
      ground
        (arith, v.token_side token k, lookup-remove k.token token b.by_token, eq_iff k.token token)
  | inr (inr (k, found, _, f)) ↦
      ground
        (arith, v.token_side token k, lookup-remove k.token token b.by_token, eq_iff k.token token)
]

pub require-gone :
    (token : String) (later : ℕ) (b : NodeLeaseBook)
    → lookup token b.by_token ≡ none
    → require token later b ≡ (err lease_not_held, b)
unfolding require
require-gone token later b gone = rw (require, gone) refl

pub heartbeat-gone :
    (token : String) (now : ℕ) (b : NodeLeaseBook)
    → lookup token b.by_token ≡ none
    → lookup token (heartbeat token now b).1.by_token ≡ none
unfolding heartbeat
heartbeat-gone token now b gone = elim (live_cases token now b) [
  | inl (_, f) ↦ rw (heartbeat, f) gone
  | inr (inl (k, found, _, f)) ↦ absurd (none-ne-some k (sym gone ∙ found))
  | inr (inr (k, found, _, f)) ↦ absurd (none-ne-some k (sym gone ∙ found))
]

-- What the book has under the token ends at `hard` at the latest.
abbrev pub HardAt : String → ℕ → NodeLeaseBook → Type 0
HardAt token hard b = (l : NodeLease) → lookup token b.by_token ≡ some l → l.hard_expires_at ≡ hard

pub gone-HardAt :
    (token : String) (hard : ℕ) (b : NodeLeaseBook)
    → lookup token b.by_token ≡ none
    → HardAt token hard b
gone-HardAt token hard b gone l e = absurd (none-ne-some l (sym gone ∙ e))

pub heartbeat-HardAt :
    (token : String) (hard now : ℕ) (b : NodeLeaseBook)
    → IsValid b
    → HardAt token hard b
    → HardAt token hard (heartbeat token now b).1
unfolding heartbeat drop_unlocked store renew
heartbeat-HardAt token hard now b v h = elim (live_cases token now b) [
  | inl (_, f) ↦ rw (heartbeat, f) h
  | inr (inl (k, found, _, f)) ↦
      rw (heartbeat, f)
        (gone-HardAt token hard (drop_unlocked b k) (
          ground (
            arith,
            v.token_side token k,
            lookup-remove k.token token b.by_token,
            eq_iff k.token token,
          )))
  | inr (inr (k, found, _, f)) ↦
      rw (heartbeat, f)
        (λ l e. ground (
          arith,
          h k,
          v.token_side token k,
          lookup-insert k.token token (renew now b k) b.by_token,
          eq_iff k.token token,
        ))
]

pub require-over :
    (token : String) (hard over : ℕ) (b : NodeLeaseBook)
    → HardAt token hard b
    → hard ≤ over
    → failed (require token over b).0 ≡ true
unfolding require ended
require-over token hard over b h late = elim (Option-cases (lookup token b.by_token)) [
  | inl gone ↦ rw (require, gone) refl
  | inr (l, found) ↦ ground (arith, h l)
]

pub reserved-HardAt :
    (hosts : List ReservableHost) (model : Option String) (now : ℕ) (token holder : String)
    (host_id : Option String) (ceiling : Option ℤ) (b : NodeLeaseBook) (l : NodeLease)
    → (reserve holder hosts host_id model ceiling now token b).0 ≡ ok l
    → HardAt l.token l.hard_expires_at (reserve holder hosts host_id model ceiling now token b).1
unfolding store
reserved-HardAt hosts model now token holder host_id ceiling b l e =
    let r = reserve holder hosts host_id model ceiling now token b in
    let (h, c, may, _, _, _, _, _, lease, book) =
      reserve_granted hosts model now token holder host_id ceiling b r.1 l (ap (λ x. (x, r.1)) e) in
    let p = purge_unlocked now b in
    λ k found.
      ground (arith, book, lookup-insert l.token l.token l p.by_token, eq_iff l.token l.token)
