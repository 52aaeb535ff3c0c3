-- ===== src/Leases/Book/Valid.antt =====
-- The two dictionaries of the book hold the same leases, each under its own host and token.
use llm_home_lab.Base.{
  ℕ, ◌+◌, ◌≤◌, String, ◌≡◌, ◌⊎◌, inr, none, some, List, [], ◌∷◌, arith, eq_iff, string_eq, filter,
  All, All-filter, All-map, foldl,
}
use llm_home_lab.Dict.{lookup, values, Dict, lookup-insert, lookup-remove}
use llm_home_lab.Dict.Unique.{Unique, Unique-insert, Unique-remove, All-of_lookup}
use llm_home_lab.Leases.Models.{NodeLease, LeaseSettings}
use llm_home_lab.Leases.Book.{NodeLeaseBook, ended, drop_unlocked, purge_unlocked, store}

-- What the book may hold under a host or a token.
pub record IsLease (s : LeaseSettings) (l : NodeLease) : Type 0 where
  pub within : l.expires_at ≤ l.hard_expires_at
  pub capped : l.hard_expires_at ≤ l.created_at + s.max_ceiling

pub record IsValid (b : NodeLeaseBook) : Type 0 where
  pub unique : Unique b.by_host
  pub host_side :
      (h : String) (l : NodeLease)
      → lookup h b.by_host ≡ some l
      → (l.host_id ≡ h) × (lookup l.token b.by_token ≡ some l) × IsLease b.settings l
  pub token_side :
      (t : String) (l : NodeLease)
      → lookup t b.by_token ≡ some l
      → (l.token ≡ t) × (lookup l.host_id b.by_host ≡ some l)

-- The book holds nothing else under the host or the token of `l`.
abbrev pub Owns : NodeLeaseBook → NodeLease → Type 0
Owns b l =
    ((lookup l.host_id b.by_host ≡ none) ⊎ (lookup l.host_id b.by_host ≡ some l))
    × ((lookup l.token b.by_token ≡ none) ⊎ (lookup l.token b.by_token ≡ some l))

pub drop-IsValid :
    (b : NodeLeaseBook) (l : NodeLease) → Owns b l → IsValid b → IsValid (drop_unlocked b l)
unfolding drop_unlocked
drop-IsValid b l o v = record {
  unique = Unique-remove l.host_id b.by_host v.unique;
  host_side = λ h k e. ground (
    arith,
    lookup-remove l.host_id h b.by_host,
    lookup-remove l.token k.token b.by_token,
    eq_iff l.host_id h,
    eq_iff l.token k.token,
    v.host_side h k,
    v.token_side l.token k,
    v.token_side k.token k,
    o,
  );
  token_side = λ t k e. ground (
    arith,
    lookup-remove l.token t b.by_token,
    lookup-remove l.host_id k.host_id b.by_host,
    eq_iff l.host_id k.host_id,
    eq_iff l.token t,
    v.token_side t k,
    v.host_side k.host_id k,
    o,
  );
}

-- A lease may be written where its host and its token are free or belong together.
abbrev pub Fits : NodeLeaseBook → NodeLease → Type 0
Fits b l =
    ((k : NodeLease) → lookup l.host_id b.by_host ≡ some k → k.token ≡ l.token)
    × ((k : NodeLease) → lookup l.token b.by_token ≡ some k → k.host_id ≡ l.host_id)

pub store-IsValid :
    (b : NodeLeaseBook) (l : NodeLease)
    → Fits b l
    → IsLease b.settings l
    → IsValid b
    → IsValid (store l b)
unfolding store
store-IsValid b l o g v = record {
  unique = Unique-insert l.host_id l b.by_host v.unique;
  host_side = λ h k e. ground (
    arith,
    lookup-insert l.host_id h l b.by_host,
    lookup-insert l.token k.token l b.by_token,
    eq_iff l.host_id h,
    eq_iff l.token k.token,
    v.host_side h k,
    v.token_side l.token k,
    v.token_side k.token k,
    g,
    o.0 k,
    o.1 k,
  );
  token_side = λ t k e. ground (
    arith,
    lookup-insert l.token t l b.by_token,
    lookup-insert l.host_id k.host_id l b.by_host,
    eq_iff l.host_id k.host_id,
    eq_iff l.token t,
    v.token_side t k,
    v.host_side k.host_id k,
    o.0 k,
    o.1 k,
  );
}

-- What a drop leaves: every other host and token as it was.
pub drop-Owns : (b : NodeLeaseBook) (l k : NodeLease) → Owns b k → Owns (drop_unlocked b l) k
unfolding drop_unlocked
drop-Owns b l k o =
    ground
      (arith, lookup-remove l.host_id k.host_id b.by_host, lookup-remove l.token k.token b.by_token)

drops-IsValid :
    (ls : List NodeLease) (b : NodeLeaseBook)
    → All (Owns b) ls
    → IsValid b
    → IsValid (foldl drop_unlocked b ls)
drops-IsValid [] b o v = v
drops-IsValid (l ∷ ls) b o v =
    drops-IsValid ls (drop_unlocked b l)
      (All-map (Owns b) (Owns (drop_unlocked b l)) ls (drop-Owns b l) o.1) (drop-IsValid b l o.0 v)

All-values :
    {A : Type 0} (P : A → Type 0) (d : Dict String A) → All (λ p. P p.1) d → All P (values d)
All-values P [] h = tt
All-values P (p ∷ d) h = (h.0, All-values P d h.1)

pub values-Owns : (b : NodeLeaseBook) → IsValid b → All (Owns b) (values b.by_host)
values-Owns b v = All-values (Owns b) b.by_host (
    All-of_lookup (λ p. Owns b p.1) b.by_host v.unique
      λ h l e. (inr (ground (arith, v.host_side h l)), inr (ground (arith, v.host_side h l))))

pub purge-IsValid : (now : ℕ) (b : NodeLeaseBook) → IsValid b → IsValid (purge_unlocked now b)
unfolding purge_unlocked
purge-IsValid now b v =
    drops-IsValid (filter (ended now) (values b.by_host)) b
      (All-filter (ended now) (Owns b) (values b.by_host) (values-Owns b v)) v
