-- ===== src/Leases/Book/Purge.antt =====
-- What the purge drops and what it keeps.
use llm_home_lab.Base.{
  ℕ, String, ◌≡◌, ◌≢◌, inl, inr, ◌↔◌, true, false, none, some, List, [], ◌∷◌, arith, eq_iff, ◌==◌,
  string_eq, filter, filter-In, filter-All, All, All-map, All-In, All-filter, In, foldl, Bool-cases,
}
use llm_home_lab.Dict.{Dict, lookup, values, lookup-remove}
use llm_home_lab.Leases.Models.{NodeLease}
use llm_home_lab.Leases.Book.{NodeLeaseBook, ended, drop_unlocked, purge_unlocked}
use llm_home_lab.Leases.Book.Valid.{IsValid, Owns, drop-Owns, values-Owns}

pub In-values :
    {A : Type 0} (k : String) (d : Dict String A) (v : A) → lookup k d ≡ some v → In v (values d)
unfolding lookup
In-values k [] v e = cc
In-values k ((j, w) ∷ d) v e = elim (Bool-cases (j == k)) [
  | inl hit ↦ inl (ground arith)
  | inr miss ↦ inr (In-values k d v (ground arith))
]

drops_keep :
    (ls : List NodeLease) (b : NodeLeaseBook) (h : String) (l : NodeLease) (now : ℕ)
    → All (Owns b) ls
    → All (λ k. ended now k ≡ true) ls
    → lookup h b.by_host ≡ some l
    → ended now l ≡ false
    → lookup h (foldl drop_unlocked b ls).by_host ≡ some l
drops_keep [] b h l now o over e live = e
drops_keep (k ∷ ls) b h l now o over e live =
    drops_keep ls (drop_unlocked b k) h l now
      (All-map (Owns b) (Owns (drop_unlocked b k)) ls (drop-Owns b k) o.1) over.1
      (unfold drop_unlocked in
        ground (arith, lookup-remove k.host_id h b.by_host, eq_iff k.host_id h, o.0, over.0))
      live

drops_none :
    (ls : List NodeLease) (b : NodeLeaseBook) (t : String)
    → lookup t b.by_token ≡ none
    → lookup t (foldl drop_unlocked b ls).by_token ≡ none
drops_none [] b t e = e
drops_none (k ∷ ls) b t e =
    drops_none ls (drop_unlocked b k) t
      (unfold drop_unlocked in ground (arith, lookup-remove k.token t b.by_token))

drops_left :
    (ls : List NodeLease) (b : NodeLeaseBook) (h : String) (l : NodeLease)
    → lookup h (foldl drop_unlocked b ls).by_host ≡ some l
    → (lookup h b.by_host ≡ some l) × All (λ k. k.host_id ≢ h) ls
unfolding drop_unlocked
drops_left [] b h l e = (e, tt)
drops_left (k ∷ ls) b h l e =
    let rest = drops_left ls (drop_unlocked b k) h l e in
    ground (arith, lookup-remove k.host_id h b.by_host, eq_iff k.host_id h, rest)

module _ (now : ℕ) (b : NodeLeaseBook) where
  pub purge_none :
      (t : String) → lookup t b.by_token ≡ none → lookup t (purge_unlocked now b).by_token ≡ none
  unfolding purge_unlocked
  purge_none t e = drops_none (filter (ended now) (values b.by_host)) b t e

  purge_left :
      IsValid b
      → (h : String) (l : NodeLease) → lookup h (purge_unlocked now b).by_host ≡ some l
      → (lookup h b.by_host ≡ some l) × (ended now l ≡ false)
  unfolding purge_unlocked
  purge_left v h l e =
      let left = drops_left (filter (ended now) (values b.by_host)) b h l e in
      elim (Bool-cases (ended now l)) [
        | inr live ↦ (left.0, live)
        | inl over ↦ absurd (
            All-In (λ (k : NodeLease). k.host_id ≢ h) l (filter (ended now) (values b.by_host))
              left.1
              (filter-In (ended now) l (values b.by_host) (In-values h b.by_host l left.0) over)
              (v.host_side h l left.0).0)
      ]

  -- After a purge, a host has a lease exactly where it had one before that has not ended.
  pub lookup-purge :
      IsValid b
      → (h : String) (l : NodeLease)
      → (lookup h (purge_unlocked now b).by_host ≡ some l)
        ↔ ((lookup h b.by_host ≡ some l) × (ended now l ≡ false))
  unfolding purge_unlocked
  lookup-purge v h l = (
    λ e. purge_left v h l e,
    λ e.
        drops_keep (filter (ended now) (values b.by_host)) b h l now
          (All-filter (ended now) (Owns b) (values b.by_host) (values-Owns b v))
          (filter-All (ended now) (values b.by_host)) e.0 e.1,
  )
