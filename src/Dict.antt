-- ===== src/Dict.antt =====
-- Python's `dict` as a list of entries in insertion order: an assignment to a present key writes in
-- place, a new key goes to the end, and a deletion takes every entry of the key out (there is one).
pub mod Unique
use llm_home_lab.Base.{
  ◌≡◌, refl, Option, none, some, List, [], ◌∷◌, map, Bool, true, false, Equality, ◌==◌,
  if◌then◌else◌, All, arith,
}

abbrev pub Dict {ℓ κ} : Type ℓ → Type κ → Type (ℓ ⊔ κ)
Dict K V = List (K × V)

module _ {ℓ κ} {K : Type ℓ} {V : Type κ} ⦃e : Equality K⦄ where
  -- `d.get(k)`
  unfoldable pub lookup : K → Dict K V → Option V
  lookup k [] = none
  lookup k ((j, v) ∷ d) = if j == k then some v else lookup k d

  -- `d[k] = v`
  unfoldable pub insert : K → V → Dict K V → Dict K V
  insert k v [] = (k, v) ∷ []
  insert k v ((j, w) ∷ d) = if j == k then (j, v) ∷ d else (j, w) ∷ insert k v d

  -- `d.pop(k, None)`
  unfoldable pub remove : K → Dict K V → Dict K V
  remove k [] = []
  remove k ((j, w) ∷ d) = let rest = remove k d in if j == k then rest else (j, w) ∷ rest

  -- `k in d`
  unfoldable pub member : K → Dict K V → Bool
  unfolding lookup
  member k d = elim (lookup k d) [ none ↦ false | some _ ↦ true ]

  pub lookup-insert :
      (k j : K) (v : V) (d : Dict K V)
      → lookup j (insert k v d) ≡ (if k == j then some v else lookup j d)
  unfolding lookup insert
  lookup-insert k j v [] = refl
  lookup-insert k j v ((i, w) ∷ d) =
      ground (arith, e.agrees k j, e.agrees i k, e.agrees i j, lookup-insert k j v d)

  pub lookup-remove :
      (k j : K) (d : Dict K V) → lookup j (remove k d) ≡ (if k == j then none else lookup j d)
  unfolding lookup remove
  lookup-remove k j [] = ground arith
  lookup-remove k j ((i, w) ∷ d) =
      ground (arith, e.agrees k j, e.agrees i k, e.agrees i j, lookup-remove k j d)

  pub lookup-empty : (k : K) → lookup k [] ≡ none
  unfolding lookup
  lookup-empty k = refl

  pub member-lookup : (k : K) (d : Dict K V) → member k d ≡ true → lookup k d ≡ none → true ≡ false
  unfolding member
  member-lookup k d h n = ground arith

  -- A predicate of all entries holds of what a lookup finds.
  pub All-lookup {μ} :
      (P : K × V → Type μ) (k : K) (d : Dict K V) (v : V) → All P d → lookup k d ≡ some v → P (k, v)
  unfolding lookup
  All-lookup P k [] v h found = absurd (cc)
  All-lookup P k ((j, w) ∷ d) v h found = ground (arith, e.agrees j k, h.0, All-lookup P k d v h.1)

module _ {ℓ κ} {K : Type ℓ} {V : Type κ} where
  abbrev pub keys : Dict K V → List K
  keys = map (λ p. p.0)

  abbrev pub values : Dict K V → List V
  values = map (λ p. p.1)

pub ruleset dict_laws = (lookup-insert, lookup-remove, lookup-empty)
