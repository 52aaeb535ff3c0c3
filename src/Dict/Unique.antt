-- ===== src/Dict/Unique.antt =====
-- No dictionary has two entries of one key.
use llm_home_lab.Base.{◌≡◌, refl, none, some, [], ◌∷◌, Equality, All, arith}
use llm_home_lab.Dict.{Dict, lookup, insert, remove, lookup-insert, lookup-remove}

module _ {ℓ κ} {K : Type ℓ} {V : Type κ} ⦃e : Equality K⦄ where
  abbrev pub Unique : Dict K V → Type κ
  Unique [] = Unit
  Unique ((k, v) ∷ d) = (lookup k d ≡ none) × Unique d

  pub Unique-insert : (k : K) (v : V) (d : Dict K V) → Unique d → Unique (insert k v d)
  unfolding insert lookup
  Unique-insert k v [] u = (refl, tt)
  Unique-insert k v ((j, w) ∷ d) u =
      ground (arith, Unique-insert k v d u.1, lookup-insert k j v d, e.agrees j k, e.agrees k j)

  pub Unique-remove : (k : K) (d : Dict K V) → Unique d → Unique (remove k d)
  unfolding remove
  Unique-remove k [] u = tt
  Unique-remove k ((j, w) ∷ d) u = ground (arith, Unique-remove k d u.1, lookup-remove k j d)

  -- What holds of every key that is found holds of every entry.
  pub All-of_lookup {μ} :
      (P : K × V → Type μ) (d : Dict K V)
      → Unique d
      → ((k : K) (v : V) → lookup k d ≡ some v → P (k, v))
      → All P d
  unfolding lookup
  All-of_lookup P [] u h = tt
  All-of_lookup P ((k, v) ∷ d) u h = (
    h k v (ground (arith, e.agrees k k)),
    All-of_lookup P d u.1 λ j w found. h j w (ground (arith, e.agrees k j)),
  )
