-- ===== src/State/Messages.antt =====
-- The numbers of the rows of a session grow in the order of insertion, so each is used once.
use llm_home_lab.Base.{
  ℕ, ◌+◌, ◌≤◌, ◌<◌, String, ◌≡◌, refl, Bool, false, ◌&&◌, List, [], ◌∷◌, ◌++◌, arith, eq_iff,
  string_eq, nat_eq, ◌==◌, filter, any, All, All-map, All-append, All-filter,
}
use llm_home_lab.State.{Row, max_seq, or_zero, insert_row, order_by_seq, insert_next, ok}

module _ {A : Type 0} where
  abbrev pub Increasing : List (Row A) → Type 0
  Increasing [] = Unit
  Increasing (r ∷ rs) =
      All (λ s. s.of_session ≡ r.of_session → r.number < s.number) rs × Increasing rs

  pub max_seq-bound :
      (id : String) (rs : List (Row A))
      → All (λ r. r.of_session ≡ id → r.number ≤ or_zero (max_seq id rs)) rs
  unfolding max_seq
  max_seq-bound id [] = tt
  max_seq-bound id (r ∷ rs) = (
    (λ e. ground (arith, eq_iff r.of_session id, e)),
    All-map (λ s. s.of_session ≡ id → s.number ≤ or_zero (max_seq id rs))
        (λ s. s.of_session ≡ id → s.number ≤ or_zero (max_seq id (r ∷ rs))) rs
        (λ s h e. ground (arith, h e)) (max_seq-bound id rs),
  )

  Increasing-snoc :
      (rs : List (Row A)) (r : Row A)
      → Increasing rs
      → All (λ s. r.of_session ≡ s.of_session → s.number < r.number) rs
      → Increasing (rs ++ r ∷ [])
  Increasing-snoc [] r i a = (tt, tt)
  Increasing-snoc (s ∷ rs) r i a = (
    All-append (λ t. t.of_session ≡ s.of_session → s.number < t.number) rs (r ∷ []) i.0 (a.0, tt),
    Increasing-snoc rs r i.1 a.1,
  )

  pub Increasing-filter :
      (p : Row A → Bool) (rs : List (Row A)) → Increasing rs → Increasing (filter p rs)
  unfolding filter
  Increasing-filter p [] i = tt
  Increasing-filter p (r ∷ rs) i = ground (
    arith,
    Increasing-filter p rs i.1,
    All-filter p (λ s. s.of_session ≡ r.of_session → r.number < s.number) rs i.0,
  )

  unused :
      (id : String) (n : ℕ) (rs : List (Row A))
      → All (λ r. r.of_session ≡ id → r.number < n) rs
      → any (λ r. r.of_session == id && r.number == n) rs ≡ false
  unfolding any
  unused id n [] a = refl
  unused id n (r ∷ rs) a = ground (arith, unused id n rs a.1, a.0, eq_iff r.of_session id)

  -- The next number is free, and the rows stay increasing.
  pub insert_next_lem :
      (id : String) (a : A) (rs : List (Row A))
      → Increasing rs
      → (insert_next id a rs
          ≡ ok (
              rs
              ++ record { of_session = id; number = or_zero (max_seq id rs) + 1; columns = a }
                ∷ []))
        × Increasing (
            rs
            ++ record { of_session = id; number = or_zero (max_seq id rs) + 1; columns = a } ∷ [])
  unfolding insert_next
  insert_next_lem id a rs i =
      let n = or_zero (max_seq id rs) + 1 in
      let below =
        All-map (λ (r : Row A). r.of_session ≡ id → r.number ≤ or_zero (max_seq id rs))
          (λ r. r.of_session ≡ id → r.number < n) rs (λ r h e. omega (arith, h e))
          (max_seq-bound id rs) in
      (
        rw (unused id n rs below) refl,
        Increasing-snoc rs (record { of_session = id; number = n; columns = a }) i
            (All-map (λ (r : Row A). r.of_session ≡ id → r.number < n)
              (λ r. id ≡ r.of_session → r.number < n) rs (λ r h e. ground (arith, h)) below),
      )

  -- Rows of one session that grow are in the order of their numbers.
  pub order_by_seq_lem :
      (id : String) (rs : List (Row A))
      → Increasing rs
      → All (λ r. r.of_session ≡ id) rs
      → order_by_seq rs ≡ rs
  unfolding order_by_seq insert_row
  order_by_seq_lem id [] i a = refl
  order_by_seq_lem id (r ∷ []) i a = refl
  order_by_seq_lem id (r ∷ s ∷ rs) i a =
      ground (arith, order_by_seq_lem id (s ∷ rs) i.1 a.1, i.0.0, a.0, a.1.0)
