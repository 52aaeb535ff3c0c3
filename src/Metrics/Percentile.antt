-- ===== src/Metrics/Percentile.antt =====
-- The nearest-rank percentile: which of the values it is.
use llm_home_lab.Base.{
  ℕ, ◌+◌, ◌-◌, ◌*◌, ◌/◌, ◌≤◌, ◌<◌, min, ◌≡◌, refl, ap, ◌∙◌, Bool, false, inl, inr, List, [], ◌∷◌,
  arith, leb, ltb, ◌==◌, nat_eq, if◌then◌else◌, count, length, All, All-map, All-In, In, Bool-cases,
}
use llm_home_lab.Base.Sorting.{sort, insert_ℕ, Sorted, sort-Sorted}
use llm_home_lab.Metrics.Snapshot.{ok, at_index, percentile}

module _ (p : ℕ → Bool) where
  count-insert : (n : ℕ) (ns : List ℕ) → count p (insert_ℕ n ns) ≡ count p (n ∷ ns)
  unfolding insert_ℕ count
  count-insert n [] = refl
  count-insert n (m ∷ ms) = ground (arith, count-insert n ms)

  pub count-sort : (ns : List ℕ) → count p (sort ns) ≡ count p ns
  unfolding sort count
  count-sort [] = refl
  count-sort (n ∷ ns) =
      count-insert n (sort ns) ∙ ap (λ c. (if p n then 1 else 0) + c) (count-sort ns)

  count-All : (ns : List ℕ) → All (λ n. p n ≡ false) ns → count p ns ≡ 0
  unfolding count
  count-All [] h = refl
  count-All (n ∷ ns) h = ground (arith, count-All ns h.1)

length-insert : (n : ℕ) (ns : List ℕ) → length (insert_ℕ n ns) ≡ length ns + 1
unfolding insert_ℕ
length-insert n [] = omega arith
length-insert n (m ∷ ms) = ground (arith, length-insert n ms)

length-sort : (ns : List ℕ) → length (sort ns) ≡ length ns
unfolding sort
length-sort [] = refl
length-sort (n ∷ ns) = omega (arith, length-insert n (sort ns), length-sort ns)

insert-In : (x n : ℕ) (ns : List ℕ) → In x (insert_ℕ n ns) → In x (n ∷ ns)
unfolding insert_ℕ
insert-In x n [] h = h
insert-In x n (m ∷ ms) h = ground (arith, insert-In x n ms)

sort-In : (x : ℕ) (ns : List ℕ) → In x (sort ns) → In x ns
unfolding sort
sort-In x [] h = h
sort-In x (n ∷ ns) h = ground (arith, insert-In x n (sort ns) h, sort-In x ns)

-- Where the value at an index of a sorted list stands among the values.
at_index-Sorted :
    (vs : List ℕ) (i : ℕ)
    → Sorted vs
    → i < length vs
    → (v : ℕ) × (at_index vs i ≡ ok v)
      × In v vs
      × (i + 1 ≤ count (λ x. leb x v) vs)
      × (count (λ x. ltb x v) vs ≤ i)
unfolding at_index count
at_index-Sorted [] i s h = absurd (omega arith)
at_index-Sorted (w ∷ ws) i s h = elim (Bool-cases (i == 0)) [
  | inl first ↦ (
    w,
    rw (at_index, first) refl,
    inl refl,
    ground arith,
    let none_below =
          count-All (λ x. ltb x w) ws
            (All-map (λ x. w ≤ x) (λ x. ltb x w ≡ false) ws (λ x k. ground arith) s.0) in
        ground (arith, none_below),
  )
  | inr later ↦
      let (v, found, member, low, high) = at_index-Sorted ws (i - 1) s.1 (ground arith) in
      let above = All-In (λ x. w ≤ x) v ws s.0 member in
      (
        v,
        rw (at_index, later) found,
        inr member,
        ground (arith, low, above),
        ground (arith, high, above),
      )
]

-- The 95th percentile of values, of which there is one at least, is one of them; at least 95 in a
-- hundred of the values are at most it, and fewer than 95 in a hundred are below it.
pub percentile-nearest_rank :
    (v : ℕ) (vs : List ℕ)
    → (p : ℕ) × (percentile (v ∷ vs) 95 ≡ ok p)
      × In p (v ∷ vs)
      × (95 * length (v ∷ vs) ≤ 100 * count (λ x. leb x p) (v ∷ vs))
      × (100 * count (λ x. ltb x p) (v ∷ vs) < 95 * length (v ∷ vs))
unfolding percentile
percentile-nearest_rank v vs =
    let n = length (v ∷ vs) in
    let i = min ((95 * length (sort (v ∷ vs)) + 99) / 100 - 1) (length (sort (v ∷ vs)) - 1) in
    let same = length-sort (v ∷ vs) in
    let (p, found, member, low, high) =
      at_index-Sorted (sort (v ∷ vs)) i (sort-Sorted (v ∷ vs)) (omega (arith, same)) in
    (
      p,
      found,
      sort-In p (v ∷ vs) member,
      omega (arith, low, same, count-sort (λ x. leb x p) (v ∷ vs)),
      omega (arith, high, same, count-sort (λ x. ltb x p) (v ∷ vs)),
    )
