-- ===== src/Base/Sorting.antt =====
-- Python's `sorted` on numbers.
use Prim.Native.Nat.{ℕ, ◌≤◌}
use mathlib.Core.Logic.{inl, inr}
use mathlib.Core.List.{List, [], ◌∷◌}
use native.Mathlib.Omega.{arith}
use llm_home_lab.Base.Tests.{leb, if◌then◌else◌, Bool-cases}
use llm_home_lab.Base.Lists.{All, All-map}

unfoldable pub insert_ℕ : ℕ → List ℕ → List ℕ
insert_ℕ n [] = n ∷ []
insert_ℕ n (m ∷ ms) = if leb n m then n ∷ m ∷ ms else m ∷ insert_ℕ n ms

-- `sorted(self._tiers)`
unfoldable pub sort : List ℕ → List ℕ
unfolding insert_ℕ
sort [] = []
sort (n ∷ ns) = insert_ℕ n (sort ns)

abbrev pub Sorted : List ℕ → Type 0
Sorted [] = Unit
Sorted (n ∷ ns) = All (λ m. n ≤ m) ns × Sorted ns

pub All-insert : (P : ℕ → Type 0) (n : ℕ) (ns : List ℕ) → P n → All P ns → All P (insert_ℕ n ns)
unfolding insert_ℕ
All-insert P n [] h k = (h, tt)
All-insert P n (m ∷ ms) h k = ground (arith, All-insert P n ms h k.1)

pub insert-All : (P : ℕ → Type 0) (n : ℕ) (ns : List ℕ) → All P (insert_ℕ n ns) → P n × All P ns
unfolding insert_ℕ
insert-All P n [] h = h
insert-All P n (m ∷ ms) h = ground (arith, insert-All P n ms)

pub sort-All : (P : ℕ → Type 0) (ns : List ℕ) → All P (sort ns) → All P ns
unfolding sort
sort-All P [] h = tt
sort-All P (n ∷ ns) h = let (a, b) = insert-All P n (sort ns) h in (a, sort-All P ns b)

pub All-sort : (P : ℕ → Type 0) (ns : List ℕ) → All P ns → All P (sort ns)
unfolding sort
All-sort P [] h = tt
All-sort P (n ∷ ns) h = All-insert P n (sort ns) h.0 (All-sort P ns h.1)

pub insert-Sorted : (n : ℕ) (ns : List ℕ) → Sorted ns → Sorted (insert_ℕ n ns)
unfolding insert_ℕ
insert-Sorted n [] s = (tt, tt)
insert-Sorted n (m ∷ ms) s = elim (Bool-cases (leb n m)) [
  | inl low ↦
      rw low ((ground arith, All-map (λ i. m ≤ i) (λ i. n ≤ i) ms (λ i h. ground arith) s.0), s)
  | inr high ↦ rw high (All-insert (λ i. m ≤ i) n ms (ground arith) s.0, insert-Sorted n ms s.1)
]

pub sort-Sorted : (ns : List ℕ) → Sorted (sort ns)
unfolding sort
sort-Sorted [] = tt
sort-Sorted (n ∷ ns) = insert-Sorted n (sort ns) (sort-Sorted ns)
