-- ===== src/Base/Compound.antt =====
-- Equality of lists, options and integers, from that of their parts.
use mathlib.Core.Path.{◌≡◌}
use mathlib.Core.Logic.{◌↔◌}
use mathlib.Core.Bool.{Bool, true, false, ◌&&◌}
use mathlib.Core.Option.{Option, none, some}
use mathlib.Core.List.{List, [], ◌∷◌}
use native.Mathlib.Omega.{arith}
use llm_home_lab.Base.Tests.{Equality, nat_eq, ◌==◌}
use llm_home_lab.Base.Int.{ℤ, pos, negsuc}

module _ {A : Type 0} ⦃e : Equality A⦄ where
  abbrev pub list_same : List A → List A → Bool
  list_same [] [] = true
  list_same [] (y ∷ ys) = false
  list_same (x ∷ xs) [] = false
  list_same (x ∷ xs) (y ∷ ys) = x == y && list_same xs ys

  pub list_same_iff : (xs ys : List A) → (list_same xs ys ≡ true) ↔ (xs ≡ ys)
  list_same_iff [] [] = ground arith
  list_same_iff [] (y ∷ ys) = ground arith
  list_same_iff (x ∷ xs) [] = ground arith
  list_same_iff (x ∷ xs) (y ∷ ys) = ground (arith, e.agrees x y, list_same_iff xs ys)

  instance abbrev pub list_eq : Equality (List A)
  list_eq = record { same = list_same; agrees = list_same_iff }

  abbrev pub option_same : Option A → Option A → Bool
  option_same none none = true
  option_same none (some y) = false
  option_same (some x) none = false
  option_same (some x) (some y) = x == y

  pub option_same_iff : (x y : Option A) → (option_same x y ≡ true) ↔ (x ≡ y)
  option_same_iff none none = ground arith
  option_same_iff none (some y) = ground arith
  option_same_iff (some x) none = ground arith
  option_same_iff (some x) (some y) = ground (arith, e.agrees x y)

  instance abbrev pub option_eq : Equality (Option A)
  option_eq = record { same = option_same; agrees = option_same_iff }

abbrev pub int_same : ℤ → ℤ → Bool
int_same (pos a) (pos b) = a == b
int_same (pos a) (negsuc b) = false
int_same (negsuc a) (pos b) = false
int_same (negsuc a) (negsuc b) = a == b

pub int_same_iff : (a b : ℤ) → (int_same a b ≡ true) ↔ (a ≡ b)
int_same_iff (pos a) (pos b) = ground arith
int_same_iff (pos a) (negsuc b) = ground arith
int_same_iff (negsuc a) (pos b) = ground arith
int_same_iff (negsuc a) (negsuc b) = ground arith

instance abbrev pub int_eq : Equality ℤ
int_eq = record { same = int_same; agrees = int_same_iff }
