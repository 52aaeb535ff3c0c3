-- ===== src/Scheduling/Tiers.antt =====
-- A tier and its rotation hold the same sessions, each session once and with a waiting request.
use llm_home_lab.Base.{
  String, ◌≡◌, ◌≢◌, refl, true, false, ◌||◌, some, List, [], ◌∷◌, ◌++◌, arith, eq_iff, string_eq,
  Equality, ◌==◌, if◌then◌else◌, contains,
}
use llm_home_lab.Dict.{Dict, lookup, insert, remove, member, lookup-insert, lookup-remove}
use llm_home_lab.Dict.Unique.{Unique, Unique-insert, Unique-remove}
use llm_home_lab.Scheduling.{QueueEntry, Tier, or_empty, add_entry, remove_first, rotate, left_tier}

abbrev pub Distinct : List String → Type 0
Distinct [] = Unit
Distinct (x ∷ xs) = (contains xs x ≡ false) × Distinct xs

contains-append :
    (xs ys : List String) (s : String) → contains (xs ++ ys) s ≡ (contains xs s || contains ys s)
unfolding contains
contains-append [] ys s = refl
contains-append (x ∷ xs) ys s = ground (arith, contains-append xs ys s)

contains_one : (s t : String) → contains (s ∷ []) t ≡ (s == t)
unfolding contains
contains_one s t = ground arith

contains-remove_first :
    (xs : List String) (s t : String)
    → Distinct xs
    → contains (remove_first s xs) t ≡ (if s == t then false else contains xs t)
unfolding contains remove_first
contains-remove_first [] s t d = ground arith
contains-remove_first (x ∷ xs) s t d =
    ground (arith, contains-remove_first xs s t d.1, eq_iff x s, eq_iff s t, eq_iff x t)

Distinct-remove_first : (xs : List String) (s : String) → Distinct xs → Distinct (remove_first s xs)
unfolding remove_first
Distinct-remove_first [] s d = tt
Distinct-remove_first (x ∷ xs) s d =
    ground (arith, Distinct-remove_first xs s d.1, contains-remove_first xs s x d.1)

Distinct-snoc :
    (xs : List String) (s : String) → Distinct xs → contains xs s ≡ false → Distinct (xs ++ s ∷ [])
unfolding contains
Distinct-snoc [] s d n = (refl, tt)
Distinct-snoc (x ∷ xs) s d n =
    ground (arith, Distinct-snoc xs s d.1, contains-append xs (s ∷ []) x, eq_iff s x, eq_iff x s)

module _ {ℓ κ} {K : Type ℓ} {V : Type κ} ⦃e : Equality K⦄ where
  pub member-insert :
      (k j : K) (v : V) (d : Dict K V) → member j (insert k v d) ≡ (k == j || member j d)
  unfolding member
  member-insert k j v d = ground (arith, lookup-insert k j v d)

  pub member-remove :
      (k j : K) (d : Dict K V) → member j (remove k d) ≡ (if k == j then false else member j d)
  unfolding member
  member-remove k j d = ground (arith, lookup-remove k j d)

pub record TierValid (tier : Tier) (rotation : List String) : Type 0 where
  pub unique : Unique tier
  pub distinct : Distinct rotation
  pub listed : (s : String) → contains rotation s ≡ member s tier
  pub waiting : (s : String) → lookup s tier ≢ some []

pub TierValid-empty : TierValid [] []
unfolding contains member lookup
TierValid-empty = record { unique = tt; distinct = tt; listed = λ s. refl; waiting = λ s e. cc }

append-ne-nil : {A : Type 0} (xs : List A) (x : A) → xs ++ x ∷ [] ≢ []
append-ne-nil [] x e = cc
append-ne-nil (y ∷ ys) x e = cc

module _ (tier : Tier) (rotation : List String) (v : TierValid tier rotation) where
  pub TierValid-add :
      (entry : QueueEntry)
      → TierValid
          (add_entry entry tier)
          (if member entry.session_id tier then rotation else rotation ++ entry.session_id ∷ [])
  unfolding add_entry
  TierValid-add entry =
      let s = entry.session_id in
      let es = or_empty (lookup s tier) ++ entry ∷ [] in
      record {
        unique = Unique-insert s es tier v.unique;
        distinct = ground (arith, v.distinct, v.listed s, Distinct-snoc rotation s);
        listed = λ t. ground (
          arith,
          v.listed t,
          member-insert s t es tier,
          contains-append rotation (s ∷ []) t,
          eq_iff s t,
          contains_one s t,
        );
        waiting = λ t e. ground (
          arith,
          v.waiting t,
          lookup-insert s t es tier,
          append-ne-nil (or_empty (lookup s tier)) entry,
        );
      }

  -- A session whose queue stays filled.
  pub TierValid-set :
      (s : String) (e : QueueEntry) (es : List QueueEntry)
      → member s tier ≡ true
      → TierValid (insert s (e ∷ es) tier) rotation
  TierValid-set s e es m = record {
    unique = Unique-insert s (e ∷ es) tier v.unique;
    distinct = v.distinct;
    listed =
        λ t. ground (arith, v.listed t, v.listed s, member-insert s t (e ∷ es) tier, eq_iff s t);
    waiting = λ t f. ground (arith, v.waiting t, lookup-insert s t (e ∷ es) tier);
  }

  -- A session that leaves.
  pub TierValid-drop : (s : String) → TierValid (remove s tier) (remove_first s rotation)
  TierValid-drop s = record {
    unique = Unique-remove s tier v.unique;
    distinct = Distinct-remove_first rotation s v.distinct;
    listed = λ t.
        ground (
          arith,
          v.listed t,
          member-remove s t tier,
          contains-remove_first rotation s t v.distinct,
        );
    waiting = λ t f. ground (arith, v.waiting t, lookup-remove s t tier);
  }

  -- A served session goes to the end, or leaves.
  pub TierValid-serve :
      (s : String) (rest : List QueueEntry)
      → member s tier ≡ true
      → TierValid (left_tier s rest tier) (rotate s rest rotation)
  unfolding left_tier rotate
  TierValid-serve s [] m = TierValid-drop s
  TierValid-serve s (e ∷ es) m = record {
    unique = Unique-insert s (e ∷ es) tier v.unique;
    distinct =
        Distinct-snoc (remove_first s rotation) s (Distinct-remove_first rotation s v.distinct)
          (ground (arith, contains-remove_first rotation s s v.distinct, eq_iff s s));
    listed = λ t. ground (
      arith,
      v.listed t,
      member-insert s t (e ∷ es) tier,
      contains-append (remove_first s rotation) (s ∷ []) t,
      contains_one s t,
      contains-remove_first rotation s t v.distinct,
      eq_iff s t,
    );
    waiting = λ t f. ground (arith, v.waiting t, lookup-insert s t (e ∷ es) tier);
  }
