-- ===== src/Scheduling/Valid.antt =====
-- Every call keeps the queue valid: tiers and rotations in step, and `dispatch` meets no missing key.
use llm_home_lab.Base.{
  ℕ, String, ◌≡◌, ◌≢◌, refl, subst, Bool, true, not, Option, none, some, List, [], ◌∷◌, ◌++◌, arith,
  string_eq, nat_eq, nat_beq_iff, ◌==◌, if◌then◌else◌, filter, length, Option-cases, Bool-cases,
  inl, inr,
}
use llm_home_lab.Dict.{Dict, lookup, insert, remove, member, lookup-insert}
use llm_home_lab.Dict.Unique.{Unique, Unique-insert}
use llm_home_lab.Scheduling.{
  QueueEntry, Tier, SchedulingQueue, empty, or_empty, add_entry, add_session, add_eligibility,
  enqueue, remove_first, set_entries, cancel_in, cancel, rotate, left_tier, take_entry,
}
use llm_home_lab.Scheduling.Tiers.{
  TierValid, TierValid-empty, TierValid-add, TierValid-set, TierValid-drop, TierValid-serve,
}

abbrev pub tier_of : {W : Type 0} → ℕ → SchedulingQueue W → Tier
tier_of p q = or_empty (lookup p q.tiers)

abbrev pub rotation_of : {W : Type 0} → ℕ → SchedulingQueue W → List String
rotation_of p q = or_empty (lookup p q.rotations)

pub record IsValid {W : Type 0} (q : SchedulingQueue W) : Type 0 where
  pub unique : Unique q.tiers
  pub at_tier : (p : ℕ) → TierValid (tier_of p q) (rotation_of p q)
  pub known : (p : ℕ) → lookup p q.rotations ≡ none → lookup p q.tiers ≡ none

or_empty-insert :
    {A : Type 0} (k j : ℕ) (xs : List A) (d : Dict ℕ (List A))
    → or_empty (lookup j (insert k xs d)) ≡ (if k == j then xs else or_empty (lookup j d))
or_empty-insert k j xs d = ground (arith, lookup-insert k j xs d)

-- A queue with one tier and its rotation replaced.
abbrev replaced : {W : Type 0} → ℕ → Tier → List String → SchedulingQueue W → SchedulingQueue W
replaced p tier rotation q = record q {
  tiers = insert p tier q.tiers;
  rotations = insert p rotation q.rotations;
}

replaced-IsValid :
    {W : Type 0} (p : ℕ) (tier : Tier) (rotation : List String) (q : SchedulingQueue W)
    → TierValid tier rotation
    → IsValid q
    → IsValid (replaced p tier rotation q)
replaced-IsValid p tier rotation q t v = record {
  unique = Unique-insert p tier q.tiers v.unique;
  at_tier = λ j.
      rw (or_empty-insert p j tier q.tiers, or_empty-insert p j rotation q.rotations)
        (elim (Bool-cases (p == j)) [ inl same ↦ rw same t | inr other ↦ rw other (v.at_tier j) ]);
  known = λ j n.
      ground
        (arith, lookup-insert p j tier q.tiers, lookup-insert p j rotation q.rotations, v.known j);
}

-- A tier replaced under the rotation that stands.
kept-IsValid :
    {W : Type 0} (p : ℕ) (tier : Tier) (q : SchedulingQueue W)
    → TierValid tier (rotation_of p q)
    → lookup p q.rotations ≢ none
    → IsValid q
    → IsValid (record q { tiers = insert p tier q.tiers })
kept-IsValid p tier q t k v = record {
  unique = Unique-insert p tier q.tiers v.unique;
  at_tier = λ j. rw (or_empty-insert p j tier q.tiers) (elim (Bool-cases (p == j)) [
    | inl same ↦
        rw same (subst (λ i. TierValid tier (rotation_of i q)) ((nat_beq_iff p j).0 same) t)
    | inr other ↦ rw other (v.at_tier j)
  ]);
  known = λ j n. ground (arith, lookup-insert p j tier q.tiers, v.known j, nat_beq_iff p j);
}

pub empty-IsValid : {W : Type 0} → IsValid (empty {W = W})
unfolding lookup
empty-IsValid = record { unique = tt; at_tier = λ p. TierValid-empty; known = λ p n. refl }

-- The eligibility callbacks do not matter to validity.
forget-IsValid :
    {W : Type 0} (q : SchedulingQueue W) (d : Dict String (W → List String))
    → IsValid q
    → IsValid (record q { eligibility = d })
forget-IsValid q d v = record { unique = v.unique; at_tier = v.at_tier; known = v.known }

-- A tier with a session has a rotation.
rotations_known :
    {W : Type 0} (p : ℕ) (s : String) (q : SchedulingQueue W)
    → IsValid q
    → member s (tier_of p q) ≡ true
    → lookup p q.rotations ≢ none
unfolding member lookup
rotations_known p s q v m n = ground (arith, v.known p n)

pub enqueue-IsValid :
    {W : Type 0} (entry : QueueEntry) (eligible : Option (W → List String)) (q : SchedulingQueue W)
    → IsValid q
    → IsValid (enqueue entry eligible q)
unfolding enqueue add_session
enqueue-IsValid entry eligible q v =
    let p = entry.priority in
    let t = tier_of p q in
    let added = TierValid-add t (rotation_of p q) (v.at_tier p) entry in
    elim (Bool-cases (member entry.session_id t)) [
      | inl old ↦ rw old (
          forget-IsValid (record q { tiers = insert p (add_entry entry t) q.tiers })
            (add_eligibility entry.request_id eligible q.eligibility)
            (kept-IsValid p (add_entry entry t) q
              (subst
                (λ (b : Bool).
                  TierValid (add_entry entry t)
                    (if b then rotation_of p q else rotation_of p q ++ entry.session_id ∷ []))
                old added)
              (rotations_known p entry.session_id q v old) v))
      | inr new ↦ rw new (
          forget-IsValid
            (replaced p (add_entry entry t) (rotation_of p q ++ entry.session_id ∷ []) q)
            (add_eligibility entry.request_id eligible q.eligibility)
            (replaced-IsValid p (add_entry entry t) (rotation_of p q ++ entry.session_id ∷ []) q
              (subst
                (λ (b : Bool).
                  TierValid (add_entry entry t)
                    (if b then rotation_of p q else rotation_of p q ++ entry.session_id ∷ []))
                new added)
              v))
    ]

set_entries-IsValid :
    {W : Type 0} (p : ℕ) (s : String) (es : List QueueEntry) (q : SchedulingQueue W)
    → member s (tier_of p q) ≡ true
    → IsValid q
    → IsValid (set_entries p s (tier_of p q) es q)
unfolding set_entries
set_entries-IsValid p s (e ∷ es) q m v =
    kept-IsValid p (insert s (e ∷ es) (tier_of p q)) q
      (TierValid-set (tier_of p q) (rotation_of p q) (v.at_tier p) s e es m)
      (rotations_known p s q v m) v
set_entries-IsValid p s [] q m v = elim (Option-cases (lookup p q.rotations)) [
  | inl n ↦ absurd (rotations_known p s q v m n)
  | inr (r, found) ↦ rw found (
      replaced-IsValid p (remove s (tier_of p q)) (remove_first s r) q
        (subst
          (λ (o : Option (List String)).
            TierValid (remove s (tier_of p q)) (remove_first s (or_empty o)))
          found (TierValid-drop (tier_of p q) (rotation_of p q) (v.at_tier p) s))
        v)
]

pub cancel-IsValid :
    {W : Type 0} (request_id session_id : String) (p : ℕ) (q : SchedulingQueue W)
    → IsValid q
    → IsValid (cancel request_id session_id p q)
unfolding cancel member cancel_in
cancel-IsValid request_id s p q v =
    let d = remove request_id q.eligibility in
    let w = forget-IsValid q d v in
    elim (Option-cases (lookup p q.tiers)) [
      | inl n ↦ rw (cancel, n) w
      | inr (t, found) ↦ elim (Option-cases (lookup s t)) [
        | inl n ↦ rw (cancel, found, n) w
        | inr (es, here) ↦
            let left = filter (λ (e : QueueEntry). not (e.request_id == request_id)) es in
            let set =
              subst
                (λ (o : Option Tier).
                  IsValid (set_entries p s (or_empty o) left (record q { eligibility = d })))
                found
                (set_entries-IsValid p s left (record q { eligibility = d })
                  (rw (member, found, here) refl) w) in
            elim (Bool-cases (length left == length es)) [
              | inl none_left ↦ rw (cancel, found, here, cancel_in, none_left) w
              | inr fewer ↦ rw (cancel, found, here, cancel_in, fewer) set
            ]
      ]
    ]

pub take_entry-IsValid :
    {W : Type 0} (p : ℕ) (s : String) (e : QueueEntry) (rest : List QueueEntry)
    (q : SchedulingQueue W)
    → lookup s (tier_of p q) ≡ some (e ∷ rest)
    → IsValid q
    → IsValid (take_entry p s e rest q)
unfolding take_entry member
take_entry-IsValid p s e rest q here v =
    let t = left_tier s rest (tier_of p q) in
    let r = rotate s rest (rotation_of p q) in
    forget-IsValid (replaced p t r q) (remove e.request_id q.eligibility) (
      replaced-IsValid p t r q
        (TierValid-serve (tier_of p q) (rotation_of p q) (v.at_tier p) s rest
          (rw (member, here) refl))
        v)
