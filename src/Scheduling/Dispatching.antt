-- ===== src/Scheduling/Dispatching.antt =====
-- Which request `dispatch` serves, and that it meets no missing key on a valid queue.
use llm_home_lab.Base.{
  ℕ, ◌≤◌, ◌<◌, String, ◌≡◌, ◌≢◌, refl, sym, ap, subst, true, false, ◌⊎◌, inl, inr, Option, none,
  some, List, [], ◌∷◌, ◌++◌, ◌∙◌, arith, eq_iff, string_eq, nat_eq, contains, All, All-map,
  Option-cases, Bool-cases,
}
use llm_home_lab.Base.Sorting.{sort, Sorted, sort-All, All-sort, sort-Sorted}
use llm_home_lab.Dict.{Dict, lookup, member, keys}
use llm_home_lab.Dict.Unique.{All-of_lookup}
use llm_home_lab.Registry.{HostRegistry}
use llm_home_lab.Scheduling.{
  QueueEntry, Tier, SchedulingQueue, has_free_capacity, is_other, allowed, Turn, pass, broken,
  serve, turn, Outcome, idle, fault, served, at_turn, scan_sessions, scan_tier, scan_tiers,
  take_entry, Reply, nothing, request, finish, dispatch,
}
use llm_home_lab.Scheduling.Valid.{IsValid, tier_of, rotation_of, take_entry-IsValid}

All-keys : (P : ℕ → Type 0) (d : Dict ℕ Tier) → All (λ (x : ℕ × Tier). P (x.0)) d → All P (keys d)
All-keys P [] h = tt
All-keys P (x ∷ d) h = (h.0, All-keys P d h.1)

All-contains :
    (P : String → Type 0) (xs : List String)
    → ((s : String) → contains xs s ≡ true → P s)
    → All P xs
unfolding contains
All-contains P [] f = tt
All-contains P (x ∷ xs) f =
    (f x (ground (arith, eq_iff x x)), All-contains P xs λ s h. f s (ground arith))

module _ {W : Type 0} (registry : HostRegistry) (world : W) (available : Option (List String))
    (wanted : Option String) where
  -- The session's turn comes to nothing: no host that its first request may use has room.
  abbrev Passed : SchedulingQueue W → ℕ → String → Type 0
  Passed q p s = turn registry world available wanted q (lookup s (tier_of p q)) ≡ pass

  -- The request is the first of its session; the sessions before it in the rotation and the lower
  -- priority numbers had no host with room.
  pub record Chosen (q : SchedulingQueue W) (p : ℕ) (s : String) (e : QueueEntry)
      (rest : List QueueEntry) : Type 0 where
    pub head : lookup s (tier_of p q) ≡ some (e ∷ rest)
    pub room : has_free_capacity registry (allowed registry world available wanted e q) ≡ true
    pub named : is_other wanted e.request_id ≡ false
    pub in_turn :
        (before : List String) × (after : List String) × (rotation_of p q ≡ before ++ s ∷ after)
        × All (Passed q p) before
    pub tiers_before : All (λ j. j < p → All (Passed q j) (rotation_of j q)) (keys q.tiers)

  turn-served :
      (q : SchedulingQueue W) (o : Option (List QueueEntry)) (e : QueueEntry)
      (rest : List QueueEntry)
      → turn registry world available wanted q o ≡ serve e rest
      → (o ≡ some (e ∷ rest))
        × (has_free_capacity registry (allowed registry world available wanted e q) ≡ true)
        × (is_other wanted e.request_id ≡ false)
  unfolding turn
  turn-served q none e rest h = absurd (cc)
  turn-served q (some []) e rest h = absurd (cc)
  turn-served q (some (d ∷ ds)) e rest h = (ground arith, ground arith, ground arith)

  -- A session's turn, or what comes after it.
  at_turn-served :
      (j : ℕ) (t : String) (u : Turn) (later : Outcome) (p : ℕ) (s : String) (e : QueueEntry)
      (rest : List QueueEntry)
      → at_turn registry world available wanted j t u later ≡ served p s e rest
      → ((j ≡ p) × (t ≡ s) × (u ≡ serve e rest)) ⊎ ((u ≡ pass) × (later ≡ served p s e rest))
  at_turn-served j t u later p s e rest h = ground arith

  abbrev Here :
      SchedulingQueue W → ℕ → List String → ℕ → String → QueueEntry → List QueueEntry → Type 0
  Here q j ss p s e rest =
      (j ≡ p)
      × (lookup s (tier_of j q) ≡ some (e ∷ rest))
      × (has_free_capacity registry (allowed registry world available wanted e q) ≡ true)
      × (is_other wanted e.request_id ≡ false)
      × ((before : List String) × (after : List String) × (ss ≡ before ++ s ∷ after)
          × All (Passed q j) before)

  scan_sessions-served :
      (q : SchedulingQueue W) (j : ℕ) (ss : List String) (later : Outcome) (p : ℕ) (s : String)
      (e : QueueEntry) (rest : List QueueEntry)
      → scan_sessions registry world available wanted q j (tier_of j q) ss later ≡ served p s e rest
      → Here q j ss p s e rest ⊎ (All (Passed q j) ss × (later ≡ served p s e rest))
  unfolding scan_sessions
  scan_sessions-served q j [] later p s e rest h = inr (tt, h)
  scan_sessions-served q j (t ∷ ts) later p s e rest h =
      let rest_of = scan_sessions registry world available wanted q j (tier_of j q) ts later in
      elim (at_turn-served j t (turn registry world available wanted q (lookup t (tier_of j q)))
        rest_of p s e rest h) [
          | inl (a, b, c) ↦
              let (x, y, z) = turn-served q (lookup t (tier_of j q)) e rest c in
              inl (
                a,
                subst (λ i. lookup i (tier_of j q) ≡ some (e ∷ rest)) b x,
                y,
                z,
                ([], ts, ap (λ k. k ∷ ts) b, tt),
              )
          | inr (c, l) ↦ elim (scan_sessions-served q j ts later p s e rest l) [
            | inl (a, x, y, z, (before, after, split, all)) ↦
                inl (a, x, y, z, (t ∷ before, after, ap (λ k. t ∷ k) split, (c, all)))
            | inr (all, l') ↦ inr ((c, all), l')
          ]
        ]

  scan_tier_known :
      (q : SchedulingQueue W) (j : ℕ) (later : Outcome)
      → ((r : List String) × (lookup j q.rotations ≡ some r))
      → scan_tier registry world available wanted q j later
        ≡ scan_sessions registry world available wanted q j (tier_of j q) (rotation_of j q) later
  unfolding scan_tier
  scan_tier_known q j later (r, found) = ground (arith, found)

  scan_tiers-served :
      (q : SchedulingQueue W) (ps : List ℕ) (p : ℕ) (s : String) (e : QueueEntry)
      (rest : List QueueEntry)
      → Sorted ps
      → scan_tiers registry world available wanted q ps ≡ served p s e rest
      → Here q p (rotation_of p q) p s e rest
        × All (λ j. j < p → All (Passed q j) (rotation_of j q)) ps
  unfolding scan_tiers scan_tier
  scan_tiers-served q [] p s e rest o h = absurd (cc)
  scan_tiers-served q (j ∷ js) p s e rest o h = elim (Option-cases (lookup j q.rotations)) [
    | inl n ↦ absurd (ground arith)
    | inr (r, found) ↦
        let later = scan_tiers registry world available wanted q js in
        elim (scan_sessions-served q j (rotation_of j q) later p s e rest
          (sym (scan_tier_known q j later (r, found)) ∙ h)) [
            | inl here ↦
                let a = here.0 in
                (
                  (
                    refl,
                    subst (λ i. lookup s (tier_of i q) ≡ some (e ∷ rest)) a here.1,
                    here.2,
                    here.3,
                    subst
                        (λ i.
                          (before : List String) × (after : List String) × (rotation_of i q
                            ≡ before ++ s ∷ after)
                          × All (Passed q i) before)
                        a here.4,
                  ),
                  (
                    (λ less. absurd (omega (arith, a))),
                    All-map (λ m. j ≤ m) (λ m. m < p → All (Passed q m) (rotation_of m q)) js
                        (λ m le less. absurd (omega (arith, a))) o.0,
                  ),
                )
            | inr (all, l) ↦
                let (here, earlier) = scan_tiers-served q js p s e rest o.1 l in
                (here, ((λ less. all), earlier))
          ]
  ]

  scan_sessions-fault :
      (q : SchedulingQueue W) (j : ℕ) (ss : List String) (later : Outcome)
      → All (λ s. turn registry world available wanted q (lookup s (tier_of j q)) ≢ broken) ss
      → later ≢ fault
      → scan_sessions registry world available wanted q j (tier_of j q) ss later ≢ fault
  unfolding scan_sessions
  scan_sessions-fault q j [] later a n h = n h
  scan_sessions-fault q j (t ∷ ts) later a n h =
      ground (arith, scan_sessions-fault q j ts later a.1 n, a.0)

  turn-IsValid :
      (q : SchedulingQueue W) (j : ℕ) (s : String)
      → IsValid q
      → contains (rotation_of j q) s ≡ true
      → turn registry world available wanted q (lookup s (tier_of j q)) ≢ broken
  unfolding member turn
  turn-IsValid q j s v m h = ground (arith, (v.at_tier j).listed s, (v.at_tier j).waiting s)

  scan_tiers-fault :
      (q : SchedulingQueue W) (ps : List ℕ)
      → IsValid q
      → All (λ p. lookup p q.rotations ≢ none) ps
      → scan_tiers registry world available wanted q ps ≢ fault
  unfolding scan_tiers
  scan_tiers-fault q [] v k h = cc
  scan_tiers-fault q (j ∷ js) v k h = elim (Option-cases (lookup j q.rotations)) [
    | inl n ↦ k.0 n
    | inr known ↦
        let later = scan_tiers registry world available wanted q js in
        scan_sessions-fault q j (rotation_of j q) later
          (All-contains
            (λ s. turn registry world available wanted q (lookup s (tier_of j q)) ≢ broken)
            (rotation_of j q) (λ s m. turn-IsValid q j s v m))
          (scan_tiers-fault q js v k.1) (sym (scan_tier_known q j later known) ∙ h)
  ]

  keys_known :
      (q : SchedulingQueue W)
      → IsValid q
      → All (λ p. lookup p q.rotations ≢ none) (sort (keys q.tiers))
  keys_known q v =
      All-sort (λ p. lookup p q.rotations ≢ none) (keys q.tiers)
        (All-keys (λ p. lookup p q.rotations ≢ none) q.tiers
          (All-of_lookup (λ (x : ℕ × Tier). lookup (x.0) q.rotations ≢ none) q.tiers v.unique
            λ p t found n. absurd (ground (arith, v.known p n))))

  abbrev pub Fair : SchedulingQueue W → SchedulingQueue W → Reply → Type 0
  Fair q q' reply =
      IsValid q'
      × (((reply ≡ nothing) × (q' ≡ q))
          ⊎ ((p : ℕ) × (s : String) × (e : QueueEntry) × (rest : List QueueEntry) × (reply
                ≡ request e.request_id)
              × Chosen q p s e rest
              × (q' ≡ take_entry p s e rest q)))

  nothing_changes :
      (q q' : SchedulingQueue W) (reply : Reply)
      → ◌≡◌ {A = Reply × SchedulingQueue W} (nothing, q) (reply, q')
      → (reply ≡ nothing) × (q' ≡ q)
  nothing_changes q q' reply h = (
    ap (λ (x : Reply × SchedulingQueue W). x.0) (sym h),
    ap (λ (x : Reply × SchedulingQueue W). x.1) (sym h),
  )

  finish-IsFair :
      (q q' : SchedulingQueue W) (reply : Reply)
      → IsValid q
      → (o : Outcome) → scan_tiers registry world available wanted q (sort (keys q.tiers)) ≡ o
      → finish q o ≡ (reply, q')
      → Fair q q' reply
  finish-IsFair q q' reply v idle h f =
      let (a, b) = nothing_changes q q' reply f in
      (subst (λ (k : SchedulingQueue W). IsValid k) (sym b) v, inl (a, b))
  finish-IsFair q q' reply v fault h f =
      absurd (scan_tiers-fault q (sort (keys q.tiers)) v (keys_known q v) h)
  finish-IsFair q q' reply v (served p s e rest) h f =
      let (here, earlier) =
        scan_tiers-served q (sort (keys q.tiers)) p s e rest (sort-Sorted (keys q.tiers)) h in
      let result = ap (λ (x : Reply × SchedulingQueue W). x.1) (sym f) in
      (
        subst (λ (k : SchedulingQueue W). IsValid k) (sym result)
            (take_entry-IsValid p s e rest q here.1 v),
        inr (
          p,
          s,
          e,
          rest,
          ap (λ (x : Reply × SchedulingQueue W). x.0) (sym f),
          record {
            head = here.1;
            room = here.2;
            named = here.3;
            in_turn = here.4;
            tiers_before =
                sort-All (λ j. j < p → All (Passed q j) (rotation_of j q)) (keys q.tiers) earlier;
          },
          result,
        ),
      )

  -- On a valid queue `dispatch` raises no error and leaves a valid queue. If it returns a request,
  -- that is the first of its session, some host that it may use has room, it is the one that was
  -- asked for if one was, and every session before it in its rotation and in every tier of a lower
  -- number had no such host; the request alone is taken out. If it returns nothing, nothing changes.
  pub dispatch-IsFair :
      (q q' : SchedulingQueue W) (reply : Reply)
      → IsValid q
      → dispatch registry world available wanted q ≡ (reply, q')
      → IsValid q'
        × (((reply ≡ nothing) × (q' ≡ q))
            ⊎ ((p : ℕ) × (s : String) × (e : QueueEntry) × (rest : List QueueEntry) × (reply
                  ≡ request e.request_id)
                × Chosen q p s e rest
                × (q' ≡ take_entry p s e rest q)))
  unfolding dispatch
  dispatch-IsFair q q' reply v h = elim (Bool-cases (has_free_capacity registry available)) [
    | inl free ↦
        let found = scan_tiers registry world available wanted q (sort (keys q.tiers)) in
        finish-IsFair q q' reply v found refl (ground arith)
    | inr full ↦
        let (a, b) = nothing_changes q q' reply (ground arith) in
        (subst (λ (k : SchedulingQueue W). IsValid k) (sym b) v, inl (a, b))
  ]
