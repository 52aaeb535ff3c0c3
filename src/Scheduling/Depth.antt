-- ===== src/Scheduling/Depth.antt =====
-- The depth of the queue over its calls.
use llm_home_lab.Base.{
  ℕ, ◌+◌, String, ◌≡◌, refl, ap, ◌⊎◌, inl, inr, some, Option, List, [], ◌∷◌, ◌++◌, arith, eq_iff,
  string_eq, nat_eq, length, length-append,
}
use llm_home_lab.Dict.{Dict, lookup, insert, remove}
use llm_home_lab.Dict.Unique.{Unique}
use llm_home_lab.Registry.{HostRegistry}
use llm_home_lab.Scheduling.{
  QueueEntry, Tier, SchedulingQueue, empty, or_empty, add_entry, enqueue, cancel, tier_depth,
  tiers_depth, depth, left_tier, take_entry, Reply, nothing, raised, request, dispatch,
}
use llm_home_lab.Scheduling.Valid.{IsValid, tier_of, empty-IsValid, enqueue-IsValid, cancel-IsValid}
use llm_home_lab.Scheduling.Dispatching.{dispatch-IsFair}

tiers_depth-insert :
    (p : ℕ) (t : Tier) (d : Dict ℕ Tier)
    → tiers_depth (insert p t d) + tier_depth (or_empty (lookup p d)) ≡ tiers_depth d + tier_depth t
unfolding insert lookup
tiers_depth-insert p t [] = omega arith
tiers_depth-insert p t ((j, u) ∷ d) = ground (arith, tiers_depth-insert p t d)

tier_depth-insert :
    (s : String) (es : List QueueEntry) (t : Tier)
    → tier_depth (insert s es t) + length (or_empty (lookup s t)) ≡ tier_depth t + length es
unfolding insert lookup
tier_depth-insert s es [] = omega arith
tier_depth-insert s es ((j, u) ∷ t) = ground (arith, tier_depth-insert s es t)

tier_depth-remove :
    (s : String) (t : Tier)
    → Unique t
    → tier_depth (remove s t) + length (or_empty (lookup s t)) ≡ tier_depth t
unfolding remove lookup
tier_depth-remove s [] u = omega arith
tier_depth-remove s ((j, es) ∷ t) u = ground (arith, tier_depth-remove s t u.1, eq_iff j s)

-- An enqueued request adds one to the depth.
pub depth-enqueue :
    {W : Type 0} (entry : QueueEntry) (eligible : Option (W → List String)) (q : SchedulingQueue W)
    → depth (enqueue entry eligible q) ≡ depth q + 1
unfolding depth enqueue add_entry
depth-enqueue entry eligible q =
    let t = or_empty (lookup entry.priority q.tiers) in
    let es = or_empty (lookup entry.session_id t) in
    omega (
      arith,
      tiers_depth-insert entry.priority (add_entry entry t) q.tiers,
      tier_depth-insert entry.session_id (es ++ entry ∷ []) t,
      length-append es (entry ∷ []),
    )

depth-left_tier :
    (s : String) (e : QueueEntry) (rest : List QueueEntry) (t : Tier)
    → Unique t
    → lookup s t ≡ some (e ∷ rest)
    → tier_depth (left_tier s rest t) + 1 ≡ tier_depth t
unfolding left_tier
depth-left_tier s e [] t u h = ground (arith, tier_depth-remove s t u)
depth-left_tier s e (d ∷ ds) t u h = ground (arith, tier_depth-insert s (d ∷ ds) t)

depth-take_entry :
    {W : Type 0} (p : ℕ) (s : String) (e : QueueEntry) (rest : List QueueEntry)
    (q : SchedulingQueue W)
    → IsValid q
    → lookup s (tier_of p q) ≡ some (e ∷ rest)
    → depth (take_entry p s e rest q) + 1 ≡ depth q
unfolding depth take_entry
depth-take_entry p s e rest q v h =
    let t = tier_of p q in
    omega (
      arith,
      tiers_depth-insert p (left_tier s rest t) q.tiers,
      depth-left_tier s e rest t ((v.at_tier p).unique) h,
    )

-- What the callers do to the queue; a dispatch has the registry, the world and its arguments.
pub data Step (W : Type 0) : Type 0 where
  enqueued : QueueEntry → Option (W → List String) → Step W
  cancelled : String → String → ℕ → Step W
  dispatched : HostRegistry → W → Option (List String) → Option String → Step W

unfoldable pub step : {W : Type 0} → Step W → SchedulingQueue W → SchedulingQueue W
step (enqueued entry eligible) q = enqueue entry eligible q
step (cancelled request_id session_id priority) q = cancel request_id session_id priority q
step (dispatched registry world available wanted) q =
    let answer = dispatch registry world available wanted q in answer.1

unfoldable pub run : {W : Type 0} → List (Step W) → SchedulingQueue W → SchedulingQueue W
run [] q = q
run (s ∷ ss) q = run ss (step s q)

step-IsValid : {W : Type 0} (s : Step W) (q : SchedulingQueue W) → IsValid q → IsValid (step s q)
unfolding step
step-IsValid (enqueued entry eligible) q v = enqueue-IsValid entry eligible q v
step-IsValid (cancelled r s p) q v = cancel-IsValid r s p q v
step-IsValid (dispatched registry world available wanted) q v =
    let answer = dispatch registry world available wanted q in
    (dispatch-IsFair registry world available wanted q (answer.1) (answer.0) v refl).0

runs-IsValid :
    {W : Type 0} (ss : List (Step W)) (q : SchedulingQueue W) → IsValid q → IsValid (run ss q)
unfolding run
runs-IsValid [] q v = v
runs-IsValid (s ∷ ss) q v = runs-IsValid ss (step s q) (step-IsValid s q v)

-- After any calls on an empty queue, each tier and its rotation hold the same sessions, each once
-- and each with a waiting request, so no later `dispatch` raises an error.
pub run-IsValid :
    {W : Type 0} (ss : List (Step W)) (registry : HostRegistry) (world : W)
    (available : Option (List String)) (wanted : Option String)
    → IsValid (run ss empty)
      × ((q : SchedulingQueue W)
          → ◌≡◌ {A = Reply × SchedulingQueue W}
              (dispatch registry world available wanted (run ss empty))
              (raised, q)
          → ⊥)
run-IsValid ss registry world available wanted =
    let v = runs-IsValid ss empty empty-IsValid in
    (
      v,
      λ q h.
          elim ((dispatch-IsFair registry world available wanted (run ss empty) q raised v h).1) [
            | inl (nothing_came, same) ↦ absurd (cc)
            | inr (p, s, e, rest, came, chosen, taken) ↦ absurd (cc)
          ],
    )

-- On a valid queue a dispatched request takes one from the depth; a dispatch that returns nothing
-- leaves the depth.
pub depth-dispatch :
    {W : Type 0} (registry : HostRegistry) (world : W) (available : Option (List String))
    (wanted : Option String) (q q' : SchedulingQueue W) (reply : Reply)
    → IsValid q
    → dispatch registry world available wanted q ≡ (reply, q')
    → ((reply ≡ nothing) × (depth q' ≡ depth q))
      ⊎ ((id : String) × (reply ≡ request id) × (depth q' + 1 ≡ depth q))
depth-dispatch registry world available wanted q q' reply v h =
    elim ((dispatch-IsFair registry world available wanted q q' reply v h).1) [
      | inl (nothing_came, same) ↦ inl (nothing_came, ap (λ k. depth k) same)
      | inr (p, s, e, rest, came, chosen, taken) ↦
          inr (e.request_id, came, rw taken (depth-take_entry p s e rest q v chosen.head))
    ]
