-- ===== src/Scheduling.antt =====
-- src/llm_home_lab/scheduling: models.py and queue.py. Requests wait in tiers of a priority; a tier
-- has a queue for each session and a rotation of the sessions. A lower number is served first; the
-- one caller passes priority 0, and priorities are natural numbers here. An eligibility callback is
-- a function of the world `W` that it reads when it is called.
mod Tiers
mod Valid
mod Dispatching
mod Depth
mod Examples
use llm_home_lab.Base.{
  ℕ, ◌+◌, String, ◌≡◌, Bool, true, false, not, ◌&&◌, ◌||◌, Option, none, some, List, [], ◌∷◌, ◌++◌,
  map, leb, if◌then◌else◌, ◌==◌, string_eq, nat_eq, filter, any, contains, length,
}
use llm_home_lab.Base.Sorting.{sort}
use llm_home_lab.Base.Int.{pos, ltb_ℤ}
use llm_home_lab.Dict.{Dict, lookup, insert, remove, member, keys}
use llm_home_lab.Registry.{HostInfo, HostRegistry, hosts}

pub record QueueEntry : Type 0 where
  pub request_id : String
  pub session_id : String
  pub priority : ℕ
  pub at : ℕ

-- `available_host_ids is None or host.host_id in available_host_ids`
abbrev pub allows : Option (List String) → String → Bool
allows none host_id = true
allows (some ids) host_id = contains ids host_id

unfoldable pub has_free_capacity : HostRegistry → Option (List String) → Bool
has_free_capacity registry available =
    any
      (λ h.
        ltb_ℤ h.in_flight (pos h.capacity.max_concurrent_requests) && allows available h.host_id)
      (hosts registry)

abbrev pub Tier : Type 0
Tier = Dict String (List QueueEntry)

pub record SchedulingQueue (W : Type 0) : Type 0 where
  pub eligibility : Dict String (W → List String)
  pub tiers : Dict ℕ Tier
  pub rotations : Dict ℕ (List String)

abbrev pub empty : {W : Type 0} → SchedulingQueue W
empty = record { eligibility = []; tiers = []; rotations = [] }

-- `setdefault(key, {})` and `setdefault(key, deque())`
abbrev pub or_empty {ℓ} : {A : Type ℓ} → Option (List A) → List A
or_empty none = []
or_empty (some xs) = xs

unfoldable pub add_eligibility :
    {W : Type 0}
    → String
    → Option (W → List String)
    → Dict String (W → List String)
    → Dict String (W → List String)
add_eligibility request_id none d = d
add_eligibility request_id (some f) d = insert request_id f d

unfoldable pub add_entry : QueueEntry → Tier → Tier
add_entry entry tier =
    insert entry.session_id (or_empty (lookup entry.session_id tier) ++ entry ∷ []) tier

-- A session that is new to the tier goes to the end of the rotation.
unfoldable pub add_session : ℕ → String → Tier → Dict ℕ (List String) → Dict ℕ (List String)
add_session priority session_id tier rotations =
    if member session_id tier
    then rotations
    else insert priority (or_empty (lookup priority rotations) ++ session_id ∷ []) rotations

unfoldable pub enqueue :
    {W : Type 0} → QueueEntry → Option (W → List String) → SchedulingQueue W → SchedulingQueue W
enqueue entry eligible q =
    let tier = or_empty (lookup entry.priority q.tiers) in
    record {
      eligibility = add_eligibility entry.request_id eligible q.eligibility;
      tiers = insert entry.priority (add_entry entry tier) q.tiers;
      rotations = add_session entry.priority entry.session_id tier q.rotations;
    }

abbrev pub tier_depth : Tier → ℕ
tier_depth [] = 0
tier_depth ((session_id, entries) ∷ tier) = length entries + tier_depth tier

abbrev pub tiers_depth : Dict ℕ Tier → ℕ
tiers_depth [] = 0
tiers_depth ((priority, tier) ∷ tiers) = tier_depth tier + tiers_depth tiers

unfoldable pub depth : {W : Type 0} → SchedulingQueue W → ℕ
depth q = tiers_depth q.tiers

-- `deque.remove`: the first occurrence.
unfoldable pub remove_first : String → List String → List String
remove_first s [] = []
remove_first s (x ∷ xs) = if x == s then xs else x ∷ remove_first s xs

-- A session that loses its last entry leaves the tier and the rotation.
unfoldable pub set_entries :
    {W : Type 0} → ℕ → String → Tier → List QueueEntry → SchedulingQueue W → SchedulingQueue W
set_entries priority session_id tier (e ∷ es) q = record q {
  tiers = insert priority (insert session_id (e ∷ es) tier) q.tiers;
}
set_entries priority session_id tier [] q = record q {
  tiers = insert priority (remove session_id tier) q.tiers;
  rotations = elim (lookup priority q.rotations) [
    | none ↦ q.rotations
    | some rotation ↦ insert priority (remove_first session_id rotation) q.rotations
  ];
}

-- The tail of `cancel`, on the session's queue. With nothing to remove it returns.
unfoldable pub cancel_in :
    {W : Type 0}
    → String
    → ℕ
    → String
    → Tier
    → List QueueEntry
    → SchedulingQueue W
    → SchedulingQueue W
cancel_in request_id priority session_id tier entries q =
    let remaining = filter (λ e. not (e.request_id == request_id)) entries in
    if length remaining == length entries
    then q
    else set_entries priority session_id tier remaining q

unfoldable pub cancel : {W : Type 0} → String → String → ℕ → SchedulingQueue W → SchedulingQueue W
cancel {W} request_id session_id priority q =
    let forgot : SchedulingQueue W = record q { eligibility = remove request_id q.eligibility } in
    elim (lookup priority q.tiers) [
      | none ↦ forgot
      | some tier ↦ elim (lookup session_id tier) [
        | none ↦ forgot
        | some entries ↦ cancel_in request_id priority session_id tier entries forgot
      ]
    ]

-- What the loop of `dispatch` decides at a session: go on, return `None`, or serve the head of its
-- queue. `broken` is the `KeyError` or `IndexError` of a missing queue or an empty one.
pub data Turn : Type 0 where
  pass refuse broken : Turn
  serve : QueueEntry → List QueueEntry → Turn

-- The outcome of the loops, with the priority of the tier and the session.
pub data Outcome : Type 0 where
  idle fault : Outcome
  served : ℕ → String → QueueEntry → List QueueEntry → Outcome

abbrev pub is_other : Option String → String → Bool
is_other none id = false
is_other (some wanted) id = not (id == wanted)

module _ {W : Type 0} (registry : HostRegistry) (world : W) (available : Option (List String))
    (wanted : Option String) where
  unfoldable pub allowed : QueueEntry → SchedulingQueue W → Option (List String)
  allowed entry q = elim (lookup entry.request_id q.eligibility) [
    | none ↦ available
    | some f ↦ some (f world)
  ]

  unfoldable pub turn : SchedulingQueue W → Option (List QueueEntry) → Turn
  turn q none = broken
  turn q (some []) = broken
  turn q (some (entry ∷ rest)) =
      if not (has_free_capacity registry (allowed entry q))
      then pass
      else if is_other wanted entry.request_id
      then refuse
      else serve entry rest

  abbrev pub at_turn : ℕ → String → Turn → Outcome → Outcome
  at_turn priority s pass later = later
  at_turn priority s refuse later = idle
  at_turn priority s broken later = fault
  at_turn priority s (serve entry rest) later = served priority s entry rest

  -- The loop over a rotation; `later` is what the loop over the tiers does after it.
  unfoldable pub scan_sessions : SchedulingQueue W → ℕ → Tier → List String → Outcome → Outcome
  scan_sessions q priority tier [] later = later
  scan_sessions q priority tier (s ∷ ss) later =
      at_turn priority s (turn q (lookup s tier)) (scan_sessions q priority tier ss later)

  unfoldable pub scan_tier : SchedulingQueue W → ℕ → Outcome → Outcome
  scan_tier q priority later = elim (lookup priority q.rotations) [
    | none ↦ fault
    | some rotation ↦ scan_sessions q priority (or_empty (lookup priority q.tiers)) rotation later
  ]

  unfoldable pub scan_tiers : SchedulingQueue W → List ℕ → Outcome
  scan_tiers q [] = idle
  scan_tiers q (p ∷ ps) = scan_tier q p (scan_tiers q ps)

-- The served session goes to the end of its rotation, or leaves it with its last entry.
unfoldable pub rotate : String → List QueueEntry → List String → List String
rotate session_id [] rotation = remove_first session_id rotation
rotate session_id (_ ∷ _) rotation = remove_first session_id rotation ++ session_id ∷ []

unfoldable pub left_tier : String → List QueueEntry → Tier → Tier
left_tier session_id [] tier = remove session_id tier
left_tier session_id (e ∷ es) tier = insert session_id (e ∷ es) tier

unfoldable pub take_entry :
    {W : Type 0} → ℕ → String → QueueEntry → List QueueEntry → SchedulingQueue W → SchedulingQueue W
take_entry priority s entry rest q = record {
  eligibility = remove entry.request_id q.eligibility;
  tiers = insert priority (left_tier s rest (or_empty (lookup priority q.tiers))) q.tiers;
  rotations = insert priority (rotate s rest (or_empty (lookup priority q.rotations))) q.rotations;
}

-- What `dispatch` returns or raises.
pub data Reply : Type 0 where
  nothing raised : Reply
  request : String → Reply

abbrev pub finish : {W : Type 0} → SchedulingQueue W → Outcome → Reply × SchedulingQueue W
finish q idle = (nothing, q)
finish q fault = (raised, q)
finish q (served priority s entry rest) =
    (request entry.request_id, take_entry priority s entry rest q)

unfoldable pub dispatch :
    {W : Type 0}
    → HostRegistry
    → W
    → Option (List String)
    → Option String
    → SchedulingQueue W
    → Reply × SchedulingQueue W
dispatch registry world available wanted q =
    if not (has_free_capacity registry available)
    then (nothing, q)
    else finish q (scan_tiers registry world available wanted q (sort (keys q.tiers)))
