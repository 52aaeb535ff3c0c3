-- ===== src/Leases/Book.antt =====
-- `NodeLeaseBook` of src/llm_home_lab/leases/book.py. Each method runs under the book's lock, so it
-- is one step: it returns its result or exception, and the book as it leaves it. A token of
-- `secrets.token_urlsafe` is an argument.
use llm_home_lab.Base.{
  ℕ, zero, ◌+◌, ◌-◌, ◌/◌, min, String, ◌≡◌, refl, Bool, true, false, not, ◌&&◌, ◌||◌, Option, none,
  some, List, [], ◌∷◌, map, foldl, leb, ltb, if◌then◌else◌, filter, count, ◌==◌, string_eq,
}
pub mod Valid
pub mod Calls
pub mod Choice
pub mod Purge
pub mod Reserve
pub mod Grants
pub mod Effects
pub mod Histories
pub mod Tokens
mod Examples
use llm_home_lab.Base.Int.{ℤ, pos, leb_ℤ, pos_part, sub_ℕ}
use llm_home_lab.Base.Text.{str_le, strip}
use llm_home_lab.Dict.{Dict, lookup, insert, remove, member, values}
use llm_home_lab.Leases.Models.{
  LeaseSettings, ReservableHost, NodeLease, PublicLease, public_dict, RosterLine, free, held,
  LeaseError, lease_invalid, lease_refused, lease_not_held, lease_ended, lease_not_found,
  host_not_registered, holder_empty, ceiling_not_positive, ceiling_exceeds, RefusalReason,
  does_not_serve, already_reserved, would_leave, no_node_serves, no_node_registered, no_node_free,
  below_minimum, Result, ok, err,
}

pub record NodeLeaseBook : Type 0 where
  pub settings : LeaseSettings
  pub open settings use *
  pub by_host : Dict String NodeLease
  pub by_token : Dict String NodeLease

abbrev pub empty : LeaseSettings → NodeLeaseBook
empty settings = record { settings = settings; by_host = []; by_token = [] }

-- `now >= lease.expires_at or now >= lease.hard_expires_at`
unfoldable pub ended : ℕ → NodeLease → Bool
ended now l = leb l.expires_at now || leb l.hard_expires_at now

unfoldable pub drop_unlocked : NodeLeaseBook → NodeLease → NodeLeaseBook
drop_unlocked b l = record b {
  by_host = remove l.host_id b.by_host;
  by_token = remove l.token b.by_token;
}

unfoldable pub purge_unlocked : ℕ → NodeLeaseBook → NodeLeaseBook
purge_unlocked now b = foldl drop_unlocked b (filter (ended now) (values b.by_host))

-- The lookup by token that `require`, `heartbeat` and `release` begin with.
unfoldable pub live_unlocked : String → ℕ → NodeLeaseBook → Result NodeLease × NodeLeaseBook
live_unlocked token now b = elim (lookup token b.by_token) [
  | none ↦ (err lease_not_held, b)
  | some l ↦
      if ended now l then (err (lease_ended l.host_id l.holder), drop_unlocked b l) else (ok l, b)
]

unfoldable pub require : String → ℕ → NodeLeaseBook → Result NodeLease × NodeLeaseBook
require token now b = elim (lookup token b.by_token) [
  | none ↦ (err lease_not_held, b)
  | some l ↦
      if ended now l then (err (lease_ended l.host_id l.holder), drop_unlocked b l) else (ok l, b)
]

unfoldable pub is_held : String → ℕ → NodeLeaseBook → Bool × NodeLeaseBook
is_held host_id now b = elim (lookup host_id b.by_host) [
  | none ↦ (false, b)
  | some l ↦ if ended now l then (false, drop_unlocked b l) else (true, b)
]

unfoldable pub renew : ℕ → NodeLeaseBook → NodeLease → NodeLease
renew now b l = record l { expires_at = min (now + b.ttl) l.hard_expires_at }

-- `self._by_host[l.host_id] = l` and `self._by_token[l.token] = l`
unfoldable pub store : NodeLease → NodeLeaseBook → NodeLeaseBook
store l b = record b {
  by_host = insert l.host_id l b.by_host;
  by_token = insert l.token l b.by_token;
}

heartbeat_found : ℕ → Result NodeLease × NodeLeaseBook → Result NodeLease × NodeLeaseBook
heartbeat_found now (err e, b) = (err e, b)
heartbeat_found now (ok l, b) = let l' = renew now b l in (ok l', store l' b)

unfoldable pub heartbeat : String → ℕ → NodeLeaseBook → Result NodeLease × NodeLeaseBook
unfolding live_unlocked heartbeat_found renew store
heartbeat token now b = heartbeat_found now (live_unlocked token now b)

release_found : Result NodeLease × NodeLeaseBook → Result NodeLease × NodeLeaseBook
release_found (err e, b) = (err e, b)
release_found (ok l, b) = (ok l, drop_unlocked b l)

unfoldable pub release : String → ℕ → NodeLeaseBook → Result NodeLease × NodeLeaseBook
unfolding live_unlocked release_found
release token now b = release_found (live_unlocked token now b)

unfoldable pub force_release : String → ℕ → NodeLeaseBook → Result NodeLease × NodeLeaseBook
force_release host_id now b =
    let p = purge_unlocked now b in
    elim (lookup host_id p.by_host) [
      | none ↦ (err (lease_not_found host_id), p)
      | some l ↦ (ok l, drop_unlocked p l)
    ]

-- `remaining` is positive here: the lease has not ended.
unfoldable pub view : String → ℕ → NodeLeaseBook → Option PublicLease × NodeLeaseBook
view host_id now b = elim (lookup host_id b.by_host) [
  | none ↦ (none, b)
  | some l ↦ if ended now l then (none, drop_unlocked b l) else (
    some (public_dict l false (leb (min l.expires_at l.hard_expires_at - now) b.expiring_soon)),
    b,
  )
]

unfoldable pub active_count : List ReservableHost → NodeLeaseBook → ℕ
active_count hosts b = count (λ h. h.healthy && not (member h.host_id b.by_host)) hosts

roster_line : NodeLeaseBook → ReservableHost → RosterLine
roster_line b h = elim (lookup h.host_id b.by_host) [
  | none ↦ free h.host_id h.status
  | some l ↦ held h.host_id h.status l.holder l.expires_at l.hard_expires_at
]

-- The empty list stands for the line "nodes: (none registered)".
unfoldable pub roster : List ReservableHost → NodeLeaseBook → List RosterLine
unfolding roster_line
roster hosts b = map (roster_line b) hosts

unfoldable pub refuse :
    List ReservableHost → RefusalReason → NodeLeaseBook → Result NodeLease × NodeLeaseBook
refuse hosts reason b = (err (lease_refused reason (roster hosts b)), b)

unfoldable pub new_lease : String → String → ℕ → ℕ → String → LeaseSettings → NodeLease
new_lease host_id holder ceiling now token s = record {
  host_id = host_id;
  holder = holder;
  token = token;
  expires_at = min (now + s.ttl) (now + ceiling);
  hard_expires_at = now + ceiling;
  created_at = now;
}

unfoldable pub grant :
    String → String → ℕ → ℕ → String → NodeLeaseBook → Result NodeLease × NodeLeaseBook
unfolding store new_lease
grant host_id holder ceiling now token b =
    let l = new_lease host_id holder ceiling now token b.settings in (ok l, store l b)

-- `min_active_nodes` against the count less one, without a negative number.
unfoldable pub reserve_free :
    ReservableHost
    → List ReservableHost
    → String
    → ℕ
    → ℕ
    → String
    → NodeLeaseBook
    → Result NodeLease × NodeLeaseBook
unfolding refuse
reserve_free host hosts holder ceiling now token b =
    if host.healthy && ltb (active_count hosts b) (b.min_active_nodes + 1)
    then refuse hosts (would_leave host.host_id (sub_ℕ (active_count hosts b) 1) b.min_active_nodes)
        b
    else grant host.host_id holder ceiling now token b

-- `model is not None and not serves`
abbrev pub misses : Option String → Bool → Option String
misses none serves = none
misses (some model) serves = if serves then none else some model

unfoldable pub reserve_specific :
    ReservableHost
    → List ReservableHost
    → String
    → Option String
    → ℕ
    → ℕ
    → String
    → NodeLeaseBook
    → Result NodeLease × NodeLeaseBook
unfolding refuse reserve_free
reserve_specific host hosts holder model ceiling now token b =
    elim (misses model host.serves_requested_model) [
      | some m ↦ refuse hosts (does_not_serve host.host_id m) b
      | none ↦ elim (lookup host.host_id b.by_host) [
        | some l ↦ refuse hosts (already_reserved host.host_id l.holder l.expires_at) b
        | none ↦ reserve_free host hosts holder ceiling now token b
      ]
    ]

-- `sorted(..., key=lambda host: host.host_id)`, a stable sort.
unfoldable pub insert_host : ReservableHost → List ReservableHost → List ReservableHost
insert_host h [] = h ∷ []
insert_host h (g ∷ gs) = if str_le h.host_id g.host_id then h ∷ g ∷ gs else g ∷ insert_host h gs

unfoldable pub sort_hosts : List ReservableHost → List ReservableHost
unfolding insert_host
sort_hosts [] = []
sort_hosts (h ∷ hs) = insert_host h (sort_hosts hs)

abbrev pub matches : Option String → ReservableHost → Bool
matches none h = true
matches (some model) h = h.serves_requested_model

unfoldable pub matching_hosts : Option String → List ReservableHost → List ReservableHost
matching_hosts model hosts = filter (matches model) hosts

unfoldable pub free_hosts : List ReservableHost → NodeLeaseBook → List ReservableHost
free_hosts hosts b = filter (λ h. not (member h.host_id b.by_host)) hosts

abbrev pub no_match : Option String → RefusalReason
no_match none = no_node_registered
no_match (some model) = no_node_serves model

-- `spare <= 0 or not active_free`, on the sorted `active_free`.
unfoldable pub grant_first :
    List ReservableHost
    → List ReservableHost
    → String
    → ℕ
    → ℕ
    → String
    → NodeLeaseBook
    → Result NodeLease × NodeLeaseBook
unfolding refuse
grant_first [] hosts holder ceiling now token b = refuse hosts (below_minimum b.min_active_nodes) b
grant_first (h ∷ hs) hosts holder ceiling now token b =
    if leb (active_count hosts b) b.min_active_nodes
    then refuse hosts (below_minimum b.min_active_nodes) b
    else grant h.host_id holder ceiling now token b

abbrev pub active_free : Option String → List ReservableHost → NodeLeaseBook → List ReservableHost
active_free model hosts b =
    sort_hosts (filter (λ h. h.healthy) (free_hosts (matching_hosts model hosts) b))

unfoldable pub reserve_any :
    List ReservableHost
    → String
    → Option String
    → ℕ
    → ℕ
    → String
    → NodeLeaseBook
    → Result NodeLease × NodeLeaseBook
unfolding refuse grant_first
reserve_any hosts holder model ceiling now token b = elim (matching_hosts model hosts) [
  | [] ↦ refuse hosts (no_match model) b
  | _ ∷ _ ↦ elim (free_hosts (matching_hosts model hosts) b) [
    | [] ↦ refuse hosts no_node_free b
    | _ ∷ _ ↦ grant_first (active_free model hosts b) hosts holder ceiling now token b
  ]
]

-- `{host.host_id: host for host in hosts}`
unfoldable pub known_hosts : List ReservableHost → Dict String ReservableHost
known_hosts = foldl (λ d h. insert h.host_id h d) []

unfoldable pub reserve_known :
    String
    → List ReservableHost
    → Option ReservableHost
    → String
    → Option String
    → ℕ
    → ℕ
    → String
    → NodeLeaseBook
    → Result NodeLease × NodeLeaseBook
reserve_known host_id hosts none holder model ceiling now token b =
    (err (host_not_registered host_id), b)
reserve_known host_id hosts (some host) holder model ceiling now token b =
    reserve_specific host hosts holder model ceiling now token b

-- The part of `reserve` under the lock, after the purge.
unfoldable pub reserve_locked :
    String
    → List ReservableHost
    → Option String
    → Option String
    → ℕ
    → ℕ
    → String
    → NodeLeaseBook
    → Result NodeLease × NodeLeaseBook
unfolding reserve_known
reserve_locked holder hosts none model ceiling now token b =
    reserve_any hosts holder model ceiling now token b
reserve_locked holder hosts (some host_id) model ceiling now token b =
    reserve_known host_id hosts (lookup host_id (known_hosts hosts)) holder model ceiling now token
      b

-- `settings.default_ceiling` where the request names none
abbrev pub asked_ceiling : Option ℤ → LeaseSettings → ℤ
asked_ceiling none s = pos s.default_ceiling
asked_ceiling (some c) s = c

abbrev second : ℕ
second = 1000000

unfoldable pub reserve :
    String
    → List ReservableHost
    → Option String
    → Option String
    → Option ℤ
    → ℕ
    → String
    → NodeLeaseBook
    → Result NodeLease × NodeLeaseBook
reserve holder hosts host_id model ceiling now token b =
    let cleaned = strip holder in
    let asked = asked_ceiling ceiling b.settings in
    if cleaned == ""
    then (err (lease_invalid holder_empty), b)
    else if leb_ℤ asked (pos 0)
    then (err (lease_invalid ceiling_not_positive), b)
    else if ltb b.max_ceiling (pos_part asked)
    then (
      err (lease_invalid (ceiling_exceeds (pos_part asked / second) (b.max_ceiling / second))),
      b,
    )
    else reserve_locked cleaned hosts host_id model (pos_part asked) now token
        (purge_unlocked now b)
