-- ===== src/Leases/Book/Grants.antt =====
-- The guarantees of a reservation that is granted.
use llm_home_lab.Base.{
  ℕ, ◌+◌, ◌≤◌, ◌<◌, String, ◌≡◌, ◌≢◌, refl, ap, subst, sym, ◌∙◌, ◌↔◌, ◌⊎◌, inl, inr, true, false,
  Option, none, some, List, [], ◌∷◌, arith, eq_iff, ◌==◌, string_eq, All, In, count, Option-cases,
  Bool-cases,
}
use llm_home_lab.Base.Int.{ℤ}
use llm_home_lab.Base.Text.{strip}
use mathlib.Core.Option.{none-ne-some}
use llm_home_lab.Dict.{lookup, member, lookup-insert}
use llm_home_lab.Leases.Models.{LeaseSettings, NodeLease, ReservableHost, ok}
use llm_home_lab.Leases.Book.{
  NodeLeaseBook, active_count, ended, purge_unlocked, store, new_lease, reserve, is_held, require,
}
use llm_home_lab.Leases.Book.Valid.{IsValid}
use llm_home_lab.Leases.Book.Purge.{lookup-purge}
use llm_home_lab.Leases.Book.Reserve.{purge-settings, reserve_granted}

-- No two nodes of the list share an id.
abbrev pub UniqueIds : List ReservableHost → Type 0
UniqueIds [] = Unit
UniqueIds (h ∷ hs) = All (λ g. g.host_id ≢ h.host_id) hs × UniqueIds hs

-- A stored lease takes at most its own node out of the count.
active_count-other :
    (hosts : List ReservableHost) (b : NodeLeaseBook) (l : NodeLease)
    → All (λ g. g.host_id ≢ l.host_id) hosts
    → active_count hosts (store l b) ≡ active_count hosts b
unfolding active_count count store member
active_count-other [] b l u = refl
active_count-other (h ∷ hs) b l u = ground (
  arith,
  active_count-other hs b l u.1,
  lookup-insert l.host_id h.host_id l b.by_host,
  eq_iff l.host_id h.host_id,
  u.0,
)

active_count-store :
    (hosts : List ReservableHost) (b : NodeLeaseBook) (l : NodeLease)
    → UniqueIds hosts
    → active_count hosts b ≤ active_count hosts (store l b) + 1
unfolding active_count count store member
active_count-store [] b l u = omega arith
active_count-store (h ∷ hs) b l u = elim (Bool-cases (l.host_id == h.host_id)) [
  | inl own ↦
      let same = active_count-other hs b l (
        subst (λ (i : String). All (λ g. g.host_id ≢ i) hs)
          (sym ((eq_iff l.host_id h.host_id).0 own)) u.0) in
      ground (arith, same)
  | inr other ↦
      ground (arith, active_count-store hs b l u.1, lookup-insert l.host_id h.host_id l b.by_host)
]

-- A granted reservation leaves the minimum of healthy free nodes, unless its node was not healthy.
pub reserve-keeps_minimum :
    (holder : String) (hosts : List ReservableHost) (host_id model : Option String)
    (ceiling : Option ℤ) (now : ℕ) (token : String) (b b' : NodeLeaseBook) (l : NodeLease)
    → UniqueIds hosts
    → reserve holder hosts host_id model ceiling now token b ≡ (ok l, b')
    → (b.min_active_nodes ≤ active_count hosts b')
      ⊎ ((h : ReservableHost) × In h hosts × (h.host_id ≡ l.host_id) × (h.healthy ≡ false))
unfolding new_lease
reserve-keeps_minimum holder hosts host_id model ceiling now token b b' l u e =
    let p = purge_unlocked now b in
    let (h, c, may, _, _, _, _, _, lease, book) =
      reserve_granted hosts model now token holder host_id ceiling b b' l e in
    let room = active_count-store hosts p l u in
    elim (may.spare) [
      | inl down ↦ inr (h, may.listed, sym (ap (λ (k : NodeLease). k.host_id) lease), down)
      | inr spare ↦ inl (
          rw book (
            omega (
              arith,
              room,
              spare,
              ap (λ (s : LeaseSettings). s.min_active_nodes) (purge-settings now b),
            )))
    ]

-- A node is held exactly while it has a lease that has not ended.
pub is_held_iff :
    (h : String) (now : ℕ) (b : NodeLeaseBook)
    → ((is_held h now b).0 ≡ true)
      ↔ ((l : NodeLease) × (lookup h b.by_host ≡ some l) × (ended now l ≡ false))
unfolding is_held
is_held_iff h now b = elim (Option-cases (lookup h b.by_host)) [
  | inl n ↦ (λ e. absurd (ground arith), λ (l, e, live). absurd (ground arith))
  | inr (l, f) ↦ (λ e. (l, f, ground arith), λ (k, e, live). ground arith)
]

pub require-store :
    (l : NodeLease) (now : ℕ) (b : NodeLeaseBook)
    → ended now l ≡ false
    → require l.token now (store l b) ≡ (ok l, store l b)
unfolding require store
require-store l now b live =
    ground (arith, lookup-insert l.token l.token l b.by_token, eq_iff l.token l.token)

pub is_held-store :
    (l : NodeLease) (now : ℕ) (b : NodeLeaseBook)
    → ended now l ≡ false
    → (is_held l.host_id now (store l b)).0 ≡ true
unfolding is_held store
is_held-store l now b live =
    ground (arith, lookup-insert l.host_id l.host_id l b.by_host, eq_iff l.host_id l.host_id)

-- A node that the purge leaves free was not held.
pub unheld :
    (h : String) (now : ℕ) (b : NodeLeaseBook)
    → IsValid b
    → lookup h (purge_unlocked now b).by_host ≡ none
    → (is_held h now b).0 ≡ false
unheld h now b v n = elim (Bool-cases (is_held h now b).0) [
  | inr free ↦ free
  | inl held ↦
      let (l, e, live) = (is_held_iff h now b).0 held in
      absurd (none-ne-some l (sym n ∙ (lookup-purge now b v h l).1 (e, live)))
]

-- A new lease has not ended.
new_lease-live :
    (host_id holder : String) (ceiling now : ℕ) (token : String) (s : LeaseSettings)
    → 0 < s.ttl
    → 0 < ceiling
    → ended now (new_lease host_id holder ceiling now token s) ≡ false
unfolding new_lease ended
new_lease-live host_id holder ceiling now token s lasts positive = ground arith

-- With a positive ttl, what a reservation grants is a lease of the cleaned holder,
-- under that token, up to the maximal ceiling, on a node that was not held. The token is then good
-- for the lease, and the node is held.
pub reserve-usable :
    (holder : String) (hosts : List ReservableHost) (host_id model : Option String)
    (ceiling : Option ℤ) (now : ℕ) (token : String) (b b' : NodeLeaseBook) (l : NodeLease)
    → IsValid b
    → 0 < b.ttl
    → reserve holder hosts host_id model ceiling now token b ≡ (ok l, b')
    → (l.token ≡ token)
      × (l.holder ≡ strip holder)
      × (l.created_at ≡ now)
      × (l.hard_expires_at ≤ now + b.max_ceiling)
      × (require token now b' ≡ (ok l, b'))
      × ((is_held l.host_id now b').0 ≡ true)
      × ((is_held l.host_id now b).0 ≡ false)
unfolding new_lease
reserve-usable holder hosts host_id model ceiling now token b b' l v lasts e =
    let p = purge_unlocked now b in
    let (h, c, may, _, _, _, positive, within, lease, book) =
      reserve_granted hosts model now token holder host_id ceiling b b' l e in
    let live : ended now l ≡ false =
      rw lease (new_lease-live h.host_id (strip holder) c now token b.settings lasts positive) in
    let own = ap (λ (k : NodeLease). k.token) lease in
    (
      own,
      ap (λ (k : NodeLease). k.holder) lease,
      ap (λ (k : NodeLease). k.created_at) lease,
      rw lease (omega arith),
      rw book (
          subst (λ t. require t now (store l p) ≡ (ok l, store l p)) own
            (require-store l now p live)),
      rw book (is_held-store l now p live),
      subst (λ i. (is_held i now b).0 ≡ false) (sym (ap (λ (k : NodeLease). k.host_id) lease))
          (unheld h.host_id now b v may.unreserved),
    )
