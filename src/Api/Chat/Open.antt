-- ===== src/Api/Chat/Open.antt =====
-- The candidates of a chat completion: hosts that serve the model, can take a request, and are the
-- leased node or held by no lease.
use llm_home_lab.Base.{
  ℕ, String, ◌≡◌, refl, sym, ap, subst, ◌∙◌, true, false, ◌⊎◌, inl, inr, Option, none, some, List,
  [], ◌∷◌, arith, ◌==◌, string_eq, eq_iff, In, In-filter, Bool-cases, Option-cases,
}
use llm_home_lab.Base.Int.{ℤ}
use llm_home_lab.Dict.{lookup, lookup-remove}
use llm_home_lab.Registry.{HostInfo}
use llm_home_lab.Health.{HealthMonitor}
use llm_home_lab.Leases.Models.{NodeLease}
use llm_home_lab.Leases.Models
use llm_home_lab.Leases.Book.{NodeLeaseBook, ended, drop_unlocked, require, is_held}
use llm_home_lab.Routing.{RoutingCandidate}
use llm_home_lab.Api.Errors.{AppError, Result, ok, raised, ◌>>=◌, Result-cases, ok-injective}
use llm_home_lab.Api.Hosts.{can_take, load_ratio, eligible_candidates}
use llm_home_lab.Api.Chat.{
  World, slots_of, lease_result, open_hosts, on_node, require_token, live_hosts, candidates_for,
  current_candidates,
}

abbrev pub Free : String → ℕ → NodeLeaseBook → Type 0
Free k now b = (is_held k now b).0 ≡ false

drop-Free :
    (k : String) (now : ℕ) (b : NodeLeaseBook) (l : NodeLease)
    → Free k now b
    → Free k now (drop_unlocked b l)
unfolding is_held drop_unlocked
drop-Free k now b l f = elim (Option-cases (lookup k b.by_host)) [
  | inl n ↦ ground (arith, lookup-remove l.host_id k b.by_host)
  | inr (m, e) ↦ ground (arith, lookup-remove l.host_id k b.by_host)
]

-- A test of a node changes nothing or drops a lease.
is_held-book :
    (j : String) (now : ℕ) (b : NodeLeaseBook)
    → ((is_held j now b).1 ≡ b) ⊎ ((l : NodeLease) × ((is_held j now b).1 ≡ drop_unlocked b l))
unfolding is_held
is_held-book j now b = elim (Option-cases (lookup j b.by_host)) [
  | inl n ↦ inl (rw (is_held, n) refl)
  | inr (m, e) ↦ elim (Bool-cases (ended now m)) [
    | inl over ↦ inr (m, rw (is_held, e, over) refl)
    | inr live ↦ inl (rw (is_held, e, live) refl)
  ]
]

is_held-Free :
    (k j : String) (now : ℕ) (b : NodeLeaseBook) → Free k now b → Free k now (is_held j now b).1
is_held-Free k j now b f = elim (is_held-book j now b) [
  | inl same ↦ subst (λ x. Free k now x) (sym same) f
  | inr (l, dropped) ↦ subst (λ x. Free k now x) (sym dropped) (drop-Free k now b l f)
]

open_hosts-Free :
    (hs : List HostInfo) (k : String) (now : ℕ) (b : NodeLeaseBook)
    → Free k now b
    → Free k now (open_hosts hs now b).1
unfolding open_hosts
open_hosts-Free [] k now b f = f
open_hosts-Free (h ∷ hs) k now b f =
    open_hosts-Free hs k now (is_held h.host_id now b).1 (is_held-Free k h.host_id now b f)

-- The open hosts are among the given ones, and are still free when all have been asked for.
open_hosts-In :
    (hs : List HostInfo) (now : ℕ) (b : NodeLeaseBook) (h : HostInfo)
    → In h (open_hosts hs now b).0.0
    → In h hs × Free h.host_id now (open_hosts hs now b).1
unfolding open_hosts
open_hosts-In [] now b h i = elim i [ ]
open_hosts-In (g ∷ hs) now b h i =
    let after = (is_held g.host_id now b).1 in
    elim (Bool-cases (is_held g.host_id now b).0) [
      | inl held ↦
          let (there, free) = open_hosts-In hs now after h (rw held at i) in (inr there, free)
      | inr free ↦
          let here =
            open_hosts-Free hs g.host_id now after (is_held-Free g.host_id g.host_id now b free) in
          elim (rw free at i) [
            | inl same ↦
                (inl same, subst (λ x. Free x.host_id now (open_hosts hs now after).1) same here)
            | inr later ↦
                let (there, kept) = open_hosts-In hs now after h later in (inr there, kept)
          ]
    ]

-- The request holds no lease and no lease holds the node, or the request's lease is on the node.
abbrev pub Allowed : Option String → String → ℕ → NodeLeaseBook → Type 0
Allowed token id now b =
    (((require_token token now b).0 ≡ ok none) × Free id now b)
    ⊎ ((l : NodeLease) × ((require_token token now b).0 ≡ ok (some l)) × (l.host_id ≡ id))

found-some : (x : Models.Result NodeLease) → (lease_result x >>= λ l. ok (some l)) ≡ ok none → ⊥
found-some (Models.Result.ok l) e = cc
found-some (Models.Result.err x) e = cc

-- Whether a request has a lease does not depend on the book if it names none.
require_token-none :
    (token : Option String) (now : ℕ) (b c : NodeLeaseBook)
    → (require_token token now b).0 ≡ ok none
    → ((require_token token now b).1 ≡ b) × ((require_token token now c).0 ≡ ok none)
unfolding require_token
require_token-none none now b c e = (refl, refl)
require_token-none (some t) now b c e = elim (Bool-cases (t == "")) [
  | inl blank ↦ (rw (require_token, blank) refl, rw (require_token, blank) refl)
  | inr named ↦ absurd (found-some (require t now b).0 (rw (require_token, named) at e))
]

require_token-some :
    (token : Option String) (now : ℕ) (b : NodeLeaseBook) (l : NodeLease)
    → (require_token token now b).0 ≡ ok (some l)
    → (require_token token now b).1 ≡ b
unfolding require_token require
require_token-some none now b l e = refl
require_token-some (some t) now b l e = elim (Bool-cases (t == "")) [
  | inl blank ↦ rw (require_token, blank) refl
  | inr named ↦ elim (Option-cases (lookup t b.by_token)) [
    | inl n ↦ ground arith
    | inr (m, found) ↦ ground arith
  ]
]

raised-ok : {A : Type 0} (x : AppError) (a : A) → raised x ≡ ok a → ⊥
raised-ok x a e = cc

module _ {F : Type 0} (load : ℤ → ℕ → F) where
  -- A candidate is one of the hosts, and that host can take a request.
  eligible_candidates-In :
      (slots : HostInfo → ℤ) (monitor : HealthMonitor) (at : ℕ) (hs : List HostInfo)
      (cs : List (RoutingCandidate F)) (c : RoutingCandidate F)
      → eligible_candidates load slots monitor at hs ≡ ok cs
      → In c cs
      → (h : HostInfo) × In h hs
        × (h.host_id ≡ c.backend_id)
        × (can_take load slots monitor at h ≡ true)
  unfolding eligible_candidates
  eligible_candidates-In slots monitor at [] cs c e i =
      elim (subst (In c) (sym (ok-injective e)) i) [ ]
  eligible_candidates-In slots monitor at (h ∷ hs) cs c e i =
      elim (Bool-cases (can_take load slots monitor at h)) [
        | inl takes ↦ elim (Result-cases (load_ratio load slots monitor at h)) [
          | inl (x, refused) ↦ absurd (raised-ok x cs (rw (takes, refused) at e))
          | inr (ratio, known) ↦
              elim (Result-cases (eligible_candidates load slots monitor at hs)) [
                | inl (x, refused) ↦ absurd (raised-ok x cs (rw (takes, known, refused) at e))
                | inr (others, found) ↦
                    elim (subst (In c) (sym (ok-injective (rw (takes, known, found) at e))) i) [
                      | inl same ↦ (h, inl refl, ap (λ x. x.backend_id) same, takes)
                      | inr later ↦
                          let (g, there, same, free) =
                            eligible_candidates-In slots monitor at hs others c found later in
                          (g, inr there, same, free)
                    ]
              ]
        ]
        | inr full ↦
            let (g, there, same, takes) =
              eligible_candidates-In slots monitor at hs cs c (rw full at e) i in
            (g, inr there, same, takes)
      ]

  module _ (token : Option String) (capable : List HostInfo) where
    -- A capable host that can take a request, and that the leases allow.
    abbrev pub Usable : World → String → Type 0
    Usable w id =
        (h : HostInfo) × In h capable
        × (h.host_id ≡ id)
        × (can_take load (slots_of w) w.monitor w.now h ≡ true)
        × Allowed token id w.lease_now w.book

    candidates_for-Usable :
        (w : World) (live : Result (Option NodeLease)) (cs : List (RoutingCandidate F))
        (c : RoutingCandidate F)
        → (require_token token w.lease_now w.book).0 ≡ live
        → (candidates_for load token capable w live (require_token token w.lease_now w.book).1).0
          ≡ ok cs
        → In c cs
        → Usable
            (record w {
              book =
                  (candidates_for load token capable w live
                    (require_token token w.lease_now w.book).1).1;
            })
            c.backend_id
    unfolding live_hosts
    candidates_for-Usable w (raised x) cs c r e i = absurd (cc)
    candidates_for-Usable w (ok none) cs c r e i =
        let b = (require_token token w.lease_now w.book).1 in
        let free = (open_hosts capable w.lease_now b).0.0 in
        let (h, there, same, takes) =
          eligible_candidates-In (slots_of w) w.monitor w.now free cs c e i in
        let (member, unheld) = open_hosts-In capable w.lease_now b h there in
        (
          h,
          member,
          same,
          takes,
          inl (
            (require_token-none token w.lease_now w.book (open_hosts capable w.lease_now b).1 r).1,
            subst (λ k. Free k w.lease_now (open_hosts capable w.lease_now b).1) same unheld,
          ),
        )
    candidates_for-Usable w (ok (some l)) cs c r e i =
        let (h, there, same, takes) =
          eligible_candidates-In (slots_of w) w.monitor w.now (on_node l.host_id capable) cs c e
            i in
        let (member, node) = In-filter (λ g. g.host_id == l.host_id) h capable there in
        let kept = require_token-some token w.lease_now w.book l r in
        (
          h,
          member,
          same,
          takes,
          inr (
            l,
            ap (λ b. (require_token token w.lease_now b).0) kept ∙ r,
            sym ((eq_iff h.host_id l.host_id).0 node) ∙ same,
          ),
        )

    pub current_candidates-Usable :
        (w : World) (cs : List (RoutingCandidate F)) (c : RoutingCandidate F)
        → (current_candidates load token capable w).0 ≡ ok cs
        → In c cs
        → Usable (record w { book = (current_candidates load token capable w).1 }) c.backend_id
    unfolding current_candidates
    current_candidates-Usable w cs c e i =
        candidates_for-Usable w (require_token token w.lease_now w.book).0 cs c refl e i
