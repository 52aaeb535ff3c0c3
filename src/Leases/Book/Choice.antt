-- ===== src/Leases/Book/Choice.antt =====
-- Which node a reservation takes.
use llm_home_lab.Base.{
  ℕ, ◌<◌, String, ◌≡◌, refl, subst, ◌⊎◌, inl, inr, true, false, not, Option, none, some, List, [],
  ◌∷◌, arith, eq_iff, string_eq, filter, All, All-map, In, In-filter, foldl, Bool-cases, List-cases,
  if◌then◌else◌, leb,
}
use llm_home_lab.Base.Text.{str_le, str_le_refl, str_le_trans, str_le_total}
use llm_home_lab.Dict.{Dict, lookup, insert, member, lookup-insert}
use llm_home_lab.Leases.Models.{NodeLease, ReservableHost, Result, failed}
use llm_home_lab.Leases.Book.{
  NodeLeaseBook, grant, active_count, matches, matching_hosts, free_hosts, active_free, sort_hosts,
  known_hosts, reserve_specific, reserve_any,
}

-- `h` is in the list, and no host there has a smaller id.
abbrev pub IsLeast : ReservableHost → List ReservableHost → Type 0
IsLeast h hosts = In h hosts × All (λ g. str_le h.host_id g.host_id ≡ true) hosts

sort_hosts-nil : (hosts : List ReservableHost) → sort_hosts hosts ≡ [] → hosts ≡ []
unfolding sort_hosts
sort_hosts-nil [] e = refl
sort_hosts-nil (h ∷ hs) e = elim (List-cases (sort_hosts hs)) [
  | inl n ↦ ground arith
  | inr (g, gs, n) ↦ ground arith
]

insert_host-IsLeast :
    (x g h : ReservableHost) (xs gs : List ReservableHost)
    → IsLeast g xs
    → (if str_le x.host_id g.host_id then x else g) ≡ h
    → IsLeast h (x ∷ xs)
insert_host-IsLeast x g h xs gs least e = elim (Bool-cases (str_le x.host_id g.host_id)) [
  | inl le ↦
      let below =
        All-map (λ (k : ReservableHost). str_le g.host_id k.host_id ≡ true)
          (λ (k : ReservableHost). str_le x.host_id k.host_id ≡ true) xs
          (λ k h. str_le_trans x.host_id g.host_id k.host_id le h) least.1 in
      subst (λ k. IsLeast k (x ∷ xs)) (ground arith) (inl refl, (str_le_refl x.host_id, below))
  | inr gt ↦
      subst (λ k. IsLeast k (x ∷ xs)) (ground arith)
        (inr least.0, (str_le_total x.host_id g.host_id gt, least.1))
]

pub sort_hosts-IsLeast :
    (hosts : List ReservableHost) (h : ReservableHost) (hs : List ReservableHost)
    → sort_hosts hosts ≡ h ∷ hs
    → IsLeast h hosts
unfolding sort_hosts
sort_hosts-IsLeast [] h hs e = cc
sort_hosts-IsLeast (x ∷ xs) h hs e = elim (List-cases (sort_hosts xs)) [
  | inl n ↦ ground (arith, sort_hosts-nil xs n, str_le_refl x.host_id)
  | inr (g, gs, n) ↦ insert_host-IsLeast x g h xs gs (sort_hosts-IsLeast xs g gs n) (ground arith)
]

known-In :
    (d : Dict String ReservableHost) (hosts : List ReservableHost) (id : String)
    (h : ReservableHost)
    → lookup id (foldl (λ m g. insert g.host_id g m) d hosts) ≡ some h
    → (lookup id d ≡ some h) ⊎ (In h hosts × (h.host_id ≡ id))
known-In d [] id h e = inl e
known-In d (g ∷ gs) id h e = elim (known-In (insert g.host_id g d) gs id h e) [
  | inl k ↦ ground (arith, lookup-insert g.host_id id g d, eq_iff g.host_id id)
  | inr i ↦ inr (inr i.0, i.1)
]

pub known_hosts-In :
    (hosts : List ReservableHost) (id : String) (h : ReservableHost)
    → lookup id (known_hosts hosts) ≡ some h
    → In h hosts × (h.host_id ≡ id)
unfolding known_hosts lookup
known_hosts-In hosts id h e = elim (known-In [] hosts id h e) [ inl k ↦ cc | inr i ↦ i ]

-- What a grant rests on: a node of the list that serves the model and is free, and that is not
-- healthy or leaves the minimum.
pub record MayTake (hosts : List ReservableHost) (model : Option String) (b : NodeLeaseBook)
    (h : ReservableHost) : Type 0 where
  pub listed : In h hosts
  pub serves : matches model h ≡ true
  pub unreserved : lookup h.host_id b.by_host ≡ none
  pub spare : (h.healthy ≡ false) ⊎ (b.min_active_nodes < active_count hosts b)

matching_hosts-In :
    (h : ReservableHost) (model : Option String) (hosts : List ReservableHost)
    → In h (matching_hosts model hosts)
    → In h hosts × (matches model h ≡ true)
unfolding matching_hosts
matching_hosts-In h model hosts i = In-filter (matches model) h hosts i

free_hosts-In :
    (h : ReservableHost) (hosts : List ReservableHost) (b : NodeLeaseBook)
    → In h (free_hosts hosts b)
    → In h hosts × (lookup h.host_id b.by_host ≡ none)
unfolding free_hosts member
free_hosts-In h hosts b i =
    let f = In-filter (λ (g : ReservableHost). not (member g.host_id b.by_host)) h hosts i in
    (f.0, ground arith)

-- A refusal, which leaves the book, or a grant of `h`.
abbrev pub Decides :
    List ReservableHost
    → Option String
    → NodeLeaseBook
    → ReservableHost
    → Result NodeLease × NodeLeaseBook
    → Result NodeLease × NodeLeaseBook
    → Type 0
Decides hosts model b h granted r =
    ((failed r.0 ≡ true) × (r.1 ≡ b)) ⊎ (MayTake hosts model b h × (r ≡ granted))

module _ (hosts : List ReservableHost) (holder : String) (model : Option String) (ceiling now : ℕ)
    (token : String) (b : NodeLeaseBook) where
  pub reserve_specific-Decides :
      (h : ReservableHost)
      → In h hosts
      → Decides hosts model b h
          (grant h.host_id holder ceiling now token b)
          (reserve_specific h hosts holder model ceiling now token b)
  unfolding reserve_specific
  reserve_specific-Decides h i = ground arith

  -- Any node: the eligible one with the least id.
  pub reserve_any_cases :
      let r = reserve_any hosts holder model ceiling now token b in
      ((failed r.0 ≡ true) × (r.1 ≡ b))
      ⊎ ((h : ReservableHost) × MayTake hosts model b h
          × IsLeast h (filter (λ g. g.healthy) (free_hosts (matching_hosts model hosts) b))
          × (r ≡ grant h.host_id holder ceiling now token b))
  unfolding reserve_any
  reserve_any_cases = elim (List-cases (active_free model hosts b)) [
    | inl n ↦ inl (ground arith)
    | inr (h, hs, n) ↦
        let least =
          sort_hosts-IsLeast (filter (λ g. g.healthy) (free_hosts (matching_hosts model hosts) b)) h
            hs n in
        let fine =
          In-filter (λ (g : ReservableHost). g.healthy) h
            (free_hosts (matching_hosts model hosts) b) least.0 in
        let spared = free_hosts-In h (matching_hosts model hosts) b fine.0 in
        let fit = matching_hosts-In h model hosts spared.0 in
        elim (Bool-cases (leb (active_count hosts b) b.min_active_nodes)) [
          | inl short ↦ inl (ground arith)
          | inr room ↦ inr (
            h,
            record {
              listed = fit.0;
              serves = fit.1;
              unreserved = spared.1;
              spare = inr (ground arith);
            },
            least,
            ground arith,
          )
        ]
  ]
