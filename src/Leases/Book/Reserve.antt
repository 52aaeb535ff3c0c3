-- ===== src/Leases/Book/Reserve.antt =====
-- What `reserve` does, on every branch.
use llm_home_lab.Base.{
  ℕ, ◌≤◌, ◌<◌, String, ◌≡◌, refl, ap, sym, ◌∙◌, ◌⊎◌, inl, inr, true, false, Option, none, some,
  List, [], ◌∷◌, arith, ◌==◌, string_eq, filter, foldl, Option-cases, ltb,
}
use llm_home_lab.Base.Int.{ℤ, pos, negsuc, leb_ℤ, pos_part}
use llm_home_lab.Base.Text.{strip}
use llm_home_lab.Dict.{lookup, values}
use llm_home_lab.Leases.Models.{NodeLease, ReservableHost, ok, failed, ok-injective}
use llm_home_lab.Leases.Book.{
  NodeLeaseBook, grant, ended, drop_unlocked, purge_unlocked, store, new_lease, matching_hosts,
  free_hosts, known_hosts, asked_ceiling, reserve, reserve_locked,
}
use llm_home_lab.Leases.Book.Choice.{
  IsLeast, MayTake, known_hosts-In, reserve_specific-Decides, reserve_any_cases,
}

drops-settings :
    (ls : List NodeLease) (b : NodeLeaseBook) → (foldl drop_unlocked b ls).settings ≡ b.settings
unfolding drop_unlocked
drops-settings [] b = refl
drops-settings (l ∷ ls) b = drops-settings ls (drop_unlocked b l)

pub purge-settings : (now : ℕ) (b : NodeLeaseBook) → (purge_unlocked now b).settings ≡ b.settings
unfolding purge_unlocked
purge-settings now b = drops-settings (filter (ended now) (values b.by_host)) b

-- The node that a request names, or the least eligible one if it names none.
abbrev pub Chosen :
    Option String → List ReservableHost → Option String → NodeLeaseBook → ReservableHost → Type 0
Chosen none hosts model b h =
    IsLeast h (filter (λ g. g.healthy) (free_hosts (matching_hosts model hosts) b))
Chosen (some id) hosts model b h = h.host_id ≡ id

-- The checks before the lock: one of them fails, or the ceiling is a positive number in range.
admitted_cases :
    (holder : String) (asked : ℤ) (max_ceiling : ℕ)
    → (((strip holder == "") ≡ true)
        ⊎ (leb_ℤ asked (pos 0) ≡ true)
        ⊎ (ltb max_ceiling (pos_part asked) ≡ true))
      ⊎ (((strip holder == "") ≡ false)
          × (asked ≡ pos (pos_part asked))
          × (0 < pos_part asked)
          × (pos_part asked ≤ max_ceiling))
admitted_cases holder (pos n) m = ground arith
admitted_cases holder (negsuc n) m = inl (inr (inl (ground arith)))

module _ (hosts : List ReservableHost) (model : Option String) (now : ℕ) (token : String) where
  pub reserve_locked_cases :
      (holder : String) (host_id : Option String) (ceiling : ℕ) (b : NodeLeaseBook)
      → let r = reserve_locked holder hosts host_id model ceiling now token b in
        ((failed r.0 ≡ true) × (r.1 ≡ b))
        ⊎ ((h : ReservableHost) × MayTake hosts model b h
            × Chosen host_id hosts model b h
            × (r ≡ grant h.host_id holder ceiling now token b))
  unfolding reserve_locked
  reserve_locked_cases holder none ceiling b =
      reserve_any_cases hosts holder model ceiling now token b
  reserve_locked_cases holder (some id) ceiling b =
      elim (Option-cases (lookup id (known_hosts hosts))) [
        | inl e ↦ inl (ground arith)
        | inr (h, e) ↦
            let known = known_hosts-In hosts id h e in
            elim (reserve_specific-Decides hosts holder model ceiling now token b h known.0) [
              | inl no_grant ↦ inl (ground arith)
              | inr granted ↦ inr (h, granted.0, known.1, ground (arith, granted.1))
            ]
      ]

  -- A reservation fails, and leaves the book but for leases that have ended; or it grants, on the
  -- book without those, the chosen node for the asked time.
  pub reserve_cases :
      (holder : String) (host_id : Option String) (ceiling : Option ℤ) (b : NodeLeaseBook)
      → let r = reserve holder hosts host_id model ceiling now token b in
        let p = purge_unlocked now b in
        ((failed r.0 ≡ true) × ((r.1 ≡ b) ⊎ (r.1 ≡ p)))
        ⊎ ((h : ReservableHost) × (c : ℕ) × MayTake hosts model p h
            × Chosen host_id hosts model p h
            × ((strip holder == "") ≡ false)
            × (asked_ceiling ceiling b.settings ≡ pos c)
            × (0 < c)
            × (c ≤ b.max_ceiling)
            × (r ≡ grant h.host_id (strip holder) c now token p))
  unfolding reserve
  reserve_cases holder host_id ceiling b =
      let c = pos_part (asked_ceiling ceiling b.settings) in
      elim (reserve_locked_cases (strip holder) host_id c (purge_unlocked now b)) [
        | inl no_grant ↦ inl (ground arith)
        | inr (h, may, chosen, e) ↦
            elim (admitted_cases holder (asked_ceiling ceiling b.settings) b.max_ceiling) [
              | inl (inl blank) ↦ inl (ground arith)
              | inl (inr (inl low)) ↦ inl (ground arith)
              | inl (inr (inr high)) ↦ inl (ground arith)
              | inr (named, whole, positive, within) ↦
                  inr (h, c, may, chosen, named, whole, positive, within, ground (arith, e))
            ]
      ]

  -- A granted reservation: the node, the time, the lease, and the book with that lease in it.
  pub reserve_granted :
      (holder : String) (host_id : Option String) (ceiling : Option ℤ) (b b' : NodeLeaseBook)
      (l : NodeLease)
      → reserve holder hosts host_id model ceiling now token b ≡ (ok l, b')
      → let p = purge_unlocked now b in
        (h : ReservableHost) × (c : ℕ) × MayTake hosts model p h
        × Chosen host_id hosts model p h
        × ((strip holder == "") ≡ false)
        × (asked_ceiling ceiling b.settings ≡ pos c)
        × (0 < c)
        × (c ≤ b.max_ceiling)
        × (l ≡ new_lease h.host_id (strip holder) c now token b.settings)
        × (b' ≡ store l p)
  unfolding grant
  reserve_granted holder host_id ceiling b b' l e = elim (reserve_cases holder host_id ceiling b) [
    | inl no_grant ↦ absurd (ground arith)
    | inr (h, c, may, chosen, named, whole, positive, within, granted) ↦
        let done = sym granted ∙ e in
        let lease = ok-injective (ap (λ r. r.0) done) in
        (
          h,
          c,
          may,
          chosen,
          named,
          whole,
          positive,
          within,
          sym lease ∙ ap (new_lease h.host_id (strip holder) c now token) (purge-settings now b),
          sym (ap (λ r. r.1) done) ∙ ap (λ k. store k (purge_unlocked now b)) lease,
        )
  ]
