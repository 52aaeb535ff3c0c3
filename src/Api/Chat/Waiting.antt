-- ===== src/Api/Chat/Waiting.antt =====
-- The wait of a chat completion in the queue ends, and leaves no entry of the request behind.
use llm_home_lab.Base.{
  ℕ, zero, suc, ◌+◌, ◌≤◌, ◌<◌, String, ◌≡◌, ◌≢◌, refl, ap, ◌∙◌, Bool, false, not, inl, inr, Option,
  none, List, [], ◌∷◌, arith, ltb, ◌==◌, string_eq, nat_eq, eq_iff, filter, length, All, Bool-cases,
  Option-cases,
}
use llm_home_lab.Base.Int.{ℤ}
use llm_home_lab.Dict.{lookup, insert, remove, lookup-insert, lookup-remove, lookup-empty}
use llm_home_lab.Registry.{HostInfo}
use llm_home_lab.Scheduling.{
  QueueEntry, Tier, SchedulingQueue, or_empty, set_entries, cancel_in, cancel,
}
use llm_home_lab.Routing.{RoutingCandidate}
use llm_home_lab.Api.Chat.{App, Await}
use llm_home_lab.Api.Chat.Placing.{
  ChatRequest, Waits, Outcome, out_of_fuel, Turn, again, leave, error, next, queue_session_id, poll,
  wait_loop, wait_in_queue,
}

abbrev pub Others : String → List QueueEntry → Type 0
Others id = All (λ e. e.request_id == id ≡ false)

-- The queue has neither an entry of the request in its session nor its callback.
abbrev pub Gone : {W : Type 0} → String → String → SchedulingQueue W → Type 0
Gone id s q =
    Others id (or_empty (lookup s (or_empty (lookup 0 q.tiers)))) × (lookup id q.eligibility ≡ none)

filter-length :
    (id : String) (es : List QueueEntry)
    → length (filter (λ (e : QueueEntry). not (e.request_id == id)) es) ≤ length es
unfolding filter
filter-length id [] = omega arith
filter-length id (e ∷ es) = ground (arith, filter-length id es)

-- If a filter takes nothing out, there was nothing to take out.
filter-Others :
    (id : String) (es : List QueueEntry)
    → length (filter (λ (e : QueueEntry). not (e.request_id == id)) es) ≡ length es
    → Others id es
unfolding filter
filter-Others id [] h = tt
filter-Others id (e ∷ es) h = ground (arith, filter-Others id es, filter-length id es)

left-Others :
    (id : String) (es : List QueueEntry)
    → Others id (filter (λ (e : QueueEntry). not (e.request_id == id)) es)
unfolding filter
left-Others id [] = tt
left-Others id (e ∷ es) = ground (arith, left-Others id es)

set_entries-Others :
    {W : Type 0} (id s : String) (t : Tier) (es : List QueueEntry) (q : SchedulingQueue W)
    → Others id es
    → Others id (or_empty (lookup s (or_empty (lookup 0 (set_entries 0 s t es q).tiers))))
unfolding set_entries
set_entries-Others id s t [] q h =
    rw (lookup-insert 0 0 (remove s t) q.tiers, lookup-remove s s t, (eq_iff s s).1 refl) tt
set_entries-Others id s t (e ∷ es) q h =
    rw
      (
        lookup-insert 0 0 (insert s (e ∷ es) t) q.tiers,
        lookup-insert s s (e ∷ es) t,
        (eq_iff s s).1 refl,
      )
      h

set_entries-eligibility :
    {W : Type 0} (p : ℕ) (s : String) (t : Tier) (es : List QueueEntry) (q : SchedulingQueue W)
    → (set_entries p s t es q).eligibility ≡ q.eligibility
unfolding set_entries
set_entries-eligibility p s t [] q = refl
set_entries-eligibility p s t (e ∷ es) q = refl

cancel-Gone : {W : Type 0} (id s : String) (q : SchedulingQueue W) → Gone id s (cancel id s 0 q)
unfolding cancel cancel_in
cancel-Gone {W} id s q =
    let d = remove id q.eligibility in
    let f : SchedulingQueue W = record q { eligibility = d } in
    let forgot : lookup id d ≡ none =
      rw (lookup-remove id id q.eligibility, (eq_iff id id).1 refl) refl in
    elim (Option-cases (lookup 0 q.tiers)) [
      | inl n ↦ rw (cancel, n) ((rw (n, lookup-empty s) tt), forgot)
      | inr (t, found) ↦ elim (Option-cases (lookup s t)) [
        | inl n ↦ rw (cancel, found, n) ((rw (found, n) tt), forgot)
        | inr (es, here) ↦
            let left = filter (λ (e : QueueEntry). not (e.request_id == id)) es in
            elim (Bool-cases (length left == length es)) [
              | inl none_left ↦
                  rw (cancel, found, here, cancel_in, none_left)
                    (rw (found, here) (filter-Others id es (ground arith)), forgot)
              | inr fewer ↦
                  rw (cancel, found, here, cancel_in, fewer)
                    (
                      set_entries-Others id s t left f (left-Others id es),
                      ap (lookup id) (set_entries-eligibility 0 s t left f) ∙ forgot,
                    )
            ]
      ]
    ]

module _ {F : Type 0} (load : ℤ → ℕ → F) (others : ℕ → App F → Await F) (waits : Waits)
    (token : Option String) (r : ChatRequest) (started : ℕ) (capable : List HostInfo)
    (failover_in_play : Bool) where
  abbrev Ends : Outcome (List (RoutingCandidate F)) × App F → Type 0
  Ends x = x.0 ≢ out_of_fuel

  next-Ends :
      (t : Turn F) (app : App F) (loop : App F → Outcome (List (RoutingCandidate F)) × App F)
      → Ends (loop app)
      → Ends (next t app loop)
  next-Ends again app loop e = e
  next-Ends (leave cs) app loop e = λ h. cc
  next-Ends (error x) app loop e = λ h. cc

  -- Each turn waits for a positive time, so the fuel is enough if it is more than the time left.
  wait_loop-Ends :
      (fuel n waited : ℕ) (app : App F)
      → 1 ≤ waits.interval
      → 1 ≤ fuel
      → waits.timeout < fuel + waited
      → Ends
          (wait_loop load others waits token r started capable failover_in_play fuel n waited app)
  unfolding wait_loop
  wait_loop-Ends zero n waited app i some_fuel h = absurd (omega arith)
  wait_loop-Ends (suc fuel) n waited app i some_fuel h =
      elim (Bool-cases (ltb waited waits.timeout)) [
        | inr over ↦ rw (wait_loop, over) (λ e. cc)
        | inl more ↦
            let p =
              poll load others waits token r started capable failover_in_play (others n app) in
            rw (wait_loop, more)
              (next-Ends p.0 p.1
                (wait_loop load others waits token r started capable failover_in_play fuel (n + 1)
                  (waited + waits.interval))
                (wait_loop-Ends fuel (n + 1) (waited + waits.interval) p.1 i (ground arith)
                  (ground arith)))
      ]

  -- With a positive poll interval the wait ends within one turn more than the timeout has units,
  -- whatever other tasks do; and however it ends, with a host, at the timeout, by an error or by a
  -- cancellation, the queue then has neither an entry of the request in its session nor its callback.
  pub wait_in_queue-ends :
      (fuel n : ℕ) (app : App F)
      → 1 ≤ waits.interval
      → waits.timeout < fuel
      → ((wait_in_queue load others waits token r started capable failover_in_play fuel n app).0
          ≢ out_of_fuel)
        × Gone r.request_id
            (queue_session_id r)
            (wait_in_queue load others waits token r started capable failover_in_play fuel n
              app).1.queue
  unfolding wait_in_queue
  wait_in_queue-ends fuel n app i h = (
    wait_loop-Ends fuel n 0 _ i (omega arith) (omega arith),
    cancel-Gone r.request_id (queue_session_id r) _,
  )
