-- ===== src/State/Tools/History.antt =====
-- The histories after a recorded call.
use llm_home_lab.Base.{
  ◌+◌, String, ◌≡◌, refl, ap, sym, ◌∙◌, subst, Bool, true, false, not, ◌&&◌, some, List, [], ◌∷◌,
  ◌++◌, arith, eq_iff, string_eq, ◌==◌, if◌then◌else◌, filter, filter-append, append_nil, All,
}
use llm_home_lab.Dict.{member}
use llm_home_lab.State.{Row, ok, max_seq, or_zero, require_session}
use llm_home_lab.State.Messages.{Increasing, Increasing-filter, insert_next_lem, order_by_seq_lem}
use llm_home_lab.State.Tools.{
  TerminalPayload, Payload, terminal, Invocation, TerminalInvocation, ToolStateStore,
  record_invocation, record_terminal, is_terminal, read_history_rows, terminal_invocations,
  read_terminal_history, read_filesystem_history, last_state, read_terminal_state,
}

abbrev pub IsValid : ToolStateStore → Type 0
IsValid st = Increasing st.tool_invocations

abbrev chosen : String → Bool → Row Invocation → Bool
chosen id of_terminal r =
    r.of_session == id
    && (if of_terminal then is_terminal r.columns.payload else not (is_terminal r.columns.payload))

chosen-All :
    (id : String) (b : Bool) (rs : List (Row Invocation))
    → All (λ r. r.of_session ≡ id) (filter (chosen id b) rs)
unfolding filter
chosen-All id b [] = tt
chosen-All id b (r ∷ rs) = ground (arith, chosen-All id b rs, eq_iff r.of_session id)

read_history_rows_lem :
    (id : String) (b : Bool) (st : ToolStateStore)
    → IsValid st
    → read_history_rows id b st ≡ filter (chosen id b) st.tool_invocations
unfolding read_history_rows
read_history_rows_lem id b st i =
    order_by_seq_lem id (filter (chosen id b) st.tool_invocations)
      (Increasing-filter (chosen id b) st.tool_invocations i) (chosen-All id b st.tool_invocations)

abbrev row_of : String → Payload → String → ToolStateStore → Row Invocation
row_of id payload at st = record {
  of_session = id;
  number = or_zero (max_seq id st.tool_invocations) + 1;
  columns = record { payload = payload; created_at = at };
}

record_invocation_lem :
    (id : String) (payload : Payload) (at : String) (st st' : ToolStateStore)
    → IsValid st
    → record_invocation id payload at st ≡ ok st'
    → (member id st.sessions ≡ true)
      × (st' ≡ record st { tool_invocations = st.tool_invocations ++ row_of id payload at st ∷ [] })
      × IsValid st'
unfolding record_invocation require_session
record_invocation_lem id payload at st st' v h =
    let (next, increasing) =
      insert_next_lem id (record { payload = payload; created_at = at }) st.tool_invocations v in
    let same : st'
        ≡ record st { tool_invocations = st.tool_invocations ++ row_of id payload at st ∷ [] } =
      ground (arith, next) in
    (ground arith, same, subst (λ (k : ToolStateStore). IsValid k) (sym same) increasing)

read_history_rows-record :
    (id t : String) (b : Bool) (payload : Payload) (at : String) (st st' : ToolStateStore)
    → IsValid st
    → record_invocation id payload at st ≡ ok st'
    → read_history_rows t b st'
      ≡ read_history_rows t b st ++ filter (chosen t b) (row_of id payload at st ∷ [])
read_history_rows-record id t b payload at st st' v h =
    let (registered, same, v') = record_invocation_lem id payload at st st' v h in
    read_history_rows_lem t b st' v'
    ∙ ap (λ (k : ToolStateStore). filter (chosen t b) k.tool_invocations) same
    ∙ filter-append (chosen t b) st.tool_invocations (row_of id payload at st ∷ [])
    ∙ ap (λ k. k ++ filter (chosen t b) (row_of id payload at st ∷ []))
        (sym (read_history_rows_lem t b st v))

terminal_invocations-append :
    (xs ys : List (Row Invocation))
    → terminal_invocations (xs ++ ys) ≡ terminal_invocations xs ++ terminal_invocations ys
unfolding terminal_invocations
terminal_invocations-append [] ys = refl
terminal_invocations-append (x ∷ xs) ys = ground (arith, terminal_invocations-append xs ys)

last_state-snoc :
    (is : List TerminalInvocation) (i : TerminalInvocation)
    → last_state (is ++ i ∷ [])
      ≡ some (record {
        cwd = i.payload.cwd;
        env = i.payload.env;
        running_processes = i.payload.running_processes;
        as_of_seq = i.seq;
      })
last_state-snoc [] i = refl
last_state-snoc (j ∷ []) i = refl
last_state-snoc (j ∷ k ∷ is) i = last_state-snoc (k ∷ is) i

abbrev called : String → TerminalPayload → String → ToolStateStore → TerminalInvocation
called id p at st = record {
  seq = or_zero (max_seq id st.tool_invocations) + 1;
  payload = p;
  created_at = at;
}

terminal_invocations-record :
    (id : String) (p : TerminalPayload) (at : String) (st st' : ToolStateStore)
    → IsValid st
    → record_terminal id p at st ≡ ok st'
    → terminal_invocations (read_history_rows id true st')
      ≡ terminal_invocations (read_history_rows id true st) ++ called id p at st ∷ []
unfolding filter terminal_invocations
terminal_invocations-record id p at st st' v h =
    ap terminal_invocations (read_history_rows-record id id true (terminal p) at st st' v h)
    ∙ terminal_invocations-append (read_history_rows id true st)
        (filter (chosen id true) (row_of id (terminal p) at st ∷ []))
    ∙ ap (λ k. terminal_invocations (read_history_rows id true st) ++ k)
        (ground (arith, eq_iff id id))

filesystem_rows-record :
    (id : String) (p : TerminalPayload) (at : String) (st st' : ToolStateStore)
    → IsValid st
    → record_terminal id p at st ≡ ok st'
    → read_history_rows id false st' ≡ read_history_rows id false st
unfolding filter
filesystem_rows-record id p at st st' v h =
    read_history_rows-record id id false (terminal p) at st st' v h
    ∙ ap (λ k. read_history_rows id false st ++ k) (ground (arith, eq_iff id id))
    ∙ append_nil (read_history_rows id false st)

-- After a recorded terminal call, the session's terminal history is the old one and then the call
-- under the next number, its terminal state is the call's, and its file system history stands.
pub read-record_terminal :
    (id : String) (p : TerminalPayload) (at : String) (st st' : ToolStateStore)
    (history : List TerminalInvocation)
    → IsValid st
    → record_terminal id p at st ≡ ok st'
    → read_terminal_history id st ≡ ok history
    → let n = or_zero (max_seq id st.tool_invocations) + 1 in
      (read_terminal_history id st'
        ≡ ok (history ++ record { seq = n; payload = p; created_at = at } ∷ []))
      × (read_terminal_state id st'
          ≡ ok (
              some (record {
                cwd = p.cwd;
                env = p.env;
                running_processes = p.running_processes;
                as_of_seq = n;
              })))
      × (read_filesystem_history id st' ≡ read_filesystem_history id st)
      × IsValid st'
unfolding read_terminal_history read_terminal_state read_filesystem_history require_session
read-record_terminal id p at st st' history v h r =
    let (registered, same, v') = record_invocation_lem id (terminal p) at st st' v h in
    let there : member id st'.sessions ≡ true = rw same registered in
    let new = terminal_invocations-record id p at st st' v h in
    let old : history ≡ terminal_invocations (read_history_rows id true st) = ground arith in
    (
      rw (there, new, old) refl,
      rw (there, new)
          (ap (λ k. ok k)
            (last_state-snoc (terminal_invocations (read_history_rows id true st))
              (called id p at st))),
      rw (there, registered, filesystem_rows-record id p at st st' v h) refl,
      v',
    )
