-- ===== src/State/Tools.antt =====
-- src/llm_home_lab/state/tool_state_store.py: the terminal and file system calls of a session. The
-- payload of a row is kept as the values that its JSON text encodes.
pub mod History
use llm_home_lab.Base.{
  ℕ, String, Bool, true, false, not, if◌then◌else◌, ◌&&◌, ◌++◌, Option, none, some, List, [], ◌∷◌,
  map, ◌==◌, string_eq, filter,
}
use llm_home_lab.Base.Int.{ℤ}
use llm_home_lab.Dict.{Dict}
use llm_home_lab.State.{Row, Result, ok, err, order_by_seq, insert_next, require_session}

pub record TerminalPayload : Type 0 where
  pub command : String
  pub cwd : String
  pub exit_code : ℤ
  pub output : String
  pub env : Dict String String
  pub running_processes : List String

pub record FilesystemPayload : Type 0 where
  pub operation : String
  pub path : String
  pub result : String

-- The columns `tool_id` and `payload`.
pub data Payload : Type 0 where
  terminal : TerminalPayload → Payload
  filesystem : FilesystemPayload → Payload

pub record Invocation : Type 0 where
  pub payload : Payload
  pub created_at : String

pub record TerminalInvocation : Type 0 where
  pub seq : ℕ
  pub payload : TerminalPayload
  pub created_at : String

pub record FilesystemInvocation : Type 0 where
  pub seq : ℕ
  pub payload : FilesystemPayload
  pub created_at : String

pub record TerminalState : Type 0 where
  pub cwd : String
  pub env : Dict String String
  pub running_processes : List String
  pub as_of_seq : ℕ

pub record ToolStateStore : Type 0 where
  pub sessions : Dict String String
  pub tool_invocations : List (Row Invocation)

abbrev pub with_invocations :
    ToolStateStore → Result (List (Row Invocation)) → Result ToolStateStore
with_invocations st (ok rows) = ok (record st { tool_invocations = rows })
with_invocations st (err e) = err e

unfoldable pub record_invocation :
    String → Payload → String → ToolStateStore → Result ToolStateStore
record_invocation session_id payload created_at st = require_session st.sessions session_id (
    with_invocations st (
      insert_next session_id (record { payload = payload; created_at = created_at })
        st.tool_invocations))

abbrev pub record_terminal :
    String → TerminalPayload → String → ToolStateStore → Result ToolStateStore
record_terminal session_id p = record_invocation session_id (terminal p)

abbrev pub record_filesystem :
    String → FilesystemPayload → String → ToolStateStore → Result ToolStateStore
record_filesystem session_id p = record_invocation session_id (filesystem p)

abbrev pub is_terminal : Payload → Bool
is_terminal (terminal p) = true
is_terminal (filesystem p) = false

-- `WHERE session_id = ? AND tool_id = ? ORDER BY seq`
unfoldable pub read_history_rows : String → Bool → ToolStateStore → List (Row Invocation)
read_history_rows session_id of_terminal st = order_by_seq (
    filter
      (λ r.
        r.of_session == session_id
        && (if of_terminal
            then is_terminal r.columns.payload
            else not (is_terminal r.columns.payload)))
      st.tool_invocations)

unfoldable pub terminal_invocations : List (Row Invocation) → List TerminalInvocation
terminal_invocations [] = []
terminal_invocations (r ∷ rs) =
    let rest = terminal_invocations rs in
    elim (r.columns.payload) [
      | terminal p ↦
          record { seq = r.number; payload = p; created_at = r.columns.created_at } ∷ rest
      | filesystem p ↦ rest
    ]

unfoldable pub filesystem_invocations : List (Row Invocation) → List FilesystemInvocation
filesystem_invocations [] = []
filesystem_invocations (r ∷ rs) =
    let rest = filesystem_invocations rs in
    elim (r.columns.payload) [
      | terminal p ↦ rest
      | filesystem p ↦
          record { seq = r.number; payload = p; created_at = r.columns.created_at } ∷ rest
    ]

unfoldable pub read_terminal_history : String → ToolStateStore → Result (List TerminalInvocation)
read_terminal_history session_id st =
    require_session st.sessions session_id
      (ok (terminal_invocations (read_history_rows session_id true st)))

unfoldable pub read_filesystem_history :
    String → ToolStateStore → Result (List FilesystemInvocation)
read_filesystem_history session_id st =
    require_session st.sessions session_id
      (ok (filesystem_invocations (read_history_rows session_id false st)))

-- `rows[-1]`, if there is one
abbrev pub last_state : List TerminalInvocation → Option TerminalState
last_state [] = none
last_state (i ∷ []) = some (record {
  cwd = i.payload.cwd;
  env = i.payload.env;
  running_processes = i.payload.running_processes;
  as_of_seq = i.seq;
})
last_state (i ∷ j ∷ is) = last_state (j ∷ is)

unfoldable pub read_terminal_state : String → ToolStateStore → Result (Option TerminalState)
read_terminal_state session_id st =
    require_session st.sessions session_id
      (ok (last_state (terminal_invocations (read_history_rows session_id true st))))
