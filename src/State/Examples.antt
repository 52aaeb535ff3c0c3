-- ===== src/State/Examples.antt =====
-- The store theorems at a session with three messages.
use llm_home_lab.Base.{
  All, ◌<◌, ℕ, ◌+◌, ◌≤◌, arith, String, ◌≡◌, ◌≢◌, refl, true, none, some, List, [], ◌∷◌, ◌++◌,
  string_eq, filter, any, length,
}
use llm_home_lab.Base.Int.{pos, leb_ℤ}
use llm_home_lab.Dict.{insert, lookup, insert, member}
use llm_home_lab.State.{
  Row, Written, Summary, Session, SessionStore, ok, max_seq, or_zero, order_by_seq, insert_row,
  insert_next, require_session, create_session, err, integrity_error, append_message,
  messages_after, read_session, trimmed, trim,
}
use llm_home_lab.State.Reading.{IsValid, read_session-trim}
use llm_home_lab.State.Appending.{read_session-append, trim-hides_next}
use llm_home_lab.State.Histories.{creates, step}
use llm_home_lab.State.Overlaps.{
  Event, calls, selects, inserts, happen, happen_all, begun, insert_selected,
}
use llm_home_lab.State.Tools.{
  TerminalPayload, terminal, ToolStateStore, record_terminal, record_invocation, read_history_rows,
  terminal_invocations, read_terminal_history, read_terminal_state, read_filesystem_history,
}
use llm_home_lab.State.Tools.History.{read-record_terminal, IsValid as ToolsValid}
use llm_home_lab.State.Workspaces.{
  WorkspaceSnapshot, WorkspaceStore, capture, read, row_of, read-capture,
}

abbrev written : String → Written
written text = record { role = "user"; content = text; created_at = "t" }

abbrev row : ℕ → String → Row Written
row n text = record { of_session = "s"; number = n; columns = written text }

abbrev summary : Summary
summary = record { covers_up_to_seq = pos 2; summary_text = "two"; created_at = "t" }

abbrev three : SessionStore
three = record {
  sessions = ("s", "t") ∷ [];
  messages = row 1 "a" ∷ row 2 "b" ∷ row 3 "c" ∷ [];
  summaries = ("s", summary) ∷ [];
}

three-IsValid : IsValid three
three-IsValid = ground arith

abbrev trimmed_store : SessionStore
trimmed_store = record three { messages = row 3 "c" ∷ [] }

trim_test : trim "s" three ≡ ok (2, trimmed_store)
unfolding trim require_session member lookup trimmed filter
trim_test = refl

read_session-trim_example :
    (read_session "s" trimmed_store ≡ read_session "s" three)
    × (2 + length trimmed_store.messages ≡ length three.messages)
    × IsValid trimmed_store
read_session-trim_example = read_session-trim "s" "s" three trimmed_store 2 three-IsValid trim_test

abbrev four : SessionStore
four = record three { messages = row 1 "a" ∷ row 2 "b" ∷ row 3 "c" ∷ row 4 "d" ∷ [] }

append_test : append_message "s" "user" "d" "t" three ≡ ok four
unfolding append_message insert_next max_seq any require_session member lookup
append_test = refl

abbrev seen : Session
seen = record {
  session_id = "s";
  messages = record { seq = 3; role = "user"; content = "c"; created_at = "t" } ∷ [];
  summary = some summary;
}

read_test : read_session "s" three ≡ ok seen
unfolding read_session messages_after order_by_seq insert_row filter require_session member lookup
read_test = refl

low_test : ◌≡◌ (leb_ℤ (pos 2) (pos (or_zero (max_seq "s" three.messages)))) true
unfolding max_seq
low_test = refl

read_session-append_example :
    (read_session "s" four
      ≡ ok (record seen {
        messages =
            seen.messages
            ++ record {
              seq = or_zero (max_seq "s" three.messages) + 1;
              role = "user";
              content = "d";
              created_at = "t";
            }
              ∷ [];
      }))
    × ((t : String) → t ≢ "s" → read_session t four ≡ read_session t three)
read_session-append_example =
    read_session-append "s" "user" "d" "t" three four seen three-IsValid append_test read_test
      low_test

-- A session with one message that is summarized and trimmed.
abbrev whole : Summary
whole = record { covers_up_to_seq = pos 1; summary_text = "all"; created_at = "t" }

abbrev covered_store : SessionStore
covered_store = record {
  sessions = ("s", "t") ∷ [];
  messages = row 1 "a" ∷ [];
  summaries = ("s", whole) ∷ [];
}

abbrev emptied_store : SessionStore
emptied_store = record covered_store { messages = [] }

abbrev later_store : SessionStore
later_store = record covered_store { messages = row 1 "b" ∷ [] }

covered_test : lookup "s" covered_store.summaries ≡ some whole
unfolding lookup
covered_test = refl

highest_test : pos 1 ≡ pos (or_zero (max_seq "s" covered_store.messages))
unfolding max_seq
highest_test = refl

some_test : 1 ≤ or_zero (max_seq "s" covered_store.messages)
unfolding max_seq
some_test = ground arith

emptied_test : trim "s" covered_store ≡ ok (1, emptied_store)
unfolding trim require_session member lookup trimmed filter
emptied_test = refl

later_test : append_message "s" "user" "b" "t" emptied_store ≡ ok later_store
unfolding append_message insert_next max_seq any require_session member lookup
later_test = refl

abbrev shown_later : Session
shown_later = record { session_id = "s"; messages = []; summary = some whole }

shown_later_test : read_session "s" later_store ≡ ok shown_later
unfolding read_session messages_after order_by_seq insert_row filter require_session member lookup
shown_later_test = refl

trim-hides_next_example :
    (later_store ≡ record emptied_store { messages = emptied_store.messages ++ row 1 "b" ∷ [] })
    × (read_session "s" later_store ≡ read_session "s" emptied_store)
    × All (λ m. 1 < m.seq) shown_later.messages
trim-hides_next_example =
    trim-hides_next "s" "user" "b" "t" covered_store emptied_store later_store later_store 1 whole
      whole shown_later (tt, tt) covered_test highest_test some_test emptied_test later_test
      (tt, tt) covered_test refl shown_later_test

-- Two appends that both select before either inserts.
abbrev overlapping : List Event
overlapping =
    calls (creates "s" "t")
    ∷ selects 0 "s"
    ∷ selects 1 "s"
    ∷ inserts 0 (record { role = "user"; content = "a"; created_at = "t" })
    ∷ []

-- The second of them is refused.
overlap_test :
    insert_selected
      ((happen_all overlapping begun).selected 1)
      (record { role = "user"; content = "b"; created_at = "t" })
      (happen_all overlapping begun).store
    ≡ err integrity_error
unfolding happen_all happen insert_selected step create_session member lookup insert max_seq any
overlap_test = refl

abbrev shell : TerminalPayload
shell = record {
  command = "ls";
  cwd = "/srv";
  exit_code = pos 0;
  output = "a";
  env = [];
  running_processes = [];
}

abbrev tools : ToolStateStore
tools = record { sessions = ("s", "t") ∷ []; tool_invocations = [] }

abbrev tools_after : ToolStateStore
tools_after = record tools {
  tool_invocations =
      record {
        of_session = "s";
        number = 1;
        columns = record { payload = terminal shell; created_at = "t" };
      }
      ∷ [];
}

record_test : record_terminal "s" shell "t" tools ≡ ok tools_after
unfolding record_invocation insert_next max_seq any require_session member lookup
record_test = refl

history_test : read_terminal_history "s" tools ≡ ok []
unfolding read_terminal_history read_history_rows order_by_seq filter terminal_invocations
    require_session member lookup
history_test = refl

read-record_terminal_example :
    let n = or_zero (max_seq "s" tools.tool_invocations) + 1 in
    (read_terminal_history "s" tools_after
      ≡ ok ([] ++ record { seq = n; payload = shell; created_at = "t" } ∷ []))
    × (read_terminal_state "s" tools_after
        ≡ ok (some (record { cwd = "/srv"; env = []; running_processes = []; as_of_seq = n })))
    × (read_filesystem_history "s" tools_after ≡ read_filesystem_history "s" tools)
    × ToolsValid tools_after
read-record_terminal_example =
    read-record_terminal "s" shell "t" tools tools_after [] tt record_test history_test

abbrev snapshot : WorkspaceSnapshot
snapshot = record {
  session_id = "s";
  branch = "main";
  git_diff = "";
  diff_truncated = true;
  open_files = "a.py" ∷ [];
  open_files_truncated = true;
  test_status = none;
  created_at = "t";
}

abbrev desk : WorkspaceStore
desk = record { sessions = ("s", "t") ∷ []; workspace_snapshots = [] }

abbrev desk_after : WorkspaceStore
desk_after = record desk { workspace_snapshots = ("s", row_of snapshot) ∷ [] }

capture_test : capture snapshot desk ≡ ok desk_after
unfolding capture require_session member lookup insert
capture_test = refl

read-capture_test :
    (read "s" desk_after ≡ ok (some snapshot))
    × ((t : String) → t ≢ "s" → read t desk_after ≡ read t desk)
read-capture_test = read-capture snapshot desk desk_after capture_test
