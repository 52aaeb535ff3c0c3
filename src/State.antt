-- ===== src/State.antt =====
-- src/llm_home_lab/state: models.py, sqlite_base.py and store.py, the sessions with their messages and
-- summaries in sqlite. A table is the list of its rows in the order they were inserted; a connection
-- commits when the call returns and leaves the tables when it raises. `covers_up_to_seq` is an integer.
mod Messages
mod Reading
mod Appending
mod Histories
mod Overlaps
pub mod Tools
pub mod Workspaces
mod Examples
use llm_home_lab.Base.{
  ℕ, ◌+◌, String, ◌≡◌, Bool, true, false, not, ◌&&◌, Option, none, some, List, [], ◌∷◌, ◌++◌, map,
  leb, max, if◌then◌else◌, ◌==◌, string_eq, nat_eq, filter, any, length,
}
use llm_home_lab.Base.Int.{ℤ, pos, leb_ℤ, ltb_ℤ}
use llm_home_lab.Dict.{Dict, lookup, insert, member}

-- `sqlite3.IntegrityError` is what a second row of one primary key raises.
pub data StateError : Type 0 where
  session_not_found : String → StateError
  invalid_summary : String → ℤ → ℕ → StateError
  integrity_error : StateError

pub data Result {ℓ} (A : Type ℓ) : Type ℓ where
  ok : A → Result A
  err : StateError → Result A

pub record StoredMessage : Type 0 where
  pub seq : ℕ
  pub role : String
  pub content : String
  pub created_at : String

pub record Summary : Type 0 where
  pub covers_up_to_seq : ℤ
  pub summary_text : String
  pub created_at : String

pub record Session : Type 0 where
  pub session_id : String
  pub messages : List StoredMessage
  pub summary : Option Summary

-- The row of a numbered table: the session, the number in it, and the other columns.
pub record Row {ℓ} (A : Type ℓ) : Type ℓ where
  pub of_session : String
  pub number : ℕ
  pub columns : A

-- `SELECT MAX(seq) FROM ... WHERE session_id = ?`, NULL where there is no row.
unfoldable pub max_seq {ℓ} : {A : Type ℓ} → String → List (Row A) → Option ℕ
max_seq session_id [] = none
max_seq session_id (r ∷ rs) =
    let later = max_seq session_id rs in
    if r.of_session == session_id
    then elim later [ none ↦ some r.number | some n ↦ some (max r.number n) ]
    else later

-- `row[0] or 0`
abbrev pub or_zero : Option ℕ → ℕ
or_zero none = 0
or_zero (some n) = n

insert_row {ℓ} : {A : Type ℓ} → Row A → List (Row A) → List (Row A)
insert_row r [] = r ∷ []
insert_row r (s ∷ rs) = if leb r.number s.number then r ∷ s ∷ rs else s ∷ insert_row r rs

-- `ORDER BY seq`
unfoldable pub order_by_seq {ℓ} : {A : Type ℓ} → List (Row A) → List (Row A)
unfolding insert_row
order_by_seq [] = []
order_by_seq (r ∷ rs) = insert_row r (order_by_seq rs)

abbrev pub next_seq {ℓ} : {A : Type ℓ} → String → List (Row A) → ℕ
next_seq session_id rows = or_zero (max_seq session_id rows) + 1

-- `INSERT` under the primary key (session_id, seq).
abbrev pub insert_numbered {ℓ} :
    {A : Type ℓ} → String → ℕ → A → List (Row A) → Result (List (Row A))
insert_numbered session_id n columns rows =
    if any (λ r. r.of_session == session_id && r.number == n) rows
    then err integrity_error
    else ok (rows ++ record { of_session = session_id; number = n; columns = columns } ∷ [])

-- Both statements, with no other call between them.
unfoldable pub insert_next {ℓ} : {A : Type ℓ} → String → A → List (Row A) → Result (List (Row A))
insert_next session_id columns rows =
    insert_numbered session_id (next_seq session_id rows) columns rows

-- `_require_session`, before the body of every call but `create_session`.
unfoldable pub require_session {ℓ} :
    {A : Type ℓ} → Dict String String → String → Result A → Result A
require_session sessions session_id body =
    if member session_id sessions then body else err (session_not_found session_id)

pub record Written : Type 0 where
  pub role : String
  pub content : String
  pub created_at : String

pub record SessionStore : Type 0 where
  pub sessions : Dict String String
  pub messages : List (Row Written)
  pub summaries : Dict String Summary

abbrev pub empty : SessionStore
empty = record { sessions = []; messages = []; summaries = [] }

unfoldable pub create_session : String → String → SessionStore → Result SessionStore
create_session session_id created_at st =
    if member session_id st.sessions
    then err integrity_error
    else ok (record st { sessions = insert session_id created_at st.sessions })

-- What a statement that gives the new rows makes of the store.
abbrev pub with_messages : SessionStore → Result (List (Row Written)) → Result SessionStore
with_messages st (ok rows) = ok (record st { messages = rows })
with_messages st (err e) = err e

unfoldable pub append_message :
    String → String → String → String → SessionStore → Result SessionStore
append_message session_id role content created_at st = require_session st.sessions session_id (
    with_messages st (
      insert_next session_id (record { role = role; content = content; created_at = created_at })
        st.messages))

abbrev pub covered_seq : Option Summary → ℤ
covered_seq none = pos 0
covered_seq (some s) = s.covers_up_to_seq

abbrev pub stored_message : Row Written → StoredMessage
stored_message r = record {
  seq = r.number;
  role = r.columns.role;
  content = r.columns.content;
  created_at = r.columns.created_at;
}

-- `WHERE session_id = ? AND seq > ? ORDER BY seq`
unfoldable pub messages_after : String → ℤ → List (Row Written) → List StoredMessage
messages_after session_id covered rows =
    map stored_message
      (order_by_seq (filter (λ r. r.of_session == session_id && ltb_ℤ covered (pos r.number)) rows))

unfoldable pub read_session : String → SessionStore → Result Session
read_session session_id st = require_session st.sessions session_id (
    let summary = lookup session_id st.summaries in
    ok (record {
      session_id = session_id;
      messages = messages_after session_id (covered_seq summary) st.messages;
      summary = summary;
    }))

unfoldable pub summarize : String → String → ℤ → String → SessionStore → Result SessionStore
summarize session_id summary_text covers created_at st = require_session st.sessions session_id (
    let highest = or_zero (max_seq session_id st.messages) in
    if ltb_ℤ (pos highest) covers
    then err (invalid_summary session_id covers highest)
    else ok (record st {
      summaries =
          insert session_id
            (record {
              covers_up_to_seq = covers;
              summary_text = summary_text;
              created_at = created_at;
            })
            st.summaries;
    }))

unfoldable pub trimmed : String → ℤ → Row Written → Bool
trimmed session_id covered r = r.of_session == session_id && leb_ℤ (pos r.number) covered

-- With the number of the deleted rows.
unfoldable pub trim : String → SessionStore → Result (ℕ × SessionStore)
unfolding trimmed
trim session_id st = require_session st.sessions session_id (elim (lookup session_id st.summaries) [
  | none ↦ ok (0, st)
  | some s ↦
      let gone = trimmed session_id s.covers_up_to_seq in
      ok (
        length (filter gone st.messages),
        record st { messages = filter (λ r. not (gone r)) st.messages },
      )
])
