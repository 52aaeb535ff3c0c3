-- ===== src/State/Overlaps.antt =====
-- Appends of src/llm_home_lab/state/store.py that overlap: each of their two statements is a step of its
-- own, since the store takes no lock and every call has a connection of its own. The tasks are numbers.
use llm_home_lab.Base.{
  ℕ, String, ◌≡◌, Bool, false, ◌&&◌, Option, none, some, List, [], ◌∷◌, ◌==◌, string_eq, nat_eq,
  if◌then◌else◌, any,
}
use llm_home_lab.Dict.{member}
use llm_home_lab.State.{
  Row, Written, SessionStore, Result, ok, next_seq, insert_numbered, with_messages, empty,
}
use llm_home_lab.State.Histories.{Call, committed, step}

-- The store, and the number that each task has selected for a session.
pub record Shared : Type 0 where
  pub store : SessionStore
  pub selected : ℕ → Option (String × ℕ)

-- A whole call, or one statement of an append.
pub data Event : Type 0 where
  calls : Call → Event
  selects : ℕ → String → Event
  inserts : ℕ → Written → Event

-- The INSERT of a task that has selected a number.
unfoldable pub insert_selected : Option (String × ℕ) → Written → SessionStore → Result SessionStore
insert_selected none w st = ok st
insert_selected (some (id, n)) w st = with_messages st (insert_numbered id n w st.messages)

unfoldable pub happen : Event → Shared → Shared
happen (calls c) s = record s { store = step c s.store }
happen (selects task id) s =
    if member id s.store.sessions
    then record s {
      selected = λ t. if t == task then some (id, next_seq id s.store.messages) else s.selected t;
    }
    else s
happen (inserts task w) s = record s {
  store = committed s.store (insert_selected (s.selected task) w s.store);
}

unfoldable pub happen_all : List Event → Shared → Shared
happen_all [] s = s
happen_all (e ∷ es) s = happen_all es (happen e s)

abbrev pub has_key : String → ℕ → List (Row Written) → Bool
has_key id n rows = any (λ r. r.of_session == id && r.number == n) rows

-- No two rows have one key.
abbrev pub Distinct : List (Row Written) → Type 0
Distinct [] = Unit
Distinct (r ∷ rs) = (has_key r.of_session r.number rs ≡ false) × Distinct rs

abbrev pub begun : Shared
begun = record { store = empty; selected = λ t. none }
