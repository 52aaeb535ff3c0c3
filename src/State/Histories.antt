-- ===== src/State/Histories.antt =====
-- The numbers of the messages over any calls of the session store.
use llm_home_lab.Base.{
  ℕ, ◌+◌, String, ◌≡◌, refl, true, List, [], ◌∷◌, ◌++◌, arith, string_eq, nat_eq,
}
use llm_home_lab.Base.Int.{ℤ}
use llm_home_lab.Dict.{member}
use llm_home_lab.State.{
  SessionStore, Result, ok, err, max_seq, or_zero, require_session, empty, create_session,
  append_message, summarize, trim,
}
use llm_home_lab.State.Messages.{insert_next_lem}
use llm_home_lab.State.Reading.{IsValid, read_session-trim}
use llm_home_lab.State.Appending.{append_message_lem}

pub data Call : Type 0 where
  creates : String → String → Call
  appends : String → String → String → String → Call
  summarizes : String → String → ℤ → String → Call
  trims : String → Call

-- The store after a call that may raise: an exception leaves the tables.
abbrev pub committed : SessionStore → Result SessionStore → SessionStore
committed st (ok st') = st'
committed st (err e) = st

abbrev pub second : Result (ℕ × SessionStore) → Result SessionStore
second (ok r) = ok (r.1)
second (err e) = err e

unfoldable pub step : Call → SessionStore → SessionStore
step (creates id at) st = committed st (create_session id at st)
step (appends id role content at) st = committed st (append_message id role content at st)
step (summarizes id text covers at) st = committed st (summarize id text covers at st)
step (trims id) st = committed st (second (trim id st))

unfoldable pub run : List Call → SessionStore → SessionStore
run [] st = st
run (c ∷ cs) st = run cs (step c st)

committed-IsValid :
    (st : SessionStore) (r : Result SessionStore)
    → IsValid st
    → ((st' : SessionStore) → r ≡ ok st' → IsValid st')
    → IsValid (committed st r)
committed-IsValid st (ok st') v f = f st' refl
committed-IsValid st (err e) v f = v

second_ok :
    (r : Result (ℕ × SessionStore)) (st' : SessionStore)
    → second r ≡ ok st'
    → (n : ℕ) × (r ≡ ok (n, st'))
second_ok (ok r) st' h = (r.0, ground arith)
second_ok (err e) st' h = absurd (cc)

step-IsValid : (c : Call) (st : SessionStore) → IsValid st → IsValid (step c st)
unfolding step create_session summarize require_session
step-IsValid (creates id at) st v = ground arith
step-IsValid (appends id role content at) st v =
    committed-IsValid st (append_message id role content at st) v
      λ st' h. (append_message_lem id role content at st st' v h).1
step-IsValid (summarizes id text covers at) st v = ground arith
step-IsValid (trims id) st v =
    committed-IsValid st (second (trim id st)) v
      λ st' h. let (n, k) = second_ok (trim id st) st' h in (read_session-trim id id st st' n v k).2

runs-IsValid : (cs : List Call) (st : SessionStore) → IsValid st → IsValid (run cs st)
unfolding run
runs-IsValid [] st v = v
runs-IsValid (c ∷ cs) st v = runs-IsValid cs (step c st) (step-IsValid c st v)

-- After any calls made one after another on an empty store the numbers of a session's messages grow in the order of their
-- insertion, and an append to a session that exists never meets a number in use.
pub run-Increasing :
    (cs : List Call) (id role content created_at : String)
    → IsValid (run cs empty)
      × (member id (run cs empty).sessions ≡ true
          → (st' : SessionStore) × (append_message id role content created_at (run cs empty)
              ≡ ok st'))
unfolding append_message require_session
run-Increasing cs id role content created_at =
    let st = run cs empty in
    let v = runs-IsValid cs empty tt in
    let (next, increasing) =
      insert_next_lem id (record { role = role; content = content; created_at = created_at })
        st.messages v in
    (
      v,
      λ m. (
        record st {
          messages =
              st.messages
              ++ record {
                of_session = id;
                number = or_zero (max_seq id st.messages) + 1;
                columns = record { role = role; content = content; created_at = created_at };
              }
                ∷ [];
        },
        rw (m, next) refl,
      ),
    )
