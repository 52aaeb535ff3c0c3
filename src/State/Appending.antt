-- ===== src/State/Appending.antt =====
-- What `read_session` shows after an appended message, and when it shows it not.
use llm_home_lab.Base.{
  ℕ, ◌+◌, ◌≤◌, ◌<◌, String, ◌≡◌, ◌≢◌, refl, ap, sym, ◌∙◌, subst, true, false, not, inl, inr, none,
  some, List, [], ◌∷◌, ◌++◌, map, arith, eq_iff, string_eq, nat_eq, if◌then◌else◌, filter,
  filter-append, append_nil, All, Bool-cases,
}
use llm_home_lab.Base.Int.{ℤ, pos, negsuc, leb_ℤ, ltb_ℤ}
use llm_home_lab.Dict.{lookup, member}
use llm_home_lab.State.{
  Row, Written, Summary, Session, SessionStore, ok, max_seq, or_zero, require_session,
  append_message, covered_seq, stored_message, messages_after, read_session, trimmed, trim,
}
use llm_home_lab.State.Messages.{Increasing, max_seq-bound, insert_next_lem}
use llm_home_lab.State.Reading.{
  shown, map-append, messages_after_lem, read_session_lem, trim_lem, session_of, IsValid,
  read_session-trim,
}

unfoldable pub appended : String → String → String → String → SessionStore → Row Written
appended id role content created_at st = record {
  of_session = id;
  number = or_zero (max_seq id st.messages) + 1;
  columns = record { role = role; content = content; created_at = created_at };
}

pub append_message_lem :
    (id role content created_at : String) (st st' : SessionStore)
    → IsValid st
    → append_message id role content created_at st ≡ ok st'
    → (st' ≡ record st { messages = st.messages ++ appended id role content created_at st ∷ [] })
      × IsValid st'
unfolding append_message require_session appended
append_message_lem id role content created_at st st' v h =
    let (next, increasing) =
      insert_next_lem id (record { role = role; content = content; created_at = created_at })
        st.messages v in
    let same : st'
        ≡ record st { messages = st.messages ++ appended id role content created_at st ∷ [] } =
      ground (arith, next) in
    (same, subst (λ (k : SessionStore). IsValid k) (sym same) increasing)

messages_after-snoc :
    (t : String) (c : ℤ) (rs : List (Row Written)) (r : Row Written)
    → Increasing rs
    → Increasing (rs ++ r ∷ [])
    → messages_after t c (rs ++ r ∷ []) ≡ (
        if shown t c r
        then messages_after t c rs ++ stored_message r ∷ []
        else messages_after t c rs)
unfolding filter
messages_after-snoc t c rs r i j =
    let before = messages_after_lem t c rs i in
    let after =
      messages_after_lem t c (rs ++ r ∷ []) j
      ∙ ap (map stored_message) (filter-append (shown t c) rs (r ∷ []))
      ∙ map-append (filter (shown t c) rs) (filter (shown t c) (r ∷ [])) in
    elim (Bool-cases (shown t c r)) [
      | inl yes_shown ↦ rw yes_shown (rw before (after ∙ rw yes_shown refl))
      | inr hidden ↦
          rw hidden (
            rw before (after ∙ rw hidden (append_nil (map stored_message (filter (shown t c) rs)))))
    ]

read_session-inv :
    (id : String) (st : SessionStore) (s : Session)
    → read_session id st ≡ ok s
    → (member id st.sessions ≡ true)
      × (s ≡ record {
        session_id = id;
        messages = messages_after id (covered_seq (lookup id st.summaries)) st.messages;
        summary = lookup id st.summaries;
      })
unfolding read_session require_session
read_session-inv id st s h = (ground arith, ground arith)

-- What a session shows when a row is added to the messages.
read_session-snoc :
    (t : String) (st : SessionStore) (r : Row Written)
    → IsValid st
    → Increasing (st.messages ++ r ∷ [])
    → read_session t (record st { messages = st.messages ++ r ∷ [] })
      ≡ session_of t st (
          let c = covered_seq (lookup t st.summaries) in
          if shown t c r
          then messages_after t c st.messages ++ stored_message r ∷ []
          else messages_after t c st.messages)
unfolding session_of
read_session-snoc t st r v i =
    read_session_lem t (record st { messages = st.messages ++ r ∷ [] })
    ∙ ap (session_of t st)
        (messages_after-snoc t (covered_seq (lookup t st.summaries)) st.messages r v i)

read_session-hidden :
    (t : String) (st : SessionStore) (r : Row Written)
    → IsValid st
    → Increasing (st.messages ++ r ∷ [])
    → shown t (covered_seq (lookup t st.summaries)) r ≡ false
    → read_session t (record st { messages = st.messages ++ r ∷ [] }) ≡ read_session t st
unfolding session_of
read_session-hidden t st r v i hidden =
    read_session-snoc t st r v i ∙ rw hidden refl ∙ sym (read_session_lem t st)

-- After an appended message, the session shows the same messages and then this one, under the next
-- number, if its summary covers no more than the highest number in the store; every other session
-- shows what it showed.
pub read_session-append :
    (id role content created_at : String) (st st' : SessionStore) (s : Session)
    → IsValid st
    → append_message id role content created_at st ≡ ok st'
    → read_session id st ≡ ok s
    → leb_ℤ (covered_seq s.summary) (pos (or_zero (max_seq id st.messages))) ≡ true
    → (read_session id st'
        ≡ ok (record s {
          messages =
              s.messages
              ++ record {
                seq = or_zero (max_seq id st.messages) + 1;
                role = role;
                content = content;
                created_at = created_at;
              }
                ∷ [];
        }))
      × ((t : String) → t ≢ id → read_session t st' ≡ read_session t st)
unfolding session_of appended require_session
read_session-append id role content created_at st st' s v h r low =
    let (same, inc) = append_message_lem id role content created_at st st' v h in
    let row = appended id role content created_at st in
    let inc' = subst (λ (k : SessionStore). Increasing k.messages) same inc in
    let (registered, read) = read_session-inv id st s r in
    let c = covered_seq (lookup id st.summaries) in
    let seen : shown id c row ≡ true =
      ground (arith, eq_iff id id, low, ap (λ (k : Session). k.summary) read) in
    (
      rw (same, read) (read_session-snoc id st row v inc' ∙ rw (seen, registered) refl),
      λ t other. rw same (read_session-hidden t st row v inc' (ground (arith, eq_iff id t, other))),
    )

max_seq-trimmed :
    (id : String) (n : ℕ) (rs : List (Row Written))
    → All (λ r. r.of_session ≡ id → r.number ≤ n) rs
    → max_seq id (filter (λ r. not (trimmed id (pos n) r)) rs) ≡ none
unfolding max_seq filter trimmed
max_seq-trimmed id n [] a = refl
max_seq-trimmed id n (r ∷ rs) a =
    ground (arith, max_seq-trimmed id n rs a.1, a.0, eq_iff r.of_session id)

below_shown : (c : ℤ) (n m : ℕ) → leb_ℤ (pos n) c ≡ true → ltb_ℤ c (pos m) ≡ true → n < m
below_shown (pos c) n m h k = ground arith
below_shown (negsuc c) n m h k = ground arith

-- What a session shows is numbered above what its summary covers.
shown-above :
    (id : String) (c : ℤ) (n : ℕ) (rs : List (Row Written))
    → leb_ℤ (pos n) c ≡ true
    → All (λ m. n < m.seq) (map stored_message (filter (shown id c) rs))
unfolding filter
shown-above id c n [] h = tt
shown-above id c n (r ∷ rs) h = elim (Bool-cases (shown id c r)) [
  | inl yes_shown ↦
      rw yes_shown (below_shown c n r.number h (ground arith), shown-above id c n rs h)
  | inr hidden ↦ rw hidden (shown-above id c n rs h)
]

-- A session that is summarized up to its highest number and then trimmed numbers its messages from
-- one again: the next message is stored under number 1. The session shows what it showed before, and
-- no read of any later store with a summary that covers number 1 shows a message of that number.
pub trim-hides_next :
    (id role content created_at : String) (st st1 st2 later : SessionStore) (n : ℕ) (s s' : Summary)
    (x : Session)
    → IsValid st
    → lookup id st.summaries ≡ some s
    → s.covers_up_to_seq ≡ pos (or_zero (max_seq id st.messages))
    → 1 ≤ or_zero (max_seq id st.messages)
    → trim id st ≡ ok (n, st1)
    → append_message id role content created_at st1 ≡ ok st2
    → IsValid later
    → lookup id later.summaries ≡ some s'
    → leb_ℤ (pos 1) s'.covers_up_to_seq ≡ true
    → read_session id later ≡ ok x
    → (st2 ≡ record st1 {
      messages =
          st1.messages
          ++ record {
            of_session = id;
            number = 1;
            columns = record { role = role; content = content; created_at = created_at };
          }
            ∷ [];
    })
      × (read_session id st2 ≡ read_session id st1)
      × All (λ m. 1 < m.seq) x.messages
unfolding appended
trim-hides_next id role content created_at st st1 st2 later n s s' x v found covers some_row h k v'
      found' covers' r =
    elim (trim_lem id st st1 n h) [
      | inl (none_yet, zero_rows, same) ↦ absurd (ground (arith, found, none_yet))
      | inr (own_summary, found_own, rows, left) ↦
          let kept_valid = (read_session-trim id id st st1 n v h).2 in
          let (same, inc) = append_message_lem id role content created_at st1 st2 kept_valid k in
          let row = appended id role content created_at st1 in
          let m = or_zero (max_seq id st.messages) in
          let own : own_summary ≡ s = ground (arith, found, found_own) in
          let fresh : max_seq id st1.messages ≡ none =
            rw (left, own, covers)
              (max_seq-trimmed id m st.messages (max_seq-bound id st.messages)) in
          let summary : lookup id st1.summaries ≡ some s = rw left found in
          let hidden : shown id (covered_seq (lookup id st1.summaries)) row ≡ false =
            rw (summary, fresh, covers) (ground (arith, some_row)) in
          let (registered, read) = read_session-inv id later x r in
          (
            same ∙ rw fresh refl,
            rw same (
                read_session-hidden id st1 row kept_valid
                  (subst (λ (y : SessionStore). Increasing y.messages) same inc) hidden),
            rw (read, found', messages_after_lem id s'.covers_up_to_seq later.messages v')
                (shown-above id s'.covers_up_to_seq 1 later.messages covers'),
          )
    ]
