-- ===== src/State/Reading.antt =====
-- What `read_session` shows, and that a trim leaves it.
use llm_home_lab.Base.{
  ℕ, ◌+◌, String, ◌≡◌, refl, ap, sym, ◌∙◌, subst, Bool, not, ◌&&◌, ◌⊎◌, inl, inr, none, some, List,
  [], ◌∷◌, ◌++◌, map, arith, eq_iff, string_eq, nat_eq, ◌==◌, filter, length, All, Option-cases,
}
use llm_home_lab.Base.Int.{ℤ, pos, ltb_ℤ}
use llm_home_lab.Dict.{lookup}
use llm_home_lab.State.{
  Row, Written, StoredMessage, Summary, Session, SessionStore, Result, ok, require_session,
  covered_seq, stored_message, messages_after, read_session, trimmed, trim,
}
use llm_home_lab.State.Messages.{Increasing, Increasing-filter, order_by_seq_lem}

-- `WHERE session_id = ? AND seq > ?`, in the order of insertion.
abbrev pub shown : String → ℤ → Row Written → Bool
shown id c r = r.of_session == id && ltb_ℤ c (pos r.number)

shown-All :
    (id : String) (c : ℤ) (rs : List (Row Written))
    → All (λ r. r.of_session ≡ id) (filter (shown id c) rs)
unfolding filter
shown-All id c [] = tt
shown-All id c (r ∷ rs) = ground (arith, shown-All id c rs, eq_iff r.of_session id)

pub messages_after_lem :
    (id : String) (c : ℤ) (rs : List (Row Written))
    → Increasing rs
    → messages_after id c rs ≡ map stored_message (filter (shown id c) rs)
unfolding messages_after
messages_after_lem id c rs i = ap (map stored_message) (
    order_by_seq_lem id (filter (shown id c) rs) (Increasing-filter (shown id c) rs i)
      (shown-All id c rs))

pub map-append :
    (xs ys : List (Row Written))
    → map stored_message (xs ++ ys) ≡ map stored_message xs ++ map stored_message ys
map-append [] ys = refl
map-append (x ∷ xs) ys = ap (λ k. stored_message x ∷ k) (map-append xs ys)

-- Rows that the deletion takes are not shown.
filter-trimmed :
    (id t : String) (c c' : ℤ) (rs : List (Row Written))
    → (id ≡ t → c ≡ c')
    → filter (shown t c') (filter (λ r. not (trimmed id c r)) rs) ≡ filter (shown t c') rs
unfolding filter trimmed
filter-trimmed id t c c' [] e = refl
filter-trimmed id t c c' (r ∷ rs) e =
    ground (arith, filter-trimmed id t c c' rs e, eq_iff r.of_session id, eq_iff r.of_session t, e)

trimmed-count :
    (id : String) (c : ℤ) (rs : List (Row Written))
    → length (filter (trimmed id c) rs) + length (filter (λ r. not (trimmed id c r)) rs) ≡ length rs
unfolding filter
trimmed-count id c [] = omega arith
trimmed-count id c (r ∷ rs) = ground (arith, trimmed-count id c rs)

abbrev pub IsValid : SessionStore → Type 0
IsValid st = Increasing st.messages

-- A session as its row, its summary and its shown messages make it.
unfoldable pub session_of : String → SessionStore → List StoredMessage → Result Session
unfolding require_session
session_of t st ms =
    require_session st.sessions t
      (ok (record { session_id = t; messages = ms; summary = lookup t st.summaries }))

pub read_session_lem :
    (t : String) (st : SessionStore)
    → read_session t st
      ≡ session_of t st (messages_after t (covered_seq (lookup t st.summaries)) st.messages)
unfolding read_session session_of
read_session_lem t st = refl

pub trim_lem :
    (id : String) (st st' : SessionStore) (n : ℕ)
    → trim id st ≡ ok (n, st')
    → ((lookup id st.summaries ≡ none) × (n ≡ 0) × (st' ≡ st))
      ⊎ ((s : Summary) × (lookup id st.summaries ≡ some s)
          × (n ≡ length (filter (trimmed id s.covers_up_to_seq) st.messages))
          × (st' ≡ record st {
            messages = filter (λ r. not (trimmed id s.covers_up_to_seq r)) st.messages;
          }))
unfolding trim require_session
trim_lem id st st' n h = elim (Option-cases (lookup id st.summaries)) [
  | inl none_yet ↦ inl (none_yet, ground arith, ground arith)
  | inr (s, found) ↦ inr (s, found, ground arith, ground arith)
]

filter-shown :
    (id t : String) (s : Summary) (st : SessionStore)
    → lookup id st.summaries ≡ some s
    → map stored_message (
        filter
          (shown t (covered_seq (lookup t st.summaries)))
          (filter (λ r. not (trimmed id s.covers_up_to_seq r)) st.messages))
      ≡ map stored_message (filter (shown t (covered_seq (lookup t st.summaries))) st.messages)
filter-shown id t s st found = ap (map stored_message) (
    filter-trimmed id t s.covers_up_to_seq (covered_seq (lookup t st.summaries)) st.messages (λ e.
      subst (λ i. s.covers_up_to_seq ≡ covered_seq (lookup i st.summaries)) e (rw found refl)))

-- Trimming a session changes what no session shows, and returns the number of the rows that it
-- deleted; the numbers of the rows keep growing.
pub read_session-trim :
    (id t : String) (st st' : SessionStore) (n : ℕ)
    → IsValid st
    → trim id st ≡ ok (n, st')
    → (read_session t st' ≡ read_session t st)
      × (n + length st'.messages ≡ length st.messages)
      × IsValid st'
unfolding session_of
read_session-trim id t st st' n v h = elim (trim_lem id st st' n h) [
  | inl (none_yet, zero_rows, same) ↦ (
    ap (read_session t) same,
    rw (zero_rows, same) (omega arith),
    subst (λ (k : SessionStore). IsValid k) (sym same) v,
  )
  | inr (s, found, rows, left) ↦
      let gone = trimmed id s.covers_up_to_seq in
      let kept = filter (λ r. not (gone r)) st.messages in
      let c = covered_seq (lookup t st.summaries) in
      let inc = Increasing-filter (λ r. not (gone r)) st.messages v in
      let same =
        messages_after_lem t c kept inc
        ∙ filter-shown id t s st found
        ∙ sym (messages_after_lem t c st.messages v) in
      (
        ap (read_session t) left
            ∙ read_session_lem t (record st { messages = kept })
            ∙ ap (session_of t st) same
            ∙ sym (read_session_lem t st),
        rw (rows, left) (trimmed-count id s.covers_up_to_seq st.messages),
        subst (λ (k : SessionStore). IsValid k) (sym left) inc,
      )
]
