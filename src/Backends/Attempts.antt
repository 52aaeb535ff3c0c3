-- ===== src/Backends/Attempts.antt =====
-- The chunks that a stream yields are those of one attempt: no text is delivered twice.
use llm_home_lab.Base.{
  ℕ, zero, suc, ◌+◌, ◌/◌, ◌<◌, String, ◌≡◌, refl, subst, ◌⊎◌, inl, inr, Option, none, some, List,
  [], ◌∷◌, arith, ◌==◌, nat_eq, Bool-cases,
}
use llm_home_lab.Backends.{
  BackendChunk, StreamError, backend_connection, Parsed, NetworkError, timed_out, transport_error,
  Attempt, unreachable, responded, Stop, told_done, no_more_lines, bad_line, Then, finished, raises,
  retries, read_lines, broken_off, stopped, go_on, run_attempt, stream_chunks, stream,
}

module _ (parse : String → Option Parsed) where
  -- An attempt after which the next one begins has yielded nothing.
  broken_off-retries :
      (chunks : List BackendChunk) (e : NetworkError)
      → broken_off parse chunks e ≡ retries
      → chunks ≡ []
  unfolding broken_off
  broken_off-retries chunks timed_out h = absurd (cc)
  broken_off-retries [] transport_error h = refl
  broken_off-retries (c ∷ cs) transport_error h = absurd (cc)

  stopped-retries :
      (chunks : List BackendChunk) (s : Stop) (e : Option NetworkError)
      → stopped parse chunks s e ≡ retries
      → chunks ≡ []
  unfolding stopped
  stopped-retries chunks told_done e h = absurd (cc)
  stopped-retries chunks bad_line e h = absurd (cc)
  stopped-retries chunks no_more_lines none h = absurd (cc)
  stopped-retries chunks no_more_lines (some e) h = broken_off-retries chunks e h

  run_attempt-retries :
      (a : Attempt) → (run_attempt parse a).1 ≡ retries → (run_attempt parse a).0 ≡ []
  unfolding run_attempt
  run_attempt-retries (unreachable e) h = refl
  run_attempt-retries (responded status lines e) h = elim (Bool-cases (status / 100 == 2)) [
    | inl good ↦
        ground (arith, stopped-retries (read_lines parse lines).0 (read_lines parse lines).1 e)
    | inr bad ↦ rw (run_attempt, bad) refl
  ]

  -- From the attempt `n` on, `k` attempts are followed by the next.
  abbrev pub AllRetry : (ℕ → Attempt) → ℕ → ℕ → Type 0
  AllRetry attempts n zero = Unit
  AllRetry attempts n (suc k) =
      ((run_attempt parse (attempts n)).1 ≡ retries) × AllRetry attempts (n + 1) k

  -- The end of the stream if this attempt is the last.
  abbrev pub EndsWith : Then → Option StreamError → Type 0
  EndsWith finished end = end ≡ none
  EndsWith (raises e) end = end ≡ some e
  EndsWith retries end = ⊥

  -- The chunks and the end are those of one attempt, or every attempt was followed by another.
  abbrev pub OneAttempt : (ℕ → Attempt) → ℕ → ℕ → List BackendChunk × Option StreamError → Type 0
  OneAttempt attempts left n x =
      ((k : ℕ) × (k < left)
        × AllRetry attempts n k
        × (x.0 ≡ (run_attempt parse (attempts (k + n))).0)
        × EndsWith (run_attempt parse (attempts (k + n))).1 x.1)
      ⊎ (AllRetry attempts n left × (x ≡ ([], some backend_connection)))

  -- The attempt at hand is the one.
  this_attempt :
      (attempts : ℕ → Attempt) (left n : ℕ) (x : List BackendChunk × Option StreamError)
      → x.0 ≡ (run_attempt parse (attempts n)).0
      → EndsWith (run_attempt parse (attempts n)).1 x.1
      → OneAttempt attempts (suc left) n x
  this_attempt attempts left n x same end =
      let here : n ≡ 0 + n = omega arith in
      inl (
        0,
        omega arith,
        tt,
        subst (λ i. x.0 ≡ (run_attempt parse (attempts i)).0) here same,
        subst (λ i. EndsWith (run_attempt parse (attempts i)).1 x.1) here end,
      )

  go_on-OneAttempt :
      (attempts : ℕ → Attempt) (left n : ℕ) (t : Then)
      (rest : List BackendChunk × Option StreamError)
      → (run_attempt parse (attempts n)).1 ≡ t
      → OneAttempt attempts left (n + 1) rest
      → OneAttempt attempts (suc left) n (go_on parse t (run_attempt parse (attempts n)).0 rest)
  go_on-OneAttempt attempts left n finished rest e o =
      this_attempt attempts left n _ refl (rw e refl)
  go_on-OneAttempt attempts left n (raises x) rest e o =
      this_attempt attempts left n _ refl (rw e refl)
  go_on-OneAttempt attempts left n retries rest e (inl (k, le, before, same, end)) =
      let there : k + (n + 1) ≡ suc k + n = omega arith in
      inl (
        suc k,
        omega (arith, le),
        (e, before),
        rw (run_attempt-retries (attempts n) e)
            (subst (λ i. rest.0 ≡ (run_attempt parse (attempts i)).0) there same),
        subst (λ i. EndsWith (run_attempt parse (attempts i)).1 rest.1) there end,
      )
  go_on-OneAttempt attempts left n retries rest e (inr (before, same)) =
      inr ((e, before), rw (run_attempt-retries (attempts n) e, same) refl)

  stream_chunks-OneAttempt :
      (attempts : ℕ → Attempt) (left n : ℕ)
      → OneAttempt attempts left n (stream_chunks parse attempts left n)
  unfolding stream_chunks
  stream_chunks-OneAttempt attempts zero n = inr (tt, refl)
  stream_chunks-OneAttempt attempts (suc left) n =
      go_on-OneAttempt attempts left n (run_attempt parse (attempts n)).1
        (stream_chunks parse attempts left (n + 1)) refl
        (stream_chunks-OneAttempt attempts left (n + 1))

  -- A stream with `max_retries` yields the chunks of just one of its first `max_retries + 1` attempts,
  -- which ends it, all before having yielded nothing and failed in transport; or all of these attempts
  -- failed so, it yields nothing and it raises a connection error.
  pub stream-OneAttempt :
      (attempts : ℕ → Attempt) (max_retries : ℕ)
      → OneAttempt attempts (max_retries + 1) 0 (stream parse attempts max_retries)
        × ((a : Attempt) → (run_attempt parse a).1 ≡ retries → (run_attempt parse a).0 ≡ [])
  unfolding stream
  stream-OneAttempt attempts max_retries =
      (stream_chunks-OneAttempt attempts (max_retries + 1) 0, run_attempt-retries)
