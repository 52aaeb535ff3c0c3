-- ===== src/Api/Lifetime.antt =====
-- `SlotStream` of src/llm_home_lab/api/lifetime.py. The generator that it wraps, how it answers and what
-- closing it does are given, and so is the release of the slot, on any state `R`. One call of the
-- stream ends before the next begins.
use llm_home_lab.Base.{
  ◌≡◌, refl, sym, ap, subst, ◌∙◌, Bool, true, false, List, [], ◌∷◌, if◌then◌else◌, inl, inr, arith,
  Bool-cases,
}

-- The generator's answer: an item, or the exception that ends it (StopAsyncIteration included).
pub data Answer (S A E : Type 0) : Type 0 where
  item : A → S → Answer S A E
  ends : E → S → Answer S A E

pub record SlotStream (S R : Type 0) : Type 0 where
  pub chunks : S
  pub closed : Bool
  pub held : R

-- The calls of a client of the stream.
pub data Ask : Type 0 where
  anext aclose : Ask

-- What `__anext__` returns or raises.
pub data Given (A E : Type 0) : Type 0 where
  got : A → Given A E
  raised : E → Given A E

module _ {S A E R : Type 0} (answer : S → Answer S A E) (close : S → S) (release : R → R)
    (stop : E) where
  unfoldable pub opened : S → R → SlotStream S R
  opened s r = record { chunks = s; closed = false; held = r }

  -- `aclose`
  unfoldable pub close_stream : SlotStream S R → SlotStream S R
  close_stream s =
      if s.closed
      then s
      else record { chunks = close s.chunks; closed = true; held = release s.held }

  abbrev pub after_answer : Answer S A E → SlotStream S R → Given A E × SlotStream S R
  after_answer (item a chunks) s = (got a, record s { chunks = chunks })
  after_answer (ends e chunks) s = (raised e, close_stream (record s { chunks = chunks }))

  -- `__anext__`
  unfoldable pub next_chunk : SlotStream S R → Given A E × SlotStream S R
  next_chunk s = if s.closed then (raised stop, s) else after_answer (answer s.chunks) s

  unfoldable pub call : Ask → SlotStream S R → SlotStream S R
  call anext s = (next_chunk s).1
  call aclose s = close_stream s

  unfoldable pub run : List Ask → SlotStream S R → SlotStream S R
  run [] s = s
  run (a ∷ asks) s = run asks (call a s)

  -- `SlotStreamingResponse.__call__`: whatever the response asks for, the stream is closed at last.
  unfoldable pub respond : List Ask → SlotStream S R → SlotStream S R
  respond asks s = close_stream (run asks s)

  -- The slot is held until the stream is closed, and released once then.
  abbrev pub Released : R → SlotStream S R → Type 0
  Released r s = s.held ≡ (if s.closed then release r else r)

  close_stream-Released : (r : R) (s : SlotStream S R) → Released r s → Released r (close_stream s)
  unfolding close_stream
  close_stream-Released r s h = ground (arith, h)

  close_stream-closed : (s : SlotStream S R) → (close_stream s).closed ≡ true
  unfolding close_stream
  close_stream-closed s = ground arith

  closed-next : (s : SlotStream S R) → s.closed ≡ true → next_chunk s ≡ (raised stop, s)
  unfolding next_chunk
  closed-next s over = rw (next_chunk, over) refl

  open-next :
      (s : SlotStream S R) → s.closed ≡ false → next_chunk s ≡ after_answer (answer s.chunks) s
  unfolding next_chunk
  open-next s live = rw (next_chunk, live) refl

  call-closed : (a : Ask) (s : SlotStream S R) → s.closed ≡ true → (call a s).closed ≡ true
  unfolding call
  call-closed anext s over = subst (λ x. x.1.closed ≡ true) (sym (closed-next s over)) over
  call-closed aclose s over = close_stream-closed s

  run-closed : (asks : List Ask) (s : SlotStream S R) → s.closed ≡ true → (run asks s).closed ≡ true
  unfolding run
  run-closed [] s over = over
  run-closed (a ∷ asks) s over = run-closed asks (call a s) (call-closed a s over)

  after_answer-Released :
      (r : R) (a : Answer S A E) (s : SlotStream S R)
      → Released r s
      → Released r (after_answer a s).1
  after_answer-Released r (item a chunks) s h = h
  after_answer-Released r (ends e chunks) s h =
      close_stream-Released r (record s { chunks = chunks }) h

  call-Released : (r : R) (a : Ask) (s : SlotStream S R) → Released r s → Released r (call a s)
  unfolding call next_chunk
  call-Released r anext s h = elim (Bool-cases s.closed) [
    | inl over ↦ subst (λ x. Released r x.1) (sym (closed-next s over)) h
    | inr live ↦
        subst (λ x. Released r x.1) (sym (open-next s live))
          (after_answer-Released r (answer s.chunks) s h)
  ]
  call-Released r aclose s h = close_stream-Released r s h

  run-Released :
      (r : R) (asks : List Ask) (s : SlotStream S R) → Released r s → Released r (run asks s)
  unfolding run
  run-Released r [] s h = h
  run-Released r (a ∷ asks) s h = run-Released r asks (call a s) (call-Released r a s h)

  -- At any calls on a new stream the slot is held while the stream is open and has been released once
  -- when it is closed; a response, whatever it asks for, ends with the stream closed and the slot
  -- released once, and no call after that releases it again or gets an item.
  pub respond-releases_once :
      (s : S) (r : R) (asks later : List Ask)
      → Released r (run asks (opened s r))
        × ((respond asks (opened s r)).held ≡ release r)
        × ((run later (respond asks (opened s r))).held ≡ release r)
        × ((next_chunk (run later (respond asks (opened s r)))).0 ≡ raised stop)
  unfolding respond opened
  respond-releases_once s r asks later =
      let new : SlotStream S R = record { chunks = s; closed = false; held = r } in
      let end = run asks new in
      let held = run-Released r asks new refl in
      let closed = close_stream-closed end in
      let last = close_stream-Released r end held in
      let kept = run-closed later (close_stream end) closed in
      (
        held,
        last ∙ rw closed refl,
        run-Released r later (close_stream end) last ∙ rw kept refl,
        ap (λ x. x.0) (closed-next (run later (close_stream end)) kept),
      )
