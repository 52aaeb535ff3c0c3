-- ===== src/Api/Serving/Judging.antt =====
-- Whether a streamed answer counts as healthy, beside the same answer read whole.
use llm_home_lab.Base.{
  String, ◌≡◌, refl, sym, ap, ◌∙◌, Bool, true, false, not, ◌&&◌, Option, none, some, List, [], ◌∷◌,
  arith, any, eq_iff, ◌==◌, string_eq, Option-cases, inl, inr,
}
use llm_home_lab.Base.Text.{blank, blank-append, blank-empty, strip-blank}
use llm_home_lab.Base.Compound.{option_eq}
use llm_home_lab.Backends.{BackendChunk}
use llm_home_lab.Backends.Collecting.{Collected, nothing_yet, or_kept, collect_chunk, collect}
use llm_home_lab.Api.Serving.{
  is_degenerate_completion, Seen, nothing_seen, see, see_all, is_healthy_stream,
}

-- A chunk that says why the answer ends.
abbrev pub has_reason : BackendChunk → Bool
has_reason c = not (c.finish_reason == none)

-- What both readings keep of the same chunks.
record Beside (s : Seen) (k : Collected) : Type 0 where
  content : s.saw_content ≡ not (blank k.content)
  reason : k.finish_reason ≡ or_kept s.last_finish_reason "stop"

see-Beside :
    (c : BackendChunk) (s : Seen) (k : Collected)
    → Beside s k
    → Beside (see c s) (collect_chunk c k)
unfolding see collect_chunk
see-Beside c s k b = record {
  content = ground (arith, blank-append k.content c.content, strip-blank c.content, b.content);
  reason = elim (Option-cases c.finish_reason) [ inl n ↦ rw n b.reason | inr (r, e) ↦ rw e refl ];
}

see_all-Beside :
    (cs : List BackendChunk) (s : Seen) (k : Collected)
    → Beside s k
    → Beside (see_all cs s) (collect cs k)
unfolding see_all collect
see_all-Beside [] s k b = b
see_all-Beside (c ∷ cs) s k b = see_all-Beside cs (see c s) (collect_chunk c k) (see-Beside c s k b)

-- The last reason is there if some chunk gave one.
see_all-reason :
    (cs : List BackendChunk) (s : Seen)
    → ((see_all cs s).last_finish_reason == none)
      ≡ (not (any has_reason cs) && s.last_finish_reason == none)
unfolding see_all any see
see_all-reason [] s = refl
see_all-reason (c ∷ cs) s = elim (Option-cases c.finish_reason) [
  | inl n ↦ see_all-reason cs (see c s) ∙ rw n (ground arith)
  | inr (r, e) ↦ see_all-reason cs (see c s) ∙ rw e (ground arith)
]

judged :
    (saw : Bool) (last : Option String) (content reason : String) (given : Bool)
    → saw ≡ not (blank content)
    → reason ≡ or_kept last "stop"
    → (last == none) ≡ (not given && true)
    → ((given ≡ true)
        → (saw && last == some "stop") ≡ not (is_degenerate_completion content (some reason)))
      × ((given ≡ false)
          → ((saw && last == some "stop") ≡ false)
            × (not (is_degenerate_completion content (some reason)) ≡ not (blank content)))
judged saw none content reason given c r l = (
  λ g. ground arith,
  λ g. (ground arith, ground (arith, strip-blank content, eq_iff reason "stop")),
)
judged saw (some x) content reason given c r l =
    (λ g. rw r (ground (arith, strip-blank content)), λ g. ground arith)

-- A stream that was read to its end without an exception counts as healthy just when the same chunks,
-- read whole, do, if some chunk gives a finish reason; without one the stream never does, and the
-- answer read whole does if it has a text that is not blank.
pub is_healthy_stream-alike :
    (cs : List BackendChunk)
    → ((any has_reason cs ≡ true)
        → is_healthy_stream (see_all cs nothing_seen)
          ≡ not (
              is_degenerate_completion
                (collect cs nothing_yet).content
                (some (collect cs nothing_yet).finish_reason)))
      × ((any has_reason cs ≡ false)
          → (is_healthy_stream (see_all cs nothing_seen) ≡ false)
            × (not (
                  is_degenerate_completion
                    (collect cs nothing_yet).content
                    (some (collect cs nothing_yet).finish_reason))
                ≡ not (blank (collect cs nothing_yet).content)))
is_healthy_stream-alike cs =
    let s = see_all cs nothing_seen in
    let k = collect cs nothing_yet in
    let b =
      see_all-Beside cs nothing_seen nothing_yet
        (record { content = sym (ap not blank-empty); reason = refl }) in
    judged s.saw_content s.last_finish_reason k.content k.finish_reason (any has_reason cs)
      b.content b.reason (see_all-reason cs nothing_seen)
