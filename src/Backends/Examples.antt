-- ===== src/Backends/Examples.antt =====
-- A stream whose first attempt cannot reach the server, and one that breaks off after a chunk.
use llm_home_lab.Base.{
  ℕ, ◌+◌, String, ◌≡◌, refl, Option, none, some, List, [], ◌∷◌, ◌==◌, nat_eq, if◌then◌else◌,
}
use llm_home_lab.Base.Text.{append_text, starts_with, drop_prefix}
use llm_home_lab.Dict.{Dict, lookup}
use llm_home_lab.Backends.{
  BackendChunk, backend_connection, Parsed, transport_error, Attempt, unreachable, responded,
  retries, chunk_of, read_data, read_lines, broken_off, stopped, run_attempt, stream_chunks, stream,
}
use llm_home_lab.Backends.Attempts.{OneAttempt, stream-OneAttempt}
use llm_home_lab.Backends.Collecting.{
  completed, collect_chunk, collect, complete, nth, resolve_among, resolve_model,
}

-- A stand-in for json.loads: every line is a choice with its own text.
abbrev parse : String → Option Parsed
parse text = some (record { choice = some (text, none); usage = none })

abbrev attempts : ℕ → Attempt
attempts n =
    if n == 0
    then unreachable transport_error
    else responded 200 ("data: a" ∷ ": comment" ∷ "data: b" ∷ []) (some transport_error)

abbrev chunk : String → BackendChunk
chunk text = record { content = text; finish_reason = none; usage = none }

stream_test : stream parse attempts 2 ≡ (chunk "a" ∷ chunk "b" ∷ [], some backend_connection)
unfolding stream stream_chunks run_attempt read_lines read_data broken_off stopped starts_with
    drop_prefix chunk_of
stream_test = refl

stream-OneAttempt_example :
    OneAttempt parse attempts (2 + 1) 0 (stream parse attempts 2)
    × ((a : Attempt) → (run_attempt parse a).1 ≡ retries → (run_attempt parse a).0 ≡ [])
stream-OneAttempt_example = stream-OneAttempt parse attempts 2

complete_test :
    complete "m" (chunk "a" ∷ chunk "b" ∷ [], none)
    ≡ completed (record {
      model = "m";
      content = "ab";
      finish_reason = "stop";
      prompt_tokens = 0;
      completion_tokens = 0;
    })
unfolding complete collect collect_chunk append_text
complete_test = refl

abbrev aliases : Dict String (List String)
aliases = ("m", "m:1" ∷ "m:2" ∷ []) ∷ []

-- The two instances take turns.
resolve_test : (resolve_model aliases "m" (("m", 1) ∷ [])).0 ≡ some "m:2"
unfolding resolve_model resolve_among lookup nth
resolve_test = refl
