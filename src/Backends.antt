-- ===== src/Backends.antt =====
-- src/llm_home_lab/backends: base.py and the clients llamaserver.py and lmstudio.py, which read a model
-- server's answer in the same way. What httpx gives an attempt is an argument: it cannot reach the
-- server, or the status, the lines of the body and how the body ends. What json.loads makes of the data
-- of a line is given too.
pub mod Attempts
pub mod Collecting
mod Examples
use Prim.Native.String.{String as Text}
use llm_home_lab.Base.{
  ℕ, zero, suc, ◌+◌, ◌/◌, String, ◌≡◌, Bool, true, false, ◌||◌, Option, none, some, List, [], ◌∷◌,
  ◌++◌, if◌then◌else◌, ◌==◌, string_eq, nat_eq,
}
use llm_home_lab.Base.Text.{starts_with, drop_prefix}

pub record Usage : Type 0 where
  pub prompt_tokens : ℕ
  pub completion_tokens : ℕ

pub record BackendResponse : Type 0 where
  pub model : String
  pub content : String
  pub finish_reason : String
  pub prompt_tokens : ℕ
  pub completion_tokens : ℕ

pub record BackendChunk : Type 0 where
  pub content : String
  pub finish_reason : Option String
  pub usage : Option Usage

-- The subclasses of `BackendError`, and what else may leave the generator: a line whose data json.loads
-- refuses or that lacks a key.
pub data StreamError : Type 0 where
  backend_timeout : StreamError
  backend_connection : StreamError
  backend_response : ℕ → StreamError
  malformed_data : StreamError

-- The first choice of a line, if there is one, and its usage.
pub record Parsed : Type 0 where
  pub choice : Option (String × Option String)
  pub usage : Option Usage

pub data NetworkError : Type 0 where
  timed_out transport_error : NetworkError

pub data Attempt : Type 0 where
  unreachable : NetworkError → Attempt
  responded : ℕ → List String → Option NetworkError → Attempt

-- The chunk of a line: a choice, or usage alone, or neither.
unfoldable pub chunk_of : Parsed → List BackendChunk
chunk_of p = elim (p.choice) [
  | some (content, finish_reason) ↦
      record { content = content; finish_reason = finish_reason; usage = p.usage } ∷ []
  | none ↦ elim (p.usage) [
    | none ↦ []
    | some u ↦ record { content = ""; finish_reason = none; usage = some u } ∷ []
  ]
]

-- How the reading of the lines stops.
pub data Stop : Type 0 where
  told_done : Stop
  no_more_lines : Stop
  bad_line : Stop

-- What an attempt yields, and then: it is over, it raises, or the next attempt begins.
pub data Then : Type 0 where
  finished : Then
  raises : StreamError → Then
  retries : Then

module _ (parse : String → Option Parsed) where
  unfoldable pub read_data : String → List BackendChunk × Stop → List BackendChunk × Stop
  read_data text (rest, stop) =
      if text == "[DONE]"
      then ([], told_done)
      else elim (parse text) [ none ↦ ([], bad_line) | some p ↦ (chunk_of p ++ rest, stop) ]

  unfoldable pub read_lines : List String → List BackendChunk × Stop
  read_lines [] = ([], no_more_lines)
  read_lines (line ∷ lines) =
      let rest = read_lines lines in
      if starts_with "data: " line then read_data (drop_prefix "data: " line) rest else rest

  unfoldable pub broken_off : List BackendChunk → NetworkError → Then
  broken_off chunks timed_out = raises backend_timeout
  broken_off [] transport_error = retries
  broken_off (c ∷ cs) transport_error = raises backend_connection

  unfoldable pub stopped : List BackendChunk → Stop → Option NetworkError → Then
  stopped chunks told_done e = finished
  stopped chunks bad_line e = raises malformed_data
  stopped chunks no_more_lines none = finished
  stopped chunks no_more_lines (some e) = broken_off chunks e

  -- The body of a refusal is read first.
  unfoldable pub refused : ℕ → Option NetworkError → Then
  refused status none = raises (backend_response status)
  refused status (some e) = broken_off [] e

  unfoldable pub run_attempt : Attempt → List BackendChunk × Then
  run_attempt (unreachable e) = ([], broken_off [] e)
  run_attempt (responded status lines e) =
      if status / 100 == 2
      then (let (chunks, stop) = read_lines lines in (chunks, stopped chunks stop e))
      else ([], refused status e)

  abbrev pub go_on :
      Then
      → List BackendChunk
      → List BackendChunk × Option StreamError
      → List BackendChunk × Option StreamError
  go_on finished chunks rest = (chunks, none)
  go_on (raises e) chunks rest = (chunks, some e)
  go_on retries chunks (more, end) = (chunks ++ more, end)

  -- `_stream_chunks`, read to its end: the chunks, and the exception that it raises if any. The
  -- number is that of the attempts that are left; `n` numbers the next one.
  unfoldable pub stream_chunks : (ℕ → Attempt) → ℕ → ℕ → List BackendChunk × Option StreamError
  stream_chunks attempts zero n = ([], some backend_connection)
  stream_chunks attempts (suc left) n =
      let (chunks, next) = run_attempt (attempts n) in
      go_on next chunks (stream_chunks attempts left (n + 1))

  -- `attempts = self._max_retries + 1`
  unfoldable pub stream : (ℕ → Attempt) → ℕ → List BackendChunk × Option StreamError
  stream attempts max_retries = stream_chunks attempts (max_retries + 1) 0
