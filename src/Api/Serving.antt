-- ===== src/Api/Serving.antt =====
-- The end of `chat_completions` and `_stream_chunks` of src/llm_home_lab/api/app.py: the call of the
-- backend with the slot held, what is recorded of it, and the release of the slot.
pub mod Counting
pub mod Balance
pub mod Judging
use llm_home_lab.Base.{
  ℕ, ◌+◌, String, ◌≡◌, Bool, true, false, not, ◌&&◌, ◌||◌, Option, none, some, List, [], ◌∷◌,
  filter, if◌then◌else◌, ◌==◌, string_eq,
}
use llm_home_lab.Base.Int.{ℤ}
use llm_home_lab.Base.Text.{strip}
use llm_home_lab.Base.Compound.{option_eq}
use llm_home_lab.Registry.{HostInfo, release_slot}
use llm_home_lab.Registry
use llm_home_lab.Health.{record_probe}
use llm_home_lab.Completions.{record_completion}
use llm_home_lab.Metrics.{record_token_usage, record_host_completion}
use llm_home_lab.Routing.{Score, RoutingDecision}
use llm_home_lab.Backends.{
  Usage, BackendResponse, BackendChunk, StreamError, backend_timeout, backend_connection,
  backend_response, malformed_data,
}
use llm_home_lab.Backends.Collecting.{Completion, completed}
use llm_home_lab.Backends.Collecting
use llm_home_lab.Api.Errors.{AppError, key_error, unknown_host, cancelled}
use llm_home_lab.Api.Errors
use llm_home_lab.Api.Hosts.{Listing}
use llm_home_lab.Api.Chat.{App, Await}
use llm_home_lab.Api.Chat.Placing.{
  ChatRequest, Waits, Outcome, done, failed, out_of_fuel, failover_recorded, place,
}

abbrev pub is_degenerate_completion : String → Option String → Bool
is_degenerate_completion content finish_reason =
    strip content == "" || not (finish_reason == some "stop")

-- What `_stream_chunks` keeps of the chunks.
pub record Seen : Type 0 where
  pub usage : Option Usage
  pub saw_content : Bool
  pub last_finish_reason : Option String

abbrev pub nothing_seen : Seen
nothing_seen = record { usage = none; saw_content = false; last_finish_reason = none }

abbrev pub or_else {ℓ} : {A : Type ℓ} → Option A → Option A → Option A
or_else none o = o
or_else (some a) o = some a

unfoldable pub see : BackendChunk → Seen → Seen
see c s = record {
  usage = or_else c.usage s.usage;
  saw_content = not (strip c.content == "") || s.saw_content;
  last_finish_reason = or_else c.finish_reason s.last_finish_reason;
}

unfoldable pub see_all : List BackendChunk → Seen → Seen
see_all [] s = s
see_all (c ∷ cs) s = see_all cs (see c s)

-- A chunk with usage alone is not sent on to the client.
abbrev pub is_forwarded : BackendChunk → Bool
is_forwarded c = not (c.content == "" && c.finish_reason == none)

abbrev pub is_healthy_stream : Seen → Bool
is_healthy_stream s = s.saw_content && s.last_finish_reason == some "stop"

module _ {F : Type 0} (backend_id : String) (latency_ms : ℕ) where
  abbrev pub usage_recorded : Usage → App F → App F
  usage_recorded u app = record app {
    metrics = record_token_usage backend_id u.prompt_tokens u.completion_tokens app.metrics;
  }

  abbrev pub host_completion_recorded : Bool → Usage → App F → App F
  host_completion_recorded false u app = app
  host_completion_recorded true u app = record app {
    metrics =
        record_host_completion backend_id latency_ms u.prompt_tokens u.completion_tokens
          app.metrics;
  }

  abbrev pub completion_logged : Bool → App F → App F
  completion_logged false app = app
  completion_logged true app = record app {
    log = record_completion backend_id app.world.now app.log;
  }

  abbrev pub probed : Bool → App F → App F
  probed healthy app = record app {
    world = record app.world {
      monitor = record_probe backend_id healthy app.world.now app.world.monitor;
    };
  }

  -- What `_stream_chunks` records at the end of a stream that raised nothing.
  unfoldable pub stream_recorded : Seen → App F → App F
  stream_recorded s app =
      let healthy = is_healthy_stream s in
      probed healthy (
        completion_logged healthy (elim (s.usage) [
          | none ↦ app
          | some u ↦ host_completion_recorded healthy u (usage_recorded u app)
        ]))

  -- `_stream_chunks` of a backend's stream: the chunks that the client gets, the exception that
  -- reaches it if any, and the state.
  unfoldable pub stream_chunks :
      List BackendChunk
      → Option StreamError
      → App F
      → (List BackendChunk × Option StreamError) × App F
  stream_chunks chunks (some e) app = ((filter is_forwarded chunks, some e), app)
  stream_chunks chunks none app =
      ((filter is_forwarded chunks, none), stream_recorded (see_all chunks nothing_seen) app)

  -- The records of a completion that was read whole.
  unfoldable pub completion_recorded : Bool → BackendResponse → App F → App F
  completion_recorded failover_in_play result app =
      let u : Usage = record {
        prompt_tokens = result.prompt_tokens;
        completion_tokens = result.completion_tokens;
      } in
      let healthy = not (is_degenerate_completion result.content (some result.finish_reason)) in
      probed healthy (
        completion_logged healthy (
          host_completion_recorded healthy u
            (usage_recorded u (failover_recorded failover_in_play true app))))

-- How the call of the backend ends.
pub data Call : Type 0 where
  returned : Completion → Call
  interrupted : Call

-- A line that json.loads refuses raises no `BackendError`.
abbrev pub error_of : StreamError → AppError
error_of backend_timeout = Errors.AppError.backend_timeout
error_of backend_connection = Errors.AppError.backend_error
error_of (backend_response status) = Errors.AppError.backend_error
error_of malformed_data = Errors.AppError.other_error

abbrev pub is_backend_error : StreamError → Bool
is_backend_error malformed_data = false
is_backend_error backend_timeout = true
is_backend_error backend_connection = true
is_backend_error (backend_response status) = true

module _ {F : Type 0} (failover_in_play : Bool) (backend_id : String) (latency_ms : ℕ) where
  -- The `except BackendError` block.
  abbrev pub failure_recorded : Bool → App F → App F
  failure_recorded false app = app
  failure_recorded true app =
      probed backend_id latency_ms false (failover_recorded failover_in_play false app)

  -- `registry.release_slot` under `finally`; a KeyError takes the place of what was raised.
  abbrev pub released :
      Registry.Result Registry.HostRegistry
      → Outcome BackendResponse
      → App F
      → Outcome BackendResponse × App F
  released (Registry.Result.ok registry) o app =
      (o, record app { world = record app.world { registry = registry } })
  released (Registry.Result.err (Registry.RegistryError.key_error k)) o app =
      (failed (key_error k), app)
  released (Registry.Result.err (Registry.RegistryError.host_not_registered k)) o app =
      (failed (unknown_host k), app)

  abbrev pub recorded : Outcome BackendResponse × App F → Outcome BackendResponse × App F
  recorded (done result, app) =
      (done result, completion_recorded backend_id latency_ms failover_in_play result app)
  recorded (failed e, app) = (failed e, app)
  recorded (out_of_fuel, app) = (out_of_fuel, app)

  unfoldable pub serve : Call → App F → Outcome BackendResponse × App F
  serve (returned (completed result)) app =
      recorded (released (release_slot backend_id app.world.registry) (done result) app)
  serve (returned (Collecting.Completion.failed e)) app =
      let after = failure_recorded (is_backend_error e) app in
      released (release_slot backend_id after.world.registry) (failed (error_of e)) after
  serve interrupted app =
      released (release_slot backend_id app.world.registry) (failed cancelled) app

-- How a streaming response reads the backend's stream: to its end, or it stops at some chunk, as the
-- client is gone, the request is cancelled or the response is not even started.
pub data Reading : Type 0 where
  read_whole : List BackendChunk → Option StreamError → Reading
  abandoned : List BackendChunk → Reading

-- What the client gets.
pub data Reply : Type 0 where
  whole : BackendResponse → Reply
  streamed : List BackendChunk → Option StreamError → Reply

abbrev pub whole_reply : {F : Type 0} → Outcome BackendResponse × App F → Outcome Reply × App F
whole_reply (done result, app) = (done (whole result), app)
whole_reply (failed e, app) = (failed e, app)
whole_reply (out_of_fuel, app) = (out_of_fuel, app)

module _ {F : Type 0} (backend_id : String) (latency_ms : ℕ) where
  -- The `SlotStream` over `_stream_chunks`, up to its close.
  unfoldable pub stream_read : Reading → App F → Outcome Reply × App F
  stream_read (read_whole chunks end) app =
      let ((sent, error), after) = stream_chunks backend_id latency_ms chunks end app in
      (done (streamed sent error), after)
  stream_read (abandoned chunks) app = (done (streamed (filter is_forwarded chunks) none), app)

  -- The close of the stream releases the slot; the response has begun, so a KeyError changes nothing.
  unfoldable pub serve_stream : Reading → App F → Outcome Reply × App F
  serve_stream reading app =
      let (reply, last) = stream_read reading app in
      (
        reply,
        record last {
          world = record last.world {
            registry =
                Registry.after last.world.registry (release_slot backend_id last.world.registry);
          };
        },
      )

-- The call of the backend with an id, the reading of its stream, and what other tasks do meanwhile, are
-- given, with the time that it took.
module _ {F : Type 0} (calls : String → App F → (Call × ℕ) × App F)
    (streams : String → App F → (Reading × ℕ) × App F) where
  unfoldable pub answer : Bool → Outcome (RoutingDecision F × Bool) × App F → Outcome Reply × App F
  answer stream (failed e, app) = (failed e, app)
  answer stream (out_of_fuel, app) = (out_of_fuel, app)
  answer true (done (d, failover_in_play), app) =
      let ((reading, latency_ms), after) =
        streams d.backend_id (failover_recorded failover_in_play true app) in
      serve_stream d.backend_id latency_ms reading after
  answer false (done (d, failover_in_play), app) =
      let ((call, latency_ms), after) = calls d.backend_id app in
      whole_reply (serve failover_in_play d.backend_id latency_ms call after)

  unfoldable pub chat_completions :
      Score F
      → (ℤ → ℕ → F)
      → (HostInfo → Listing)
      → (ℕ → App F → Await F)
      → Waits
      → Option String
      → ChatRequest
      → ℕ
      → App F
      → Outcome Reply × App F
  chat_completions score load listing others waits token r fuel app =
      answer r.stream (place score load listing others waits token r fuel app)
