-- ===== src/Api/Examples.antt =====
-- The theorems on the routes at one host with two slots and a request that names no lease.
use llm_home_lab.Base.{
  ℕ, ◌+◌, String, ◌≡◌, ◌≢◌, refl, true, false, not, ◌⊎◌, ◌↔◌, none, some, List, [], ◌∷◌, leb, arith,
  any, filter, contains, ◌==◌, ◌-◌, string_eq, nat_eq, if◌then◌else◌,
}
use llm_home_lab.Base.Int.{ℤ, pos, pos_part}
use llm_home_lab.Base.Text.{blank}
use llm_home_lab.Dict.{lookup, insert, member}
use llm_home_lab.Registry.{
  HostCapabilities, HostInfo, HostRegistry, hosts, in_flight, acquire_slot, add_slots,
}
use llm_home_lab.Registry
use llm_home_lab.Health.{is_healthy, init}
use llm_home_lab.Leases.Book
use llm_home_lab.Leases.Book.{is_held}
use llm_home_lab.Context.{char_count}
use llm_home_lab.Scheduling
use llm_home_lab.Security.{ApiKeyStore, ClientIdentity}
use llm_home_lab.Routing.{
  select_backend, choose, score_candidates, match_candidates, matched_of, total_of, kept_backend,
  sticky_of, min_by, assign, Score, RoutingDecision,
}
use llm_home_lab.Metrics.{new_metrics}
use llm_home_lab.Backends.{BackendChunk}
use llm_home_lab.Backends.Collecting.{nothing_yet, collect, completed}
use llm_home_lab.Api.Errors.{ErrorResponse}
use llm_home_lab.Api.Auth.{auth_exempt_paths, passed_on, blocked, enforce_auth}
use llm_home_lab.Api.Auth.Passing.{Entitled, enforce_auth-passes}
use llm_home_lab.Api.Hosts.{
  Listing, no_listing, model_capable_hosts, match_host, match_listing, eligible_candidates,
  can_take, load_ratio,
}
use llm_home_lab.Api.Chat.{
  require_token, usable_hosts, unpinned_hosts, open_hosts, current_candidates, live_hosts, World,
  App, Await, resumed, current,
}
use llm_home_lab.Api.Chat.Placing.{
  place_required, place_listed, place_pinned, place_on, decide, find_candidates, acquired,
  ChatRequest, Waits, done, out_of_fuel, wait_in_queue, place,
}
use llm_home_lab.Api.Chat.Safety.{Placed, place-IsSafe}
use llm_home_lab.Api.Chat.Waiting.{Gone, wait_in_queue-ends}
use llm_home_lab.Api.Serving.{
  Call, returned, Reading, abandoned, is_degenerate_completion, nothing_seen, see_all,
  is_healthy_stream, chat_completions,
}
use llm_home_lab.Api.Serving.Judging.{has_reason, is_healthy_stream-alike}
use llm_home_lab.Api.Serving.Balance.{chat_completions-balanced}
use llm_home_lab.Api.Lifetime.{
  Answer, ends, item, Ask, anext, aclose, opened, run, respond, next_chunk, raised, Released,
  respond-releases_once,
}

leb_trans : (a b c : ℕ) → leb a b ≡ true → leb b c ≡ true → leb a c ≡ true
leb_trans a b c h k = ground arith

leb_total : (a b : ℕ) → (leb a b ≡ true) ⊎ (leb b a ≡ true)
leb_total a b = ground arith

abbrev score : Score ℕ
score = record {
  zero_score = 0;
  plus = λ a b. a + b;
  le = leb;
  le_trans = leb_trans;
  le_total = leb_total;
}

abbrev load : ℤ → ℕ → ℕ
load a b = pos_part a

abbrev capabilities : HostCapabilities
capabilities = record {
  backend_type = "llamaserver";
  context_window = 8192;
  base_url = "http://gpu";
  allowed_models = none;
  memory_budget_gb = none;
  model_sizes_gb = none;
  model_aliases = none;
  position = none;
}

abbrev gpu : HostInfo
gpu = record {
  host_id = "gpu";
  capabilities = capabilities;
  capacity = record { max_concurrent_requests = 2 };
  in_flight = pos 1;
  last_seen = 0;
}

abbrev world : World
world = record {
  now = 7;
  lease_now = 7;
  registry = record { hosts_by_id = ("gpu", gpu) ∷ []; store = [] };
  book = Book.empty (record {
    ttl = 180;
    default_ceiling = 10800;
    max_ceiling = 10800;
    min_active_nodes = 1;
    expiring_soon = 60;
  });
  monitor = init (record { failure_threshold = 3; recovery_threshold = 2; cooldown = 30 });
  objects = λ h. current;
}

abbrev app : App ℕ
app = record {
  world = world;
  queue = Scheduling.empty;
  router = record { rules = []; sticky_sessions_enabled = true; sticky_assignments = [] };
  metrics = new_metrics 300;
  log = record { window = 3600; started_at = 0; completions = [] };
}

abbrev question : ChatRequest
question = record {
  request_id = "r1";
  model = "m";
  session_id = none;
  stream = false;
  asked = record { messages = record { role = "user"; content = "hello" } ∷ []; task_type = none };
}

abbrev waits : Waits
waits = record { timeout = 30; interval = 10 }

abbrev listing : HostInfo → Listing
listing h = no_listing

abbrev others : ℕ → App ℕ → Await ℕ
others n a = resumed a

abbrev decision : RoutingDecision ℕ
decision = record { backend_id = "gpu"; scores = ("gpu", 0) ∷ []; matched_rules = ("gpu", []) ∷ [] }

placed_test :
    (place score load listing others waits none question 31 app).0 ≡ done (decision, false)
unfolding place place_required require_token place_listed place_pinned place_on usable_hosts
    unpinned_hosts open_hosts model_capable_hosts hosts match_host match_listing is_held lookup
    decide find_candidates current_candidates live_hosts eligible_candidates can_take load_ratio
    is_healthy acquired select_backend choose filter score_candidates match_candidates matched_of
    in_flight total_of insert kept_backend sticky_of member min_by assign any acquire_slot
    char_count init
placed_test = refl

place-IsSafe_example :
    Placed score load none question
      (model_capable_hosts listing "m" (hosts world.registry)).0
      (place score load listing others waits none question 31 app).1.world
      "gpu"
place-IsSafe_example =
    place-IsSafe score load listing others waits none question 31 app (decision, false) placed_test

wait_in_queue-ends_example :
    ((wait_in_queue load others waits none question 7 [] true 31 1 app).0 ≢ out_of_fuel)
    × Gone "r1" "r1" (wait_in_queue load others waits none question 7 [] true 31 1 app).1.queue
wait_in_queue-ends_example =
    wait_in_queue-ends load others waits none question 7 [] true 31 1 app (ground arith)
      (ground arith)

abbrev calls : String → App ℕ → (Call × ℕ) × App ℕ
calls id a = (
  (
    returned (
        completed (record {
          model = "m";
          content = "hi";
          finish_reason = "stop";
          prompt_tokens = 5;
          completion_tokens = 1;
        })),
    20,
  ),
  a,
)

-- The client leaves after one chunk.
abbrev streams : String → App ℕ → (Reading × ℕ) × App ℕ
streams id a =
    ((abandoned (record { content = "hi"; finish_reason = none; usage = none } ∷ []), 20), a)

in_flight_test : in_flight "gpu" world.registry ≡ Registry.Result.ok (pos 1)
unfolding in_flight lookup
in_flight_test = refl

chat_completions-balanced_example :
    in_flight "gpu"
      (chat_completions calls streams score load listing others waits none
        (record question { stream = true })
        31
        app).1.world.registry
    ≡ Registry.Result.ok (pos 1)
chat_completions-balanced_example =
    chat_completions-balanced calls streams score load listing others waits none
      (record question { stream = true }) 31 app "gpu" (pos 1) (λ n a j e. e) (λ id a j e. e)
      (λ id a j e. e) in_flight_test

abbrev chunks : List BackendChunk
chunks =
    record { content = "hi"; finish_reason = none; usage = none }
    ∷ record { content = ""; finish_reason = some "stop"; usage = none }
    ∷ []

is_healthy_stream-alike_example :
    ((any has_reason chunks ≡ true)
      → is_healthy_stream (see_all chunks nothing_seen)
        ≡ not (
            is_degenerate_completion
              (collect chunks nothing_yet).content
              (some (collect chunks nothing_yet).finish_reason)))
    × ((any has_reason chunks ≡ false)
        → (is_healthy_stream (see_all chunks nothing_seen) ≡ false)
          × (not (
                is_degenerate_completion
                  (collect chunks nothing_yet).content
                  (some (collect chunks nothing_yet).finish_reason))
              ≡ not (blank (collect chunks nothing_yet).content)))
is_healthy_stream-alike_example = is_healthy_stream-alike chunks

abbrev clients : ApiKeyStore
clients =
    record {
      client_id = "tui";
      allowed_path_prefixes = "/v1" ∷ [];
      keys = record { key = "k1"; expires_at = none } ∷ [];
    }
    ∷ []

not_exempt : contains auth_exempt_paths "/v1/nodes" ≡ false
unfolding contains
not_exempt = refl

enforce_auth-passes_example :
    ((identity : ClientIdentity)
      → (enforce_auth true clients "/v1/nodes" "Bearer k1" 3 ≡ passed_on (some identity))
        ↔ Entitled clients "/v1/nodes" "Bearer k1" 3 identity)
    × (((identity : ClientIdentity) × (enforce_auth true clients "/v1/nodes" "Bearer k1" 3
            ≡ passed_on (some identity)))
        ⊎ ((r : ErrorResponse) × (enforce_auth true clients "/v1/nodes" "Bearer k1" 3 ≡ blocked r)
            × ((r.status_code ≡ 401) ⊎ (r.status_code ≡ 403))))
enforce_auth-passes_example = enforce_auth-passes clients "/v1/nodes" "Bearer k1" 3 not_exempt

-- A generator of two items, as a count of those that are left, and a slot count.
abbrev answer : ℕ → Answer ℕ ℕ String
answer n = if n == 0 then ends "StopAsyncIteration" 0 else item n (n - 1)

abbrev close : ℕ → ℕ
close n = 0

abbrev release : ℕ → ℕ
release n = n - 1

abbrev asks : List Ask
asks = anext ∷ anext ∷ anext ∷ aclose ∷ []

respond-releases_once_example :
    Released answer close release "stop" 4
      (run answer close release "stop" asks (opened answer close release "stop" 2 4))
    × ((respond answer close release "stop" asks (opened answer close release "stop" 2 4)).held ≡ 3)
    × ((run answer close release "stop"
          (aclose ∷ [])
          (respond answer close release "stop" asks (opened answer close release "stop" 2 4))).held
        ≡ 3)
    × ((next_chunk answer close release "stop" (
          run answer close release "stop"
            (aclose ∷ [])
            (respond answer close release "stop" asks (opened answer close release "stop" 2 4)))).0
        ≡ raised "stop")
respond-releases_once_example =
    respond-releases_once answer close release "stop" 2 4 asks (aclose ∷ [])
