-- ===== src/Lib.antt =====
-- Verification of llm-home-lab, a local orchestrator that sends chat completions to model hosts. Paths
-- are those of the repository, under src/llm_home_lab; each file's own comment says what it is about.
--
-- The parts and how they interact. A request of an authenticated client waits in the scheduling queue
-- until a registered host has a free slot; the routing engine chooses the backend among the healthy
-- candidates; the registry counts the requests in flight; the outcome is a probe of the circuit
-- breaker and an entry of the completion log. A client may lease a whole node. Sessions, tool calls and
-- workspaces are stored in sqlite, and a session's messages are cut to a token budget.
--
-- - Leases (Leases/Models, Leases/Book): leases/models.py and leases/book.py. NodeLeaseBook has the two
--   dictionaries of the source; reserve, require, heartbeat, release, force_release, is_held and view are
--   functions of their names from a book to a result and a book. The token of secrets is an argument.
-- - Leases/Path: leases/path.py, _LeasePathMiddleware of api/app.py and the two addresses of
--   leases/runner.py. Leases/Runner: leases/runner.py, run_leased over any orchestrator (the record
--   LeaseApi) and any child process (the record Child), with the heartbeat that outlasts the join of its
--   thread; Leases/Runner/Server is its run on a lease book over a network that may lose a call or its
--   answer.
-- - Registry: registry/registry.py and registry/store.py. HostRegistry has the hosts in memory and the
--   rows of the table that each call writes through; KeyError is a value.
-- - Scheduling: scheduling/queue.py. SchedulingQueue has the tiers, the rotations and the eligibility
--   callbacks, which are functions of the world that they read; dispatch is the two loops of the source
--   as recursions over the sorted tiers and a rotation, with a missing key or an empty deque as a fault.
-- - State: state/store.py and state/sqlite_base.py, State/Tools: state/tool_state_store.py,
--   State/Workspaces: state/workspace_store.py. A table is the list of its rows; a statement is its
--   effect on the list; a call that raises leaves the tables. State/Overlaps has the SELECT and the INSERT
--   of an append as steps of their own, in any order with other calls.
-- - Managers: state/workspace_manager.py, the truncation before the store.
-- - Context: context/assembler.py and context/cache.py. The loop over the messages is a recursion from
--   the last message; the cache is a dictionary in the order of use.
-- - Alerts: observability/alerts.py, over any type of values with two tests; a metric may be None.
-- - Routing: routing/engine.py and routing/models.py, over an interface of scores (the record Score).
-- - Completions: observability/completion_log.py.
-- - Security: security/key_store.py and the function rotate_client_key of security/rotate_keys.py;
--   Security/Entitlement says without loops which client a token stands for.
-- - Health: health/monitor.py and health/models.py, the circuit breaker of each backend.
-- - Metrics: observability/metrics.py. MetricsRegistry has the dictionaries of the source; Metrics/Snapshot
--   is snapshot with its exceptions as values, Metrics/Rendering is render_prometheus.
-- - Backends: backends/llamaserver.py, backends/lmstudio.py and backends/base.py. An attempt of httpx is an
--   argument: not reached, or a status, lines and how the body ends.
-- - Api: api/app.py and api/lifetime.py. Api/Auth is enforce_auth, Api/Errors the exception handlers,
--   Api/Hosts the helpers on hosts, Api/Chat and Api/Chat/Placing are chat_completions up to the slot,
--   Api/Serving is the rest of it, streamed or not, and _stream_chunks, Api/Lifetime is SlotStream. The state (the record
--   App) is that of all parts; at the n-th await other tasks turn it into any state (the argument
--   `others`), or the request is cancelled there.
-- - Base and Dict are shared: tests, lists, integers, texts, and Python's dict in insertion order with its
--   laws and the uniqueness of its keys.
--
-- Conventions. A time is a number of microseconds; two times are compared by adding a duration to one;
-- durations that may be negative are integers. Counters that the source may take below zero are
-- integers. A call of a part that holds a lock, or that has no await, is one step; SessionStore has no lock:
-- its calls are steps in State/Histories, and State/Overlaps takes its appends apart into statements. The text of an exception is the data that it is made of.
-- JSON columns are the values that they encode. Every loop is a structural recursion, but for the wait of a
-- chat completion in the queue, which has fuel: more fuel than the timeout has units is enough.
--
-- Not modelled. The routes of api/app.py that only pass their payload to a part, its cache of backend
-- objects and the probes of all hosts, the middleware of api/lifetime.py, the load probes, the
-- command line of the lease wrapper, the terminal interface and the diagnostics script: they are
-- clients of the parts above or of the network. The JSON of the key file, the settings of the environment and
-- sqlite itself are outside of the model.
pub mod Alerts
pub mod Api
pub mod Backends
pub mod Base
pub mod Completions
pub mod Context
pub mod Dict
pub mod Health
pub mod Leases
pub mod Managers
pub mod Metrics
pub mod Registry
pub mod Routing
pub mod Scheduling
pub mod Security
pub mod State
