-- ===== src/Api/Serving/Balance.antt =====
-- The slot that a chat completion acquires is released just once, however the request ends.
use llm_home_lab.Base.{
  ℕ, String, ◌≡◌, refl, ap, subst, ◌∙◌, Bool, true, false, not, inl, inr, Option, none, some, arith,
  if◌then◌else◌, ◌==◌, string_eq, eq_iff, Bool-cases, Option-cases,
}
use llm_home_lab.Base.Int.{ℤ, pos, negsuc, ◌+ℤ◌, +ℤ_assoc, +ℤ-zero}
use llm_home_lab.Dict.{lookup}
use llm_home_lab.Registry.{
  add_slots, HostInfo, HostRegistry, hosts, in_flight, acquire_slot, release_slot, after,
}
use llm_home_lab.Registry
use llm_home_lab.Registry.Slots.{add_slots-in_flight}
use llm_home_lab.Routing.{Score, RoutingDecision}
use llm_home_lab.Backends.{Usage, BackendResponse}
use llm_home_lab.Backends.Collecting.{completed}
use llm_home_lab.Backends.Collecting
use llm_home_lab.Api.Errors.{AppError}
use llm_home_lab.Api.Hosts.{Listing}
use llm_home_lab.Api.Chat.{App, Await}
use llm_home_lab.Api.Chat.Placing.{
  ChatRequest, Waits, Outcome, done, failed, out_of_fuel, failover_recorded, place,
}
use llm_home_lab.Api.Serving.{
  is_degenerate_completion, Call, returned, interrupted, is_backend_error, error_of,
  failure_recorded, released, recorded, completion_recorded, serve, answer, chat_completions,
  usage_recorded, host_completion_recorded, completion_logged, Seen, see_all, nothing_seen,
  is_healthy_stream, stream_recorded, stream_chunks, Reading, read_whole, abandoned, whole_reply,
  stream_read, serve_stream,
}
use llm_home_lab.Api.Serving.Counting.{
  awaited, Holds, failover_recorded-Holds, taken, CountedTagged, place-Counted,
}

module _ {F : Type 0} (h : String) where
  module _ (b : Bool) (id : String) (latency_ms : ℕ) (k : ℤ) where
    logged-Holds :
        (c : Bool) (app : App F) → Holds h k app → Holds h k (completion_logged id latency_ms c app)
    logged-Holds true app e = e
    logged-Holds false app e = e

    hosted-Holds :
        (c : Bool) (u : Usage) (app : App F)
        → Holds h k app
        → Holds h k (host_completion_recorded id latency_ms c u app)
    hosted-Holds true u app e = e
    hosted-Holds false u app e = e

    recorded-Holds :
        (o : Outcome BackendResponse) (app : App F)
        → Holds h k app
        → Holds h k (recorded b id latency_ms (o, app)).1
    unfolding completion_recorded
    recorded-Holds (done result) app e =
        let u : Usage = record {
          prompt_tokens = result.prompt_tokens;
          completion_tokens = result.completion_tokens;
        } in
        let healthy = not (is_degenerate_completion result.content (some result.finish_reason)) in
        let started = failover_recorded b true app in
        let kept = failover_recorded-Holds h b true k app e in
        logged-Holds healthy
          (host_completion_recorded id latency_ms healthy u
            (usage_recorded id latency_ms u started))
          (hosted-Holds healthy u (usage_recorded id latency_ms u started) kept)
    recorded-Holds (failed x) app e = e
    recorded-Holds out_of_fuel app e = e

    failure_recorded-Holds :
        (c : Bool) (app : App F)
        → Holds h k app
        → Holds h k (failure_recorded b id latency_ms c app)
    failure_recorded-Holds true app e = failover_recorded-Holds h b false k app e
    failure_recorded-Holds false app e = e

-- A host with a count is there to be released.
release-known :
    (h : String) (r : HostRegistry) (k : ℤ) (x : Registry.RegistryError)
    → in_flight h r ≡ Registry.Result.ok k
    → release_slot h r ≡ Registry.Result.err x
    → ⊥
unfolding in_flight release_slot add_slots
release-known h r k x e n = elim (Option-cases (lookup h r.hosts_by_id)) [
  | inl absent ↦ ground arith
  | inr (info, found) ↦ ground arith
]

-- What is taken and then given back.
back : (h id : String) (j : ℤ) → j +ℤ taken h id +ℤ (if id == h then negsuc 0 else pos 0) ≡ j
unfolding ◌+ℤ◌
back h id j = elim (Bool-cases (id == h)) [
  | inl own ↦ rw own (+ℤ_assoc j (pos 1) (negsuc 0) ∙ +ℤ-zero j)
  | inr other ↦ rw other (+ℤ_assoc j (pos 0) (pos 0) ∙ +ℤ-zero j)
]

module _ {F : Type 0} (h id : String) (b : Bool) (latency_ms : ℕ) (j : ℤ) where
  unreleased-Holds :
      (x : Registry.RegistryError) (app : App F)
      → release_slot id app.world.registry ≡ Registry.Result.err x
      → Holds h (j +ℤ taken h id) app
      → Holds h j app
  unreleased-Holds x app n e = elim (Bool-cases (id == h)) [
    | inl own ↦ absurd (
        release-known h app.world.registry (j +ℤ taken h id) x e (
          subst (λ i. release_slot i app.world.registry ≡ Registry.Result.err x)
            ((eq_iff id h).0 own) n))
    | inr other ↦ e ∙ rw other (ap Registry.Result.ok (+ℤ-zero j))
  ]

  released-Holds :
      (x : Registry.Result HostRegistry) (o : Outcome BackendResponse) (app : App F)
      → release_slot id app.world.registry ≡ x
      → Holds h (j +ℤ taken h id) app
      → Holds h j (released b id latency_ms x o app).1
  unfolding release_slot
  released-Holds (Registry.Result.ok registry) o app n e =
      subst (λ y. in_flight h (after app.world.registry y) ≡ Registry.Result.ok j) n
        (add_slots-in_flight (negsuc 0) h id app.world.registry (j +ℤ taken h id) e
          ∙ ap Registry.Result.ok (back h id j))
  released-Holds (Registry.Result.err (Registry.RegistryError.key_error k)) o app n e =
      unreleased-Holds (Registry.RegistryError.key_error k) app n e
  released-Holds (Registry.Result.err (Registry.RegistryError.host_not_registered k)) o app n e =
      unreleased-Holds (Registry.RegistryError.host_not_registered k) app n e

  serve-Holds :
      (call : Call) (app : App F)
      → Holds h (j +ℤ taken h id) app
      → Holds h j (serve b id latency_ms call app).1
  unfolding serve
  serve-Holds (returned (completed result)) app e =
      let x = released b id latency_ms (release_slot id app.world.registry) (done result) app in
      recorded-Holds h b id latency_ms j x.0 x.1
        (released-Holds (release_slot id app.world.registry) (done result) app refl e)
  serve-Holds (returned (Collecting.Completion.failed x)) app e =
      let left = failure_recorded b id latency_ms (is_backend_error x) app in
      released-Holds (release_slot id left.world.registry) (failed (error_of x)) left refl
        (failure_recorded-Holds h b id latency_ms (j +ℤ taken h id) (is_backend_error x) app e)
  serve-Holds interrupted app e =
      released-Holds (release_slot id app.world.registry) (failed AppError.cancelled) app refl e

module _ {F : Type 0} (h id : String) (latency_ms : ℕ) (k : ℤ) where
  used-Holds :
      (u : Option Usage) (c : Bool) (app : App F)
      → Holds h k app
      → Holds h k (elim u [
        | none ↦ app
        | some u ↦ host_completion_recorded id latency_ms c u (usage_recorded id latency_ms u app)
      ])
  used-Holds none c app e = e
  used-Holds (some u) c app e =
      hosted-Holds h true id latency_ms k c u (usage_recorded id latency_ms u app) e

  stream_recorded-Holds :
      (s : Seen) (app : App F) → Holds h k app → Holds h k (stream_recorded id latency_ms s app)
  unfolding stream_recorded
  stream_recorded-Holds s app e =
      logged-Holds h true id latency_ms k (is_healthy_stream s) _
        (used-Holds s.usage (is_healthy_stream s) app e)

  stream_read-Holds :
      (reading : Reading) (app : App F)
      → Holds h k app
      → Holds h k (stream_read id latency_ms reading app).1
  unfolding stream_read stream_chunks
  stream_read-Holds (read_whole chunks none) app e =
      stream_recorded-Holds (see_all chunks nothing_seen) app e
  stream_read-Holds (read_whole chunks (some x)) app e = e
  stream_read-Holds (abandoned chunks) app e = e

serve_stream-Holds :
    {F : Type 0} (h id : String) (latency_ms : ℕ) (j : ℤ) (reading : Reading) (app : App F)
    → Holds h (j +ℤ taken h id) app
    → Holds h j (serve_stream id latency_ms reading app).1
unfolding serve_stream release_slot
serve_stream-Holds h id latency_ms j reading app e =
    let last = (stream_read id latency_ms reading app).1 in
    add_slots-in_flight (negsuc 0) h id last.world.registry (j +ℤ taken h id)
      (stream_read-Holds h id latency_ms (j +ℤ taken h id) reading app e)
    ∙ ap Registry.Result.ok (back h id j)

whole_reply-Holds :
    {F : Type 0} (h : String) (j : ℤ) (o : Outcome BackendResponse) (app : App F)
    → Holds h j app
    → Holds h j (whole_reply (o, app)).1
whole_reply-Holds h j (done result) app e = e
whole_reply-Holds h j (failed x) app e = e
whole_reply-Holds h j out_of_fuel app e = e

answer-Holds :
    {F : Type 0} (h : String) (calls : String → App F → (Call × ℕ) × App F)
    (streams : String → App F → (Reading × ℕ) × App F) (stream : Bool) (j : ℤ)
    (o : Outcome (RoutingDecision F × Bool)) (app : App F)
    → ((id : String) (a : App F) (k : ℤ) → Holds h k a → Holds h k (calls id a).1)
    → ((id : String) (a : App F) (k : ℤ) → Holds h k a → Holds h k (streams id a).1)
    → CountedTagged h j (o, app)
    → Holds h j (answer calls streams stream (o, app)).1
unfolding answer
answer-Holds h calls streams true j (done (d, b)) app keeps kept e =
    let begun = failover_recorded b true app in
    let ((reading, latency_ms), left) = streams d.backend_id begun in
    let k = j +ℤ taken h d.backend_id in
    serve_stream-Holds h d.backend_id latency_ms j reading left
      (kept d.backend_id begun k (failover_recorded-Holds h b true k app e))
answer-Holds h calls streams false j (done (d, b)) app keeps kept e =
    let ((call, latency_ms), left) = calls d.backend_id app in
    let served = serve b d.backend_id latency_ms call left in
    whole_reply-Holds h j served.0 served.1 (
      serve-Holds h d.backend_id b latency_ms j call left
        (keeps d.backend_id app (j +ℤ taken h d.backend_id) e))
answer-Holds h calls streams stream j (failed x) app keeps kept e = e
answer-Holds h calls streams stream j out_of_fuel app keeps kept e = e

-- If other tasks leave the count of a registered host as it is at every await, during the call of the
-- backend and while a stream is read, then a whole chat completion, streamed or not and up to the close of
-- the response, leaves it as it was, however it ends: the slot that it acquires is released just once,
-- after an answer, a stream read whole or abandoned, an error of the backend or any other exception.
pub chat_completions-balanced :
    {F : Type 0} (calls : String → App F → (Call × ℕ) × App F)
    (streams : String → App F → (Reading × ℕ) × App F) (score : Score F) (load : ℤ → ℕ → F)
    (listing : HostInfo → Listing) (others : ℕ → App F → Await F) (waits : Waits)
    (token : Option String) (r : ChatRequest) (fuel : ℕ) (app : App F) (h : String) (k : ℤ)
    → ((n : ℕ) (a : App F) (j : ℤ)
        → in_flight h a.world.registry ≡ Registry.Result.ok j
        → in_flight h (awaited (others n a)).world.registry ≡ Registry.Result.ok j)
    → ((id : String) (a : App F) (j : ℤ)
        → in_flight h a.world.registry ≡ Registry.Result.ok j
        → in_flight h (calls id a).1.world.registry ≡ Registry.Result.ok j)
    → ((id : String) (a : App F) (j : ℤ)
        → in_flight h a.world.registry ≡ Registry.Result.ok j
        → in_flight h (streams id a).1.world.registry ≡ Registry.Result.ok j)
    → in_flight h app.world.registry ≡ Registry.Result.ok k
    → in_flight h
        (chat_completions calls streams score load listing others waits token r fuel
          app).1.world.registry
      ≡ Registry.Result.ok k
unfolding chat_completions
chat_completions-balanced calls streams score load listing others waits token r fuel app h k keeps
      kept read e =
    let placed = place score load listing others waits token r fuel app in
    answer-Holds h calls streams r.stream k placed.0 placed.1 kept read
      (place-Counted h score load others waits token r k (λ n a. keeps n a k) listing fuel app e)
