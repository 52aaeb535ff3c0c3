-- ===== src/Metrics/Windows.antt =====
-- What a snapshot reads after the evictions: the requests of the history within the window.
use llm_home_lab.Base.{
  ℕ, ◌+◌, ◌≤◌, String, ◌≡◌, refl, ap, ◌∙◌, Bool, true, ◌&&◌, List, [], ◌∷◌, ◌++◌, arith, ltb,
  if◌then◌else◌, ◌==◌, string_eq, nat_eq, count, count-append, length, All-map,
}
use llm_home_lab.Base.Int.{pos}
use llm_home_lab.Metrics.{
  Sample, MetricsRegistry, new_metrics, evict, samples_of, record_request, record_failover_outcome,
  record_token_usage, record_host_completion,
}
use llm_home_lab.Metrics.Snapshot.{Ratio, ok, all_samples, availability_of, evicted}
use llm_home_lab.Metrics.Runs.{Call, apply, run}
use llm_home_lab.Metrics.Stats.{ratio_of-length}
use llm_home_lab.Metrics.Eviction.{
  recent, requested, requests_in, InOrder, live, count-evict, all_samples-insert, IsOrdered,
  later-IsOrdered, append-IsOrdered, evict-IsOrdered, AllOrdered, insert-AllOrdered,
  samples_of-IsOrdered, count-evict_all,
}

InOrder-le : (now at : ℕ) (cs : List Call) → InOrder now cs at → now ≤ at
unfolding InOrder
InOrder-le now at [] o = o
InOrder-le now at (Call.request endpoint status_code latency_ms t ∷ cs) o =
    omega (arith, o.0, InOrder-le t at cs o.1)
InOrder-le now at (Call.failover succeeded t ∷ cs) o = InOrder-le now at cs o
InOrder-le now at (Call.token_usage host_id prompt_tokens completion_tokens ∷ cs) o =
    InOrder-le now at cs o
InOrder-le now at (Call.completion host_id latency_ms prompt_tokens completion_tokens ∷ cs) o =
    InOrder-le now at cs o

module _ (p : Sample → Bool) (at : ℕ) where
  -- The registry after a history, beside the one before it.
  record Follows (m n : MetricsRegistry) (ss : List Sample) : Type 0 where
    same_window : n.window ≡ m.window
    counted :
        count (live p m.window at) (all_samples n.requests)
        ≡ count (live p m.window at) (all_samples m.requests) + count (live p m.window at) ss
    ordered : AllOrdered at n.requests

  request-Follows :
      (endpoint : String) (status_code latency_ms now t : ℕ) (m : MetricsRegistry)
      → now ≤ t
      → t ≤ at
      → AllOrdered now m.requests
      → (count
            (live p m.window at)
            (all_samples (record_request endpoint status_code latency_ms t m).requests)
          ≡ count (live p m.window at) (all_samples m.requests)
            + count
                (live p m.window at)
                (requested (Call.request endpoint status_code latency_ms t)))
        × AllOrdered t (record_request endpoint status_code latency_ms t m).requests
  unfolding record_request requested
  request-Follows endpoint status_code latency_ms now t m before le a =
      let s : Sample = record { status_code = status_code; latency_ms = latency_ms; at = t } in
      let old = samples_of endpoint m.requests in
      let o = samples_of-IsOrdered now endpoint m.requests a in
      let kept = evict (λ x. x.at) m.window t (old ++ s ∷ []) in
      (
        omega (
          arith,
          all_samples-insert (live p m.window at) m.window at endpoint kept m.requests,
          count-evict p m.window at t (old ++ s ∷ []) le,
          count-append (live p m.window at) old (s ∷ []),
        ),
        insert-AllOrdered t endpoint kept m.requests
            (evict-IsOrdered m.window t t (old ++ s ∷ []) (append-IsOrdered now s old before o))
            (All-map (λ e. IsOrdered now e.1) (λ e. IsOrdered t e.1) m.requests
              (λ e. later-IsOrdered now t e.1 before) a),
      )

  runs-Follows :
      (cs : List Call) (now : ℕ) (m : MetricsRegistry)
      → AllOrdered now m.requests
      → InOrder now cs at
      → Follows m (run cs m) (requests_in cs)
  unfolding run apply requests_in requested InOrder count record_request record_failover_outcome
      record_token_usage record_host_completion
  runs-Follows [] now m a o = record {
    same_window = refl;
    counted = omega arith;
    ordered =
        All-map (λ e. IsOrdered now e.1) (λ e. IsOrdered at e.1) m.requests
          (λ e. later-IsOrdered now at e.1 o) a;
  }
  runs-Follows (Call.request endpoint status_code latency_ms t ∷ cs) now m a o =
      let (one, kept) =
        request-Follows endpoint status_code latency_ms now t m o.0 (InOrder-le t at cs o.1) a in
      let r = runs-Follows cs t (record_request endpoint status_code latency_ms t m) kept o.1 in
      record {
        same_window = r.same_window;
        counted = omega (arith, r.counted, one);
        ordered = r.ordered;
      }
  runs-Follows (Call.failover succeeded t ∷ cs) now m a o =
      let r = runs-Follows cs now (record_failover_outcome succeeded t m) a o in
      record { same_window = r.same_window; counted = r.counted; ordered = r.ordered }
  runs-Follows (Call.token_usage host_id prompt_tokens completion_tokens ∷ cs) now m a o =
      let r =
        runs-Follows cs now (record_token_usage host_id prompt_tokens completion_tokens m) a o in
      record { same_window = r.same_window; counted = r.counted; ordered = r.ordered }
  runs-Follows (Call.completion host_id latency_ms prompt_tokens completion_tokens ∷ cs) now m a o =
      let r =
        runs-Follows cs now
          (record_host_completion host_id latency_ms prompt_tokens completion_tokens m) a o in
      record { same_window = r.same_window; counted = r.counted; ordered = r.ordered }

-- A share of requests, which is 1 where there are none.
abbrev pub share : ℕ → ℕ → Ratio
share good n =
    if n == 0
    then record { numerator = pos 1; denominator = 1 }
    else record { numerator = pos good; denominator = n }

count-all : (ss : List Sample) → count (λ s. true) ss ≡ length ss
unfolding count
count-all [] = refl
count-all (s ∷ ss) = omega (arith, count-all ss)

count-and_true : (p : Sample → Bool) (ss : List Sample) → count (λ s. p s && true) ss ≡ count p ss
unfolding count
count-and_true p [] = refl
count-and_true p (s ∷ ss) = ground (arith, count-and_true p ss)

availability_of-share :
    (ss : List Sample)
    → availability_of ss ≡ ok (share (count (λ s. ltb s.status_code 500) ss) (count (λ s. true) ss))
unfolding availability_of count
availability_of-share [] = refl
availability_of-share (s ∷ ss) =
    ground (arith, ratio_of-length (count (λ r. ltb r.status_code 500) (s ∷ ss)) s ss, count-all ss)

-- The samples that a snapshot reads, after any history on a new registry whose request times never
-- decrease up to the time of the snapshot, are for every test as many as the requests of the whole
-- history that are no older than the window and pass the test; so that the availability is the share
-- of those without a server error, and 1 where there are none.
pub all_samples-run :
    (window at : ℕ) (cs : List Call)
    → InOrder 0 cs at
    → ((p : Sample → Bool)
        → count p (all_samples (evicted at (run cs (new_metrics window))).requests)
          ≡ count (λ s. recent window at s && p s) (requests_in cs))
      × (availability_of (all_samples (evicted at (run cs (new_metrics window))).requests)
          ≡ ok (
              share
                (count (λ s. recent window at s && ltb s.status_code 500) (requests_in cs))
                (count (recent window at) (requests_in cs))))
unfolding evicted live all_samples count
all_samples-run window at cs o =
    let counts : (p : Sample → Bool)
        → count p (all_samples (evicted at (run cs (new_metrics window))).requests)
          ≡ count (λ s. recent window at s && p s) (requests_in cs) =
      λ p.
        let f = runs-Follows p at cs 0 (new_metrics window) tt o in
        let m = run cs (new_metrics window) in
        count-evict_all p m.window at at m.requests f.ordered
        ∙ ap (λ w. count (live p w at) (all_samples m.requests)) f.same_window
        ∙ omega (arith, f.counted) in
    (
      counts,
      availability_of-share (all_samples (evicted at (run cs (new_metrics window))).requests)
          ∙ rw
              (
                counts (λ s. ltb s.status_code 500),
                counts (λ s. true),
                count-and_true (recent window at) (requests_in cs),
              )
              refl,
    )
