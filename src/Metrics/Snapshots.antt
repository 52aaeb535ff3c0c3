-- ===== src/Metrics/Snapshots.antt =====
-- When a snapshot raises, and the statistics in the one that does not.
use llm_home_lab.Base.{
  ℕ, String, ◌≡◌, refl, Bool, true, false, ◌⊎◌, inl, inr, Option, some, List, [], ◌∷◌, map, arith,
  ◌==◌, string_eq, nat_eq, any, count, length, Bool-cases,
}
use llm_home_lab.Base.Int.{ℤ, pos}
use llm_home_lab.Dict.{Dict, lookup}
use llm_home_lab.Registry.{HostInfo, HostRegistry, hosts}
use llm_home_lab.Scheduling.{SchedulingQueue, depth}
use llm_home_lab.Metrics.{Sample, Failover, MetricsRegistry, new_metrics}
use llm_home_lab.Metrics.Snapshot.{
  Ratio, SliSnapshot, zero_division, ok, raised, divide, availability_of, p95_of, failover_rate_of,
  saturation_of, evicted, all_samples, snapshot_of, snapshot,
}
use llm_home_lab.Metrics.Runs.{Call, run, completions_in, summary}
use llm_home_lab.Metrics.Stats.{ratio_of-length, completion_stats-run}
use llm_home_lab.Metrics.Percentile.{percentile-nearest_rank}

-- A host that was registered for no requests at once.
abbrev pub has_no_slots : HostInfo → Bool
has_no_slots h = h.capacity.max_concurrent_requests == 0

availability_of-ok : (ss : List Sample) → (r : Ratio) × (availability_of ss ≡ ok r)
unfolding availability_of
availability_of-ok [] = (_, refl)
availability_of-ok (s ∷ ss) = (_, ratio_of-length _ s ss)

p95_of-ok : (ss : List Sample) → (r : ℕ) × (p95_of ss ≡ ok r)
unfolding p95_of
p95_of-ok [] = (_, refl)
p95_of-ok (s ∷ ss) =
    let (p, found, _, _, _) = percentile-nearest_rank s.latency_ms (map (λ x. x.latency_ms) ss) in
    (p, found)

failover_rate_of-ok : (os : List Failover) → (r : Option Ratio) × (failover_rate_of os ≡ ok r)
unfolding failover_rate_of
failover_rate_of-ok [] = (_, refl)
failover_rate_of-ok (o ∷ os) =
    let good = count (λ x. x.succeeded) (o ∷ os) in
    let rate : Ratio = record { numerator = pos good; denominator = length (o ∷ os) } in
    (some rate, rw (ratio_of-length good o os) refl)

divide-zero : (a : ℤ) (b : ℕ) → b == 0 ≡ true → divide a b ≡ raised zero_division
unfolding divide
divide-zero a b e = ground arith

divide-ok :
    (a : ℤ) (b : ℕ) → b == 0 ≡ false → divide a b ≡ ok (record { numerator = a; denominator = b })
unfolding divide
divide-ok a b e = ground arith

saturation_of-fails :
    (hs : List HostInfo) (d : Dict String Ratio)
    → any has_no_slots hs ≡ true
    → saturation_of hs d ≡ raised zero_division
unfolding saturation_of any
saturation_of-fails [] d e = absurd (cc)
saturation_of-fails (h ∷ hs) d e = elim (Bool-cases (has_no_slots h)) [
  | inl empty ↦ rw (divide-zero h.in_flight h.capacity.max_concurrent_requests empty) refl
  | inr slots ↦
      rw (divide-ok h.in_flight h.capacity.max_concurrent_requests slots)
        (saturation_of-fails hs _ (ground (arith, e, slots)))
]

saturation_of-ok :
    (hs : List HostInfo) (d : Dict String Ratio)
    → any has_no_slots hs ≡ false
    → (out : Dict String Ratio) × (saturation_of hs d ≡ ok out)
unfolding saturation_of any
saturation_of-ok [] d e = (d, refl)
saturation_of-ok (h ∷ hs) d e = elim (Bool-cases (has_no_slots h)) [
  | inl empty ↦ absurd (ground (arith, e, empty))
  | inr slots ↦
      rw (divide-ok h.in_flight h.capacity.max_concurrent_requests slots)
        (saturation_of-ok hs _ (ground (arith, e, slots)))
]

module _ {W : Type 0} (window at : ℕ) (registry : HostRegistry) (q : SchedulingQueue W)
    (cs : List Call) where
  after : MetricsRegistry
  after = evicted at (run cs (new_metrics window))

  -- A snapshot after any recorded history raises a division by zero if some registered host has no
  -- slots; otherwise it succeeds, and its statistics of each host are the number, the averages, the
  -- least and the greatest of the completions that the history recorded for that host, and nothing
  -- for a host without one.
  pub snapshot-run :
      ((any has_no_slots (hosts registry) ≡ true)
        × ((snapshot at registry q (run cs (new_metrics window))).0 ≡ raised zero_division))
      ⊎ ((any has_no_slots (hosts registry) ≡ false)
          × (s : SliSnapshot) × ((snapshot at registry q (run cs (new_metrics window))).0 ≡ ok s)
          × ((h : String) → lookup h s.host_completion_stats ≡ summary (completions_in h cs)))
  unfolding snapshot snapshot_of after
  snapshot-run =
      let (availability, a) = availability_of-ok (all_samples after.requests) in
      let (p95, b) = p95_of-ok (all_samples after.requests) in
      let (rate, c) = failover_rate_of-ok after.failover_outcomes in
      let (stats, d, listed) = completion_stats-run window at cs in
      elim (Bool-cases (any has_no_slots (hosts registry))) [
        | inl empty ↦ inl (empty, rw (a, b, c, saturation_of-fails (hosts registry) [] empty) refl)
        | inr slots ↦
            let (saturation, e) = saturation_of-ok (hosts registry) [] slots in
            let s : SliSnapshot = record {
              availability = availability;
              p95_latency_ms = p95;
              failover_success_rate = rate;
              host_saturation = saturation;
              queue_depth = depth q;
              tokens_of = after.token_usage_total;
              host_completion_stats = stats;
            } in
            inr (slots, s, rw (a, b, c, e, d) refl, listed)
      ]
