-- ===== src/Leases/Runner/Examples.antt =====
-- The wrapper on an empty lease book with one free node, and its answers to the server's errors.
use llm_home_lab.Base.{
  ℕ, ◌⊎◌, some, false, arith, String, ◌≡◌, refl, true, none, [], ◌∷◌, filter, count,
}
use llm_home_lab.Base.Int.{pos, negsuc}
use llm_home_lab.Base.Text.{strip, str_le}
use llm_home_lab.Dict.{lookup, insert, remove, member}
use llm_home_lab.Leases.Models.{
  LeaseSettings, ReservableHost, NodeLease, err, failed, lease_not_held,
}
use llm_home_lab.Leases.Book.{
  empty, reserve, require, purge_unlocked, reserve_locked, reserve_any, active_count, grant,
  matching_hosts, free_hosts, sort_hosts, heartbeat, release, ended, renew, store, drop_unlocked,
}
use llm_home_lab.Leases.Book.Histories.{start, Reach-IsValid}
use llm_home_lab.Leases.Runner.{
  Child, LeaseApi, returned, ends, run_leased, reserve_answer, release_answer, heartbeat_answer,
  release_unreachable, wait_for, run_child, cleaned_up, with_reservation, beat, release_lease,
  leased,
}
use llm_home_lab.Leases.Runner.Releasing.{run_leased-releases, Ended}
use llm_home_lab.Leases.Runner.Server.{
  orchestrator, Server, delivered, request_lost, answer_of, run_leased-frees,
}

abbrev limits : LeaseSettings
limits = record {
  ttl = 180;
  default_ceiling = 10800;
  max_ceiling = 10800;
  min_active_nodes = 0;
  expiring_soon = 60;
}

abbrev node : String → ReservableHost
node id = record { host_id = id; status = "online"; healthy = true; serves_requested_model = true }

abbrev lease_a : NodeLease
lease_a = record {
  host_id = "a";
  holder = "dev";
  token = "t";
  expires_at = 190;
  hard_expires_at = 10810;
  created_at = 10;
}

-- Two heartbeats, and the command is killed by signal 9.
abbrev killed : Child
killed = record {
  starts = true;
  due = 2;
  overdue = none;
  first = ends (negsuc 8);
  second = ends (pos 0);
  third = ends (pos 0);
}

-- The same, with a heartbeat that is served after the release.
abbrev late : Child
late = record killed { overdue = some (record { before_release = false; before_test = true }) }

abbrev lab : LeaseApi Server
lab = orchestrator (λ _ _. delivered) 10 (node "a" ∷ []) "dev" none none none "t"

killed_test : (run_leased lab true killed (0, empty limits)).0 ≡ returned 137
unfolding reserve_answer reserve strip reserve_locked reserve_any matching_hosts filter free_hosts
    member purge_unlocked sort_hosts active_count count grant run_leased with_reservation run_child
    wait_for str_le insert lookup beat release_lease heartbeat release heartbeat_answer renew store
    ended cleaned_up
killed_test = refl

run_leased-releases_example :
    let api = lab in
    Ended api
      (leased lease_a)
      (api.reserve (0, empty limits)).1
      (run_leased api true killed (0, empty limits))
unfolding reserve_answer reserve strip reserve_locked reserve_any matching_hosts filter free_hosts
    member purge_unlocked sort_hosts active_count count grant
run_leased-releases_example = run_leased-releases lab killed (0, empty limits)

run_leased-frees_example :
    let b' = (run_leased lab true late (0, empty limits)).1.1 in
    ((require "t" 99 b' ≡ (err lease_not_held, b')) ⊎ ((t : ℕ) × (delivered ≡ request_lost)))
    × (failed (require "t" 10810 b').0 ≡ true)
unfolding reserve_answer reserve strip reserve_locked reserve_any matching_hosts filter free_hosts
    member purge_unlocked sort_hosts active_count count grant lookup insert
run_leased-frees_example =
    run_leased-frees (λ _ _. delivered) 10 (node "a" ∷ []) "dev" none none none "t" late 0 99 10810
      (empty limits) lease_a (Reach-IsValid start) refl refl refl (omega arith)

late_test : (run_leased lab true late (0, empty limits)).0 ≡ returned 4
unfolding reserve_answer reserve strip reserve_locked reserve_any matching_hosts filter free_hosts
    member purge_unlocked sort_hosts active_count count grant run_leased with_reservation run_child
    wait_for str_le insert lookup beat release_lease heartbeat release heartbeat_answer renew store
    ended cleaned_up drop_unlocked remove
late_test = refl

-- A lease that is no longer known is, to the wrapper's release, an orchestrator that is not reached.
unknown_lease_test : release_answer (answer_of 200 (err lease_not_held)) ≡ release_unreachable
unfolding release_answer
unknown_lease_test = refl
