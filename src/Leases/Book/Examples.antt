-- ===== src/Leases/Book/Examples.antt =====
-- The lease theorems at a book with two nodes, one of them leased at time 0.
use llm_home_lab.Base.{
  ◌+◌, ◌≤◌, String, ◌≡◌, refl, ◌⊎◌, inl, ◌↔◌, true, false, not, none, some, List, [], ◌∷◌, arith,
  eq_iff, string_eq, In, filter, count,
}
use llm_home_lab.Base.Text.{strip, str_le}
use llm_home_lab.Dict.{lookup, insert, remove, member}
use llm_home_lab.Leases.Models.{
  LeaseSettings, ReservableHost, NodeLease, ok, err, lease_not_held, lease_ended, failed,
}
use llm_home_lab.Leases.Book.{
  NodeLeaseBook, empty, reserve, require, is_held, release, heartbeat, force_release, active_count,
  purge_unlocked, ended, reserve_locked, reserve_any, drop_unlocked, grant, matching_hosts,
  free_hosts, sort_hosts,
}
use llm_home_lab.Leases.Book.Valid.{IsValid}
use llm_home_lab.Leases.Book.Grants.{reserve-keeps_minimum, reserve-usable}
use llm_home_lab.Leases.Book.Effects.{
  require_iff, release_ends, expiry_frees, heartbeat_extends, force_release_frees,
}
use llm_home_lab.Leases.Book.Histories.{Reach, start, next, reserves, Reach-IsValid}

abbrev limits : LeaseSettings
limits = record {
  ttl = 180;
  default_ceiling = 10800;
  max_ceiling = 10800;
  min_active_nodes = 1;
  expiring_soon = 60;
}

abbrev node : String → ReservableHost
node id = record { host_id = id; status = "online"; healthy = true; serves_requested_model = true }

abbrev nodes : List ReservableHost
nodes = node "b" ∷ node "a" ∷ []

abbrev lease_a : NodeLease
lease_a = record {
  host_id = "a";
  holder = "dev";
  token = "t";
  expires_at = 180;
  hard_expires_at = 10800;
  created_at = 0;
}

abbrev leased : NodeLeaseBook
leased = record { settings = limits; by_host = ("a", lease_a) ∷ []; by_token = ("t", lease_a) ∷ [] }

-- With no node named, the least free id is taken.
reserve_any_test :
    reserve " dev " nodes none (some "m") none 0 "t" (empty limits) ≡ (ok lease_a, leased)
unfolding reserve strip purge_unlocked reserve_locked reserve_any active_count grant matching_hosts
    free_hosts filter sort_hosts str_le count member lookup insert
reserve_any_test = refl

leased-Reach : Reach limits leased
unfolding reserve strip purge_unlocked reserve_locked reserve_any active_count grant matching_hosts
    free_hosts filter sort_hosts str_le count member lookup insert
leased-Reach = next (reserves " dev " nodes none (some "m") none 0 "t") start refl

leased-IsValid : IsValid leased
leased-IsValid = Reach-IsValid leased-Reach

Reach-IsValid_example : IsValid leased
Reach-IsValid_example = Reach-IsValid leased-Reach

reserve-keeps_minimum_example :
    (1 ≤ active_count nodes leased)
    ⊎ ((h : ReservableHost) × In h nodes × (h.host_id ≡ "a") × (h.healthy ≡ false))
reserve-keeps_minimum_example =
    reserve-keeps_minimum " dev " nodes none (some "m") none 0 "t" (empty limits) leased lease_a
      ((λ e. ground (arith, eq_iff "a" "b"), tt), (tt, tt)) reserve_any_test

reserve-usable_example :
    let r = (is_held "a" 0 (empty limits)).0 in
    (lease_a.token ≡ "t")
    × (lease_a.holder ≡ strip " dev ")
    × (lease_a.created_at ≡ 0)
    × (lease_a.hard_expires_at ≤ 0 + 10800)
    × (require "t" 0 leased ≡ (ok lease_a, leased))
    × ((is_held "a" 0 leased).0 ≡ true)
    × (r ≡ false)
reserve-usable_example =
    reserve-usable " dev " nodes none (some "m") none 0 "t" (empty limits) leased lease_a
      (Reach-IsValid start) (omega arith) reserve_any_test

require_iff_test :
    (require "t" 5 leased ≡ (ok lease_a, leased))
    ↔ ((lookup "a" leased.by_host ≡ some lease_a) × ((is_held "a" 5 leased).0 ≡ true))
require_iff_test = require_iff 5 leased lease_a leased-IsValid

released_test : release "t" 5 leased ≡ (ok lease_a, empty limits)
unfolding release lookup ended drop_unlocked remove
released_test = refl

release_ends_example :
    (require "t" 6 (empty limits) ≡ (err lease_not_held, empty limits))
    × ((is_held "a" 6 (empty limits)).0 ≡ false)
    × (lookup "t" leased.by_token ≡ some lease_a)
release_ends_example =
    release_ends "t" 5 6 leased (empty limits) lease_a leased-IsValid released_test

expiry_frees_example :
    ((require "t" 180 leased).0 ≡ err (lease_ended "a" "dev"))
    × (require "t" 200 (require "t" 180 leased).1
        ≡ (err lease_not_held, (require "t" 180 leased).1))
    × ((is_held "a" 180 leased).0 ≡ false)
    × ((is_held "a" 200 (require "t" 180 leased).1).0 ≡ false)
unfolding lookup
expiry_frees_example = expiry_frees 180 200 leased lease_a leased-IsValid refl (inl (omega arith))

good_test : require "t" 100 leased ≡ (ok lease_a, leased)
unfolding require lookup ended
good_test = refl

heartbeat_extends_example :
    let l' = record lease_a { expires_at = 280 } in
    let b' = (heartbeat "t" 100 leased).1 in
    ((heartbeat "t" 100 leased).0 ≡ ok l')
    × (280 ≤ 10800)
    × (require "t" 100 b' ≡ (ok l', b'))
    × ((is_held "a" 100 b').0 ≡ true)
heartbeat_extends_example =
    heartbeat_extends "t" 100 leased lease_a leased-IsValid (omega arith) good_test

force_release_frees_test :
    (failed (force_release "a" 100 leased).0 ≡ not (is_held "a" 100 leased).0)
    × ((is_held "a" 101 (force_release "a" 100 leased).1).0 ≡ false)
force_release_frees_test = force_release_frees "a" 100 101 leased leased-IsValid
