-- ===== src/Registry/Restart.antt =====
-- A restart brings back every host as it was, with no request in flight.
use llm_home_lab.Base.{
  ℕ, String, ◌≡◌, refl, ◌∙◌, Option, none, some, List, [], ◌∷◌, arith, eq_iff, string_eq,
  Option-cases, inl, inr,
}
use llm_home_lab.Base.Int.{ℤ, pos, negsuc}
use llm_home_lab.Dict.{lookup, dict_laws}
use llm_home_lab.Registry.{
  HostInfo, HostRow, HostTable, HostRegistry, info_of, load_hosts, open_registry, Call, registers,
  acquires, releases, after, add_slots, deregisters, heartbeats, register, acquire_slot,
  release_slot, heartbeat, deregister, step, run, upsert, delete, update_last_seen,
}

abbrev pub idle : HostInfo → HostInfo
idle h = record h { in_flight = pos 0 }

abbrev pub idle? : Option HostInfo → Option HostInfo
idle? none = none
idle? (some h) = some (idle h)

abbrev info? : String → Option HostRow → Option HostInfo
info? id none = none
info? id (some row) = some (info_of id row)

lookup-load : (id : String) (t : HostTable) → lookup id (load_hosts t) ≡ info? id (lookup id t)
unfolding lookup load_hosts
lookup-load id [] = refl
lookup-load id ((j, row) ∷ t) = ground (arith, eq_iff j id, lookup-load id t)

-- The table has the hosts of the registry, but for the slots in use.
abbrev pub IsDurable : HostRegistry → Type 0
IsDurable r = (id : String) → info? id (lookup id r.store) ≡ idle? (lookup id r.hosts_by_id)

add_slots-IsDurable :
    (n : ℤ) (h : String) (r : HostRegistry) → IsDurable r → IsDurable (after r (add_slots n h r))
unfolding add_slots
add_slots-IsDurable n h r d id = elim (Option-cases (lookup h r.hosts_by_id)) [
  | inl e ↦ rw (e, add_slots) (d id)
  | inr (x, e) ↦ rw (e, add_slots) (simp dict_laws (ground (arith, eq_iff h id, d id)))
]

heartbeat-IsDurable :
    (h : String) (at : ℕ) (r : HostRegistry) → IsDurable r → IsDurable (after r (heartbeat h at r))
unfolding heartbeat update_last_seen
heartbeat-IsDurable h at r d id = elim (Option-cases (lookup h r.hosts_by_id)) [
  | inl e ↦ rw (e, heartbeat) (d id)
  | inr (x, e) ↦ elim (Option-cases (lookup h r.store)) [
    | inl f ↦ absurd (ground (arith, d h))
    | inr (row, f) ↦
        rw (e, heartbeat, f, update_last_seen) (simp dict_laws (ground (arith, eq_iff h id, d id)))
  ]
]

-- Every call keeps the table in step with the registry.
step-IsDurable : (r : HostRegistry) (c : Call) → IsDurable r → IsDurable (step r c)
unfolding step register upsert deregister delete acquire_slot release_slot
step-IsDurable r (registers h caps limit at) d id =
    simp dict_laws (ground (arith, eq_iff h id, d id))
step-IsDurable r (acquires h) d id = add_slots-IsDurable (pos 1) h r d id
step-IsDurable r (releases h) d id = add_slots-IsDurable (negsuc 0) h r d id
step-IsDurable r (deregisters h) d id = simp dict_laws (ground (arith, eq_iff h id, d id))
step-IsDurable r (heartbeats h at) d id = heartbeat-IsDurable h at r d id

run-IsDurable : (r : HostRegistry) (cs : List Call) → IsDurable r → IsDurable (run r cs)
unfolding run
run-IsDurable r [] d = d
run-IsDurable r (c ∷ cs) d = run-IsDurable (step r c) cs (step-IsDurable r c d)

open-IsDurable : (t : HostTable) → IsDurable (open_registry t)
unfolding open_registry
open-IsDurable t id = rw (lookup-load id t) (ground arith)

-- After any calls on a registry that was opened on any table, a restart on its table finds the same
-- hosts with the same capabilities, capacity and last heartbeat, and no request in flight.
pub restart :
    (t : HostTable) (cs : List Call) (id : String)
    → let r = run (open_registry t) cs in
      lookup id (open_registry r.store).hosts_by_id ≡ idle? (lookup id r.hosts_by_id)
restart t cs id =
    let r = run (open_registry t) cs in
    unfold open_registry in
    lookup-load id r.store ∙ run-IsDurable (open_registry t) cs (open-IsDurable t) id
