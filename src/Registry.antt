-- ===== src/Registry.antt =====
-- src/llm_home_lab/registry: models.py, registry.py and store.py. The registry keeps the hosts in
-- memory and writes every change of them, but not the slot counts, through to a table. The table
-- holds the records themselves: `json.loads` undoes `json.dumps` on them. Sizes in gigabytes are
-- whole numbers of a small unit.
mod Restart
pub mod Slots
mod Examples
use llm_home_lab.Base.{
  ℕ, String, ◌≡◌, Bool, true, false, Option, none, some, List, [], ◌∷◌, map, string_eq,
}
use llm_home_lab.Base.Int.{ℤ, pos, negsuc, ◌+ℤ◌}
use llm_home_lab.Dict.{Dict, lookup, insert, remove, values}

pub record HostCapabilities : Type 0 where
  pub backend_type : String
  pub context_window : ℕ
  pub base_url : String
  pub allowed_models : Option (List String)
  pub memory_budget_gb : Option ℕ
  pub model_sizes_gb : Option (Dict String ℕ)
  pub model_aliases : Option (Dict String (List String))
  pub position : Option ℤ

pub record HostCapacity : Type 0 where
  pub max_concurrent_requests : ℕ

pub record HostInfo : Type 0 where
  pub host_id : String
  pub capabilities : HostCapabilities
  pub capacity : HostCapacity
  pub in_flight : ℤ
  pub last_seen : ℕ

-- `HostNotRegisteredError`, and the `KeyError` of a subscript.
pub data RegistryError : Type 0 where
  host_not_registered : String → RegistryError
  key_error : String → RegistryError

pub data Result {ℓ} (A : Type ℓ) : Type ℓ where
  ok : A → Result A
  err : RegistryError → Result A

-- The row of table `hosts` under its primary key.
pub record HostRow : Type 0 where
  pub capabilities : HostCapabilities
  pub capacity : HostCapacity
  pub last_seen : ℕ

abbrev pub HostTable : Type 0
HostTable = Dict String HostRow

unfoldable pub upsert : String → HostCapabilities → HostCapacity → ℕ → HostTable → HostTable
upsert host_id capabilities capacity last_seen table =
    insert host_id
      (record { capabilities = capabilities; capacity = capacity; last_seen = last_seen }) table

-- An UPDATE of a missing row changes nothing.
unfoldable pub update_last_seen : String → ℕ → HostTable → HostTable
update_last_seen host_id last_seen table = elim (lookup host_id table) [
  | none ↦ table
  | some row ↦ insert host_id (record row { last_seen = last_seen }) table
]

unfoldable pub delete : String → HostTable → HostTable
delete host_id table = remove host_id table

abbrev pub info_of : String → HostRow → HostInfo
info_of host_id row = record {
  host_id = host_id;
  capabilities = row.capabilities;
  capacity = row.capacity;
  in_flight = pos 0;
  last_seen = row.last_seen;
}

-- `{host.host_id: host for host in self._store.load_hosts()}`: keys of a table are distinct.
unfoldable pub load_hosts : HostTable → Dict String HostInfo
load_hosts [] = []
load_hosts ((host_id, row) ∷ table) = (host_id, info_of host_id row) ∷ load_hosts table

pub record HostRegistry : Type 0 where
  pub hosts_by_id : Dict String HostInfo
  pub store : HostTable

-- `HostRegistry(db_path)`: a start on the table that an earlier run left.
unfoldable pub open_registry : HostTable → HostRegistry
open_registry table = record { hosts_by_id = load_hosts table; store = table }

slots_kept : Option HostInfo → ℤ
slots_kept none = pos 0
slots_kept (some h) = h.in_flight

unfoldable pub register : String → HostCapabilities → HostCapacity → ℕ → HostRegistry → HostRegistry
unfolding slots_kept
register host_id capabilities capacity at r = record {
  hosts_by_id =
      insert host_id
        (record {
          host_id = host_id;
          capabilities = capabilities;
          capacity = capacity;
          in_flight = slots_kept (lookup host_id r.hosts_by_id);
          last_seen = at;
        })
        r.hosts_by_id;
  store = upsert host_id capabilities capacity at r.store;
}

unfoldable pub get : String → HostRegistry → Result HostInfo
get host_id r = elim (lookup host_id r.hosts_by_id) [
  | none ↦ err (host_not_registered host_id)
  | some h ↦ ok h
]

unfoldable pub hosts : HostRegistry → List HostInfo
hosts r = values r.hosts_by_id

abbrev pub slots_of : String → Option HostInfo → Result ℤ
slots_of host_id none = err (key_error host_id)
slots_of host_id (some h) = ok h.in_flight

unfoldable pub in_flight : String → HostRegistry → Result ℤ
in_flight host_id r = slots_of host_id (lookup host_id r.hosts_by_id)

-- `self._hosts[host_id].in_flight += n`
unfoldable pub add_slots : ℤ → String → HostRegistry → Result HostRegistry
add_slots n host_id r = elim (lookup host_id r.hosts_by_id) [
  | none ↦ err (key_error host_id)
  | some h ↦ ok (record r {
    hosts_by_id = insert host_id (record h { in_flight = h.in_flight +ℤ n }) r.hosts_by_id;
  })
]

unfoldable pub acquire_slot : String → HostRegistry → Result HostRegistry
unfolding add_slots
acquire_slot = add_slots (pos 1)

unfoldable pub release_slot : String → HostRegistry → Result HostRegistry
unfolding add_slots
release_slot = add_slots (negsuc 0)

unfoldable pub heartbeat : String → ℕ → HostRegistry → Result HostRegistry
heartbeat host_id at r = elim (lookup host_id r.hosts_by_id) [
  | none ↦ err (host_not_registered host_id)
  | some h ↦ ok (record {
    hosts_by_id = insert host_id (record h { last_seen = at }) r.hosts_by_id;
    store = update_last_seen host_id at r.store;
  })
]

unfoldable pub deregister : String → HostRegistry → HostRegistry
deregister host_id r = record {
  hosts_by_id = remove host_id r.hosts_by_id;
  store = delete host_id r.store;
}

-- The calls on a registry. One that raises leaves it as it was.
pub data Call : Type 0 where
  registers : String → HostCapabilities → HostCapacity → ℕ → Call
  acquires releases deregisters : String → Call
  heartbeats : String → ℕ → Call

abbrev pub after : HostRegistry → Result HostRegistry → HostRegistry
after r (ok r') = r'
after r (err e) = r

unfoldable pub step : HostRegistry → Call → HostRegistry
step r (registers host_id capabilities capacity at) = register host_id capabilities capacity at r
step r (acquires host_id) = after r (acquire_slot host_id r)
step r (releases host_id) = after r (release_slot host_id r)
step r (deregisters host_id) = deregister host_id r
step r (heartbeats host_id at) = after r (heartbeat host_id at r)

pub run : HostRegistry → List Call → HostRegistry
run r [] = r
run r (c ∷ cs) = run (step r c) cs
