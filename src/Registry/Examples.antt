-- ===== src/Registry/Examples.antt =====
-- The registry theorems at a registry with one host.
use llm_home_lab.Base.{◌≡◌, refl, none, List, [], ◌∷◌, string_eq}
use llm_home_lab.Base.Int.{pos, negsuc, ◌+ℤ◌}
use llm_home_lab.Dict.{lookup, insert}
use llm_home_lab.Registry.{
  HostCapabilities, HostCapacity, ok, err, key_error, Call, registers, acquires, releases,
  deregisters, open_registry, load_hosts, in_flight, release_slot, run, step, register,
}
use llm_home_lab.Registry.Restart.{restart, idle?}
use llm_home_lab.Registry.Slots.{in_flight-run, release_after_deregister}

abbrev caps : HostCapabilities
caps = record {
  backend_type = "lmstudio";
  context_window = 8192;
  base_url = "http://gpu-box.home:1234";
  allowed_models = none;
  memory_budget_gb = none;
  model_sizes_gb = none;
  model_aliases = none;
  position = none;
}

abbrev limit : HostCapacity
limit = record { max_concurrent_requests = 4 }

abbrev session : List Call
session = registers "gpu" caps limit 7 ∷ acquires "gpu" ∷ []

restart_example :
    lookup "gpu" (open_registry (run (open_registry []) session).store).hosts_by_id
    ≡ idle? (lookup "gpu" (run (open_registry []) session).hosts_by_id)
restart_example = restart [] session "gpu"

registered_test :
    in_flight "gpu" (run (open_registry []) (registers "gpu" caps limit 7 ∷ [])) ≡ ok (pos 0)
unfolding run step register open_registry load_hosts in_flight insert lookup
registered_test = refl

in_flight-run_example :
    in_flight "gpu" (
      run
        (run (open_registry []) (registers "gpu" caps limit 7 ∷ []))
        (acquires "gpu" ∷ acquires "gpu" ∷ releases "gpu" ∷ []))
    ≡ ok (pos 1)
unfolding ◌+ℤ◌
in_flight-run_example =
    in_flight-run "gpu" (run (open_registry []) (registers "gpu" caps limit 7 ∷ []))
      (acquires "gpu" ∷ acquires "gpu" ∷ releases "gpu" ∷ []) (pos 0) (tt, (tt, (tt, tt)))
      registered_test

release_after_deregister_example :
    (in_flight "gpu" (
        run
          (open_registry [])
          (acquires "gpu" ∷ deregisters "gpu" ∷ registers "gpu" caps limit 9 ∷ releases "gpu" ∷ []))
      ≡ ok (negsuc 0))
    × (release_slot "gpu" (run (open_registry []) (acquires "gpu" ∷ deregisters "gpu" ∷ []))
        ≡ err (key_error "gpu"))
release_after_deregister_example = release_after_deregister "gpu" (open_registry []) caps limit 9
