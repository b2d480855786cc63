-- ===== src/Operator/Start.antt =====
-- pkg/csi-operator/main.go: `Main`, and the `SetupWithManager` of the reconcilers in
-- internal/controller. The flags are arguments; how the manager works is the world's.
pub mod Steps
use open_cas_csi.Prelude.{ℕ, String, Bool, true, false, none, some, List, [], ◌∷◌, ◌&&◌, ◌||◌}
use open_cas_csi.World.{
  Call, Setup, new_manager, controller, webhook_for, healthz_check, readyz_check, start,
  ManagerOptions, Controller, Kind, namespace, service_account, role, role_binding, cluster_role,
  cluster_role_binding, csi_driver, config_map, deployment, daemon_set,
}
use open_cas_csi.Effect.{M, call, fail_on, pure, ◌>>=◌, ◌>>◌}

unfoldable pub manager_options :
    (metrics_addr probe_addr : String) → (leader_elect : Bool) → ManagerOptions
manager_options metrics_addr probe_addr leader_elect = record {
  metrics_bind_address = metrics_addr;
  port = 9443;
  health_probe_bind_address = probe_addr;
  leader_election = leader_elect;
  leader_election_id = "6fd2567c.csi.open-cas.com";
}

unfoldable pub cache_controller : Controller
cache_controller = record {
  for_kind = "Cache";
  owns = [];
  watches_nodes = true;
  max_concurrent_reconciles = some 3;
}

unfoldable pub driver_controller : Controller
driver_controller = record {
  for_kind = "DriverInstance";
  owns =
      namespace ∷ service_account ∷ role ∷ role_binding ∷ cluster_role ∷ cluster_role_binding
      ∷ csi_driver ∷ config_map ∷ deployment ∷ daemon_set ∷ [];
  watches_nodes = false;
  max_concurrent_reconciles = none;
}

-- An event of a watched object; a creation with whether the object is a `DriverInstance`.
pub data Event : Type 0 where
  created : (is_driver_instance : Bool) → Event
  updated : Event
  deleted : Event
  generic : Event

-- `predicate.Funcs` passes every event for which no function is given.
abbrev create_func : Event → Bool
create_func (created is_driver_instance) = is_driver_instance
create_func _ = true

-- The event filter, where the two library predicates are arguments.
unfoldable pub driver_events : (generation_changed label_changed : Event → Bool) → Event → Bool
driver_events generation_changed label_changed e =
    (generation_changed e || label_changed e) && create_func e

-- `Main`: the exit code, which is that of an error where the manager was not started or ended with one.
-- `GetConfigOrDie` exits with 1 as well.
unfoldable pub main : (metrics_addr probe_addr : String) → (leader_elect : Bool) → M ℕ ℕ
main metrics_addr probe_addr leader_elect = do
  config ← call Call.load_config
  fail_on config 1
  made ← call (Call.manager (new_manager (manager_options metrics_addr probe_addr leader_elect)))
  fail_on made 1
  caches ← call (Call.manager (controller cache_controller))
  fail_on caches 1
  drivers ← call (Call.manager (controller driver_controller))
  fail_on drivers 1
  webhook ← call (Call.manager (webhook_for "Cache"))
  fail_on webhook 1
  healthz ← call (Call.manager (healthz_check "healthz"))
  fail_on healthz 1
  readyz ← call (Call.manager (readyz_check "readyz"))
  fail_on readyz 1
  started ← call (Call.manager start)
  fail_on started 1
  pure 0
