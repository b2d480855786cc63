-- ===== src/World/Manager.antt =====
-- What is asked of the controller manager (sigs.k8s.io/controller-runtime) when the operator starts.
use open_cas_csi.Prelude.{ℕ, String, Bool, Option, List}

pub data Kind : Type 0 where
  namespace service_account role role_binding cluster_role cluster_role_binding : Kind
  csi_driver config_map deployment daemon_set : Kind

-- `ctrl.Options`
pub record ManagerOptions : Type 0 where
  pub metrics_bind_address : String
  pub port : ℕ
  pub health_probe_bind_address : String
  pub leader_election : Bool
  pub leader_election_id : String

-- What `ctrl.NewControllerManagedBy` is given: the kind that is reconciled, the kinds whose owned
-- objects are watched, whether nodes are watched, and how many reconciliations may run at a time.
pub record Controller : Type 0 where
  pub for_kind : String
  pub owns : List Kind
  pub watches_nodes : Bool
  pub max_concurrent_reconciles : Option ℕ

pub data Setup : Type 0 where
  new_manager : ManagerOptions → Setup
  controller : Controller → Setup
  webhook_for : (kind : String) → Setup
  healthz_check : (name : String) → Setup
  readyz_check : (name : String) → Setup
  start : Setup
