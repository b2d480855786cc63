-- ===== src/Requests.antt =====
-- The requests to the driver and to the operator that take a lock, each with its mutex and its key:
-- pkg/csi-driver/controller.go and node.go, and the reconcilers of
-- pkg/csi-operator/internal/controller.
pub mod Together
use open_cas_csi.Prelude.{String, Option, []}
use open_cas_csi.World.{World, History}
use open_cas_csi.Csi.Types.{Access}
use open_cas_csi.Csi.Controller.{CreateVolumeRequest, create_volume, delete_volume}
use open_cas_csi.Csi.Publish.{controller_publish_volume, controller_unpublish_volume}
use open_cas_csi.Csi.Node.Stage.{NodeStageRequest, node_stage_volume}
use open_cas_csi.Csi.Node.Unstage.{node_unstage_volume, node_unpublish_volume}
use open_cas_csi.Csi.Node.Publish.{NodePublishRequest, node_publish_volume}
use open_cas_csi.Operator.Cache
use open_cas_csi.Operator.Instance

pub data Request : Type 0 where
  create : CreateVolumeRequest → Request
  delete : (volume_id : String) → Request
  publish : (volume_id node_id : String) → Option Access → Request
  unpublish : (volume_id node_id : String) → Request
  stage : (node_id : String) → NodeStageRequest → Request
  unstage : (node_id volume_id target : String) → Request
  node_publish : (node_id : String) → NodePublishRequest → Request
  node_unpublish : (volume_id target : String) → Request
  reconcile_cache : (name : String) → Request
  reconcile_driver : (name : String) → Request

-- `controllerServer.mutex`, `nodeServer.mutex`, `CacheReconciler.NodeMutex` and
-- `DriverInstanceReconciler.Mutex`
pub data Mutex : Type 0 where
  of_controller of_node of_caches of_drivers : Mutex

abbrev pub mutex : Request → Mutex
mutex (create _) = of_controller
mutex (delete _) = of_controller
mutex (publish _ _ _) = of_controller
mutex (unpublish _ _) = of_controller
mutex (stage _ _) = of_node
mutex (unstage _ _ _) = of_node
mutex (node_publish _ _) = of_node
mutex (node_unpublish _ _) = of_node
mutex (reconcile_cache _) = of_caches
mutex (reconcile_driver _) = of_drivers

-- The volume, or the name of the definition; a `sync.Mutex` has no keys.
abbrev pub key : Request → String
key (create req) = req.name
key (delete id) = id
key (publish id _ _) = id
key (unpublish id _) = id
key (stage _ req) = req.volume_id
key (unstage _ id _) = id
key (node_publish _ req) = req.volume_id
key (node_unpublish id _) = id
key (reconcile_cache name) = name
key (reconcile_driver _) = ""

-- The calls that a request makes in a world, the latest first.
abbrev pub calls : Request → World → History
calls (create req) w = (create_volume req w []).1
calls (delete id) w = (delete_volume id w []).1
calls (publish id node_id capability) w = (controller_publish_volume id node_id capability w []).1
calls (unpublish id node_id) w = (controller_unpublish_volume id node_id w []).1
calls (stage node_id req) w = (node_stage_volume node_id req w []).1
calls (unstage node_id id target) w = (node_unstage_volume node_id id target w []).1
calls (node_publish node_id req) w = (node_publish_volume node_id req w []).1
calls (node_unpublish id target) w = (node_unpublish_volume id target w []).1
calls (reconcile_cache name) w = (Cache.reconcile name w []).1
calls (reconcile_driver name) w = (Instance.reconcile name w []).1
