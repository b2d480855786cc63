-- ===== src/World.antt =====
-- Everything outside the repository that the driver and the operator call: the API server, the
-- shell, the block devices, the mount table and the process environment.
-- A `Call` is one request with its arguments, `Response` the type of its answer. The world answers
-- each call by the calls made before it, so any behaviour of the cluster and of the node,
-- changes by others between two calls included, is one `World`.
mod Pods
mod Manager
use open_cas_csi.Prelude.{ℕ, String, Bool, Option, List}
use open_cas_csi.Prelude.Int.{ℤ}
use open_cas_csi.Prelude.Dict.{Dict}
pub use Pods.*
pub use Manager.*

-- pkg/utils/utils.go: `Output`
pub record Output : Type 0 where
  pub std_out : String
  pub exit_code : ℤ

-- `err` of an `os` call: nil, `os.IsNotExist`, `os.IsExist`, or another error.
pub data OsError : Type 0 where
  no_error not_exist exist other_error : OsError

-- What `exec.Cmd.Run` reports: the exit status with the output, or that the command never ran.
pub data RunResult : Type 0 where
  exited : Output → RunResult
  not_started : RunResult

-- `Status.Phase` of a Pod, as far as the program tells phases apart.
pub data Phase : Type 0 where
  running other_phase : Phase

pub record PvcSpec : Type 0 where
  pub access_modes : List String
  pub storage_class_name : String
  pub volume_mode : String
  pub request : Option ℤ
  pub limit : Option ℤ

-- A Pvc or Pod with no name stands for the empty object that a failed `Get` returns.
pub record Pvc : Type 0 where
  pub name : String
  pub labels : Dict String
  pub volume_name : String
  pub spec : PvcSpec

-- One container; a device is a volume's name with a path, a volume is a name with a claim.
pub record PodSpec : Type 0 where
  pub container : String
  pub image : String
  pub image_pull_policy : String
  pub command : List String
  pub privileged : Bool
  pub node_selector : Dict String
  pub volume_devices : List (String × String)
  pub volumes : List (String × String)

pub record Pod : Type 0 where
  pub name : String
  pub namespace : String
  pub labels : Dict String
  pub spec : PodSpec
  pub phase : Phase
  -- `Status.ContainerStatuses`, each with its `State.Terminated.ExitCode`
  pub containers : List (Option ℤ)

-- `batchv1.Job` with one container, whose command stands apart from the template.
pub record Job : Type 0 where
  pub name : String
  pub namespace : String
  pub command : List String
  pub node_name : String
  pub completions : ℕ
  pub ttl_seconds_after_finished : ℕ
  -- `RestartPolicyNever`
  pub restart_never : Bool
  pub template : PodTemplate

-- What a watch channel delivers before it is closed.
pub data Event (A : Type 0) : Type 0 where
  object : A → Event A
  status : Event A
  timeout : Event A

-- `Status.Succeeded + Status.Failed > 0`
pub record JobStatus : Type 0 where
  pub finished : Bool

pub record MountPoint : Type 0 where
  pub path : String
  pub fs_type : String
  pub opts : List String

-- pkg/csi-operator/api/v1alpha1/cache_types.go: `Cache`, with its metadata
pub record CacheDef : Type 0 where
  pub name : String
  pub deleted : Bool
  pub finalizers : List String
  pub device_by_id : String
  pub cache_line_size : ℕ
  pub cache_mode : String

-- `none` is a nil label map.
pub record Node : Type 0 where
  pub name : String
  pub labels : Option (Dict String)

-- `rbacv1.PolicyRule`
pub record PolicyRule : Type 0 where
  pub api_groups : List String
  pub resources : List String
  pub verbs : List String

-- The namespace of a subject is "" where the binding leaves it out.
pub record Subject : Type 0 where
  pub kind : String
  pub name : String
  pub namespace : String

-- What an object holds besides its metadata.
pub data Payload : Type 0 where
  plain : Payload
  rules : List PolicyRule → Payload
  binding : (api_group kind name : String) → List Subject → Payload
  config : Dict String → Payload
  workload : Workload → Payload
  driver_spec : CsiDriverSpec → Payload

-- An object that the operator owns.
pub record Object : Type 0 where
  pub kind : Kind
  pub name : String
  pub namespace : String
  pub labels : Dict String
  pub finalizers : List String
  pub owner : Option String
  pub resource_version : String
  pub payload : Payload

-- pkg/csi-operator/api/v1alpha1/driverinstance_types.go: `DriverInstance`, with its metadata
pub record DriverInstance : Type 0 where
  pub name : String
  pub deleted : Bool
  pub finalizers : List String
  pub labels : Dict String
  -- `Spec`
  pub log_level : ℕ
  pub node_selector : Dict String
  -- `Spec.DriverConfig`
  pub driver_image : String
  pub controller_replicas : ℕ
  pub driver_namespace : String
  pub casadm_image : String
  pub webhook_image : String
  pub protected_namespace : String

-- The answer of a `Get` of the operator's client.
pub data Found (A : Type 0) : Type 0 where
  found : A → Found A
  not_found : Found A
  failed : String → Found A

pub data Call : Type 0 where
  -- `LockKey` and `UnlockKey` of a mutex with keys, `Lock` and `Unlock` of one without
  lock : (key : String) → Call
  unlock : (key : String) → Call
  load_config : Call
  new_client : Call
  get_pvc : (namespace name : String) → Call
  create_pvc : (namespace : String) → Pvc → Call
  update_pvc : (namespace : String) → Pvc → Call
  delete_pvc : (namespace name : String) → Call
  get_pv : (name : String) → Call
  get_sc : (name : String) → Call
  get_node : (name : String) → Call
  get_pod : (namespace name : String) → Call
  create_pod : (namespace : String) → Pod → Call
  update_pod : (namespace : String) → Pod → Call
  delete_pod : (namespace name : String) → Call
  watch_pod : (namespace name : String) → Call
  list_pods : (namespace job_uid : String) → Call
  pod_logs : (namespace name : String) → Call
  create_job : Job → Call
  watch_job : (namespace name : String) → Call
  delete_job : (namespace name : String) → Call
  shell : (command : String) → Call
  lsblk_fs_type : (path : String) → Call
  mkfs : (fs_type path : String) → Call
  lsblk_size : (path : String) → Call
  list_pods_of : (node label : String) → Call
  listen : (network address : String) → Call
  os_stat : (path : String) → Call
  os_remove : (path : String) → Call
  os_mkdir : (path : String) → Call
  os_create : (path : String) → Call
  is_likely_not_mount_point : (path : String) → Call
  is_mount_point : (path : String) → Call
  list_mounts : Call
  mount : (source target fs_type : String) → List String → Call
  unmount : (target : String) → Call
  device_of_mount : (target : String) → Call
  read_cache : (name : String) → Call
  read_node : (name : String) → Call
  -- a patch is made from the object before and the object after
  patch_cache : (old new : CacheDef) → Call
  patch_node : (old new : Node) → Call
  read_instance : (name : String) → Call
  patch_instance : (old new : DriverInstance) → Call
  set_owner : DriverInstance → Object → Call
  read_object : Kind → (namespace name : String) → Call
  create_object : Object → Call
  update_object : Object → Call
  patch_object : (old new : Object) → Call
  manager : Setup → Call

-- `Option String` is a Go `error` with its text; `none` is nil.
abbrev pub Response : Call → Type 0
Response (get_pvc _ _) = Pvc × Option String
Response (get_pv _) = String × Option String
Response (get_sc _) = String × Option String
Response (get_node _) = Option (Dict String)
Response (get_pod _ _) = Pod × Option String
Response (create_pod _ _) = Pod × Option String
Response (watch_pod _ _) = List (Event Pod) × Option String
Response (list_pods _ _) = List Pod × Option String
Response (pod_logs _ _) = String × Option String × Option String
Response (create_job _) = String × String × Option String
Response (watch_job _ _) = List (Event JobStatus) × Option String
Response (shell _) = RunResult
Response (lsblk_fs_type _) = String × Option String
Response (lsblk_size _) = String × Option String
Response (list_pods_of _ _) = List Pod × Option String
Response (os_stat _) = OsError
Response (os_remove _) = OsError
Response (os_mkdir _) = OsError
Response (os_create _) = OsError
Response (is_likely_not_mount_point _) = Bool × OsError
Response (is_mount_point _) = Bool × OsError
Response list_mounts = List MountPoint × Option String
Response (device_of_mount _) = String × Option String
Response (read_cache _) = Found CacheDef
Response (read_node _) = Found Node
Response (patch_cache _ _) = CacheDef × Option String
Response (patch_node _ _) = Node × Option String
Response (patch_instance _ _) = DriverInstance × Option String
Response (read_instance _) = Found DriverInstance
Response (read_object _ _ _) = Found Object
Response _ = Option String

-- The calls made so far, the latest first.
abbrev pub History : Type 0
History = List Call

pub record World : Type 0 where
  -- `os.Getenv`
  pub getenv : String → String
  -- the order in which `range` visits a map
  pub range : History → Dict String → Dict String
  pub answer : History → (c : Call) → Response c
