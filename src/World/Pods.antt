-- ===== src/World/Pods.antt =====
-- The parts of a Pod template that the program writes: k8s.io/api/core/v1.
use open_cas_csi.Prelude.{ℕ, String, Bool, Option, List}
use open_cas_csi.Prelude.Dict.{Dict}

-- `corev1.EnvVar` with a field of the Pod as its source
pub record EnvVar : Type 0 where
  pub name : String
  pub field_path : String

pub record VolumeMount : Type 0 where
  pub name : String
  pub mount_path : String
  -- `MountPropagationBidirectional`
  pub bidirectional : Bool

pub data HostPathType : Type 0 where
  directory directory_or_create : HostPathType

pub data VolumeSource : Type 0 where
  empty_dir : VolumeSource
  host_path : (path : String) → HostPathType → VolumeSource

pub record PodVolume : Type 0 where
  pub name : String
  pub source : VolumeSource

pub record ContainerPort : Type 0 where
  pub name : String
  pub container_port : ℕ

-- `corev1.Probe` by an HTTP request
pub record Probe : Type 0 where
  pub failure_threshold : ℕ
  pub path : String
  pub port : String
  pub initial_delay_seconds : ℕ
  pub timeout_seconds : ℕ
  pub period_seconds : ℕ

pub record Container : Type 0 where
  pub name : String
  pub image : String
  -- `ImagePullPolicy: PullAlways`
  pub pull_always : Bool
  pub args : List String
  pub env : List EnvVar
  -- the names of ConfigMaps
  pub env_from : List String
  pub privileged : Bool
  pub ports : List ContainerPort
  pub liveness_probe : Option Probe
  pub volume_mounts : List VolumeMount

-- `metav1.LabelSelectorRequirement` with the operator `In`
pub record Requirement : Type 0 where
  pub key : String
  pub values : List String

-- The one required term of a Pod anti-affinity.
pub record AntiAffinity : Type 0 where
  pub match_expressions : List Requirement
  pub topology_key : String

pub record PodTemplate : Type 0 where
  pub labels : Dict String
  pub node_selector : Dict String
  pub anti_affinity : Option AntiAffinity
  pub service_account_name : String
  pub containers : List Container
  pub priority_class_name : String
  pub volumes : List PodVolume

-- The spec of a Deployment, or of a DaemonSet, which has no replicas.
pub record Workload : Type 0 where
  pub replicas : Option ℕ
  pub match_labels : Dict String
  pub template : PodTemplate

-- `storagev1.CSIDriverSpec`
pub record CsiDriverSpec : Type 0 where
  pub attach_required : Bool
  pub fs_group_policy : String
  pub pod_info_on_mount : Bool
  pub volume_lifecycle_modes : List String
