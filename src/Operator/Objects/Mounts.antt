-- ===== src/Operator/Objects/Mounts.antt =====
-- The volumes of the Pods that the program writes: pkg/csi-operator/internal/helpers/helpers.go and
-- `NewCasadmJob` of pkg/opencas/api.go.
use open_cas_csi.Prelude.{
  ◌≡◌, String, Bool, true, false, Option, none, some, List, [], ◌∷◌, ◌==◌, All, if◌then◌else◌,
  arith,
}
use open_cas_csi.World.{
  World, DriverInstance, PodTemplate, VolumeMount, PodVolume, VolumeSource, host_path, empty_dir,
  Workload,
}
use open_cas_csi.OpenCas.Job.{new_casadm_job}
use open_cas_csi.Operator.Workloads.{controller_workload, node_workload}

-- The source of the volume with this name.
abbrev pub source_of : (name : String) → List PodVolume → Option VolumeSource
source_of name [] = none
source_of name (v ∷ vs) = if v.name == name then some v.source else source_of name vs

-- A mount that propagates in both directions must have on the host the path that it has in the container.
abbrev SamePath : (shared : Bool) → (path : String) → Option VolumeSource → Type 0
SamePath shared path none = ⊥
SamePath true path (some (host_path host type)) = host ≡ path
SamePath true path (some empty_dir) = ⊥
SamePath false path (some _) = Unit

abbrev pub IsMounted : List PodVolume → VolumeMount → Type 0
IsMounted volumes m = SamePath m.bidirectional m.mount_path (source_of m.name volumes)

-- Every mount of every container names a volume of the Pod.
abbrev pub IsWellMounted : PodTemplate → Type 0
IsWellMounted t = All (λ c. All (IsMounted t.volumes) c.volume_mounts) t.containers

-- Every mount of every container names a volume that is the host's directory of the same path.
abbrev pub IsHostMounted : PodTemplate → Type 0
IsHostMounted t =
    All (λ c. All (λ m. SamePath true m.mount_path (source_of m.name t.volumes)) c.volume_mounts)
      t.containers

abbrev pub SelectsOwn : Workload → Type 0
SelectsOwn w = w.match_labels ≡ w.template.labels

-- In the controller's Deployment and the node's DaemonSet every mount names a volume of the Pod, and one
-- whose mounts propagate in both directions has on the host the path that it has in the container. In
-- the Job of a `casadm` command every mount names a directory of the host that has this path; the Deployment and the DaemonSet select exactly the labels that their Pods have.
pub templates-IsWellMounted :
    (w : World) (dir : String) (di : DriverInstance)
    → IsWellMounted (controller_workload di).template
      × SelectsOwn (controller_workload di)
      × IsWellMounted (node_workload dir di).template
      × SelectsOwn (node_workload dir di)
      × IsHostMounted (new_casadm_job w).template
unfolding controller_workload node_workload new_casadm_job
templates-IsWellMounted w dir di = ground arith
