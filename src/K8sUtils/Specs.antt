-- ===== src/K8sUtils/Specs.antt =====
-- pkg/k8sutils/k8sutils.go: `PvcConfig`, `PodConfig` and the specs made from them.
use open_cas_csi.Prelude.{
  suc, String, Bool, true, false, Option, none, some, [], ◌∷◌, ◌||◌, if◌then◌else◌,
}
use open_cas_csi.Prelude.Int.{ℤ, pos}
use open_cas_csi.Prelude.Dict.{Dict}
use open_cas_csi.World.{Pvc, PvcSpec, PodSpec}

pub record PvcConfig : Type 0 where
  pub storage_class_name : String
  pub params : Dict String
  pub name : String
  pub required_bytes : ℤ
  pub limit_bytes : ℤ

pub record PodConfig : Type 0 where
  pub name : String
  pub pvc : Option Pvc
  pub casadm_image : String
  pub node_id : String
  pub namespace : String

abbrev pub is_positive : ℤ → Bool
is_positive (pos (suc n)) = true
is_positive _ = false

-- `getSubProviderPvcSpec`: a size of zero or less sets no bound.
unfoldable pub get_sub_provider_pvc_spec : PvcConfig → PvcSpec
get_sub_provider_pvc_spec config =
    let spec : PvcSpec = record {
      access_modes = "ReadWriteOnce" ∷ [];
      storage_class_name = config.storage_class_name;
      volume_mode = "Block";
      request = none;
      limit = none;
    } in
    if is_positive config.required_bytes || is_positive config.limit_bytes
    then record spec {
      request = if is_positive config.required_bytes then some config.required_bytes else none;
      limit = if is_positive config.limit_bytes then some config.limit_bytes else none;
    }
    else spec

-- `getIntermediatePodSpec`: the Pod runs on the node and attaches the PVC as a raw device.
unfoldable pub get_intermediate_pod_spec : PodConfig → PodSpec
get_intermediate_pod_spec config =
    let pod_spec : PodSpec = record {
      container = "casadm";
      image = "alpine";
      image_pull_policy = "IfNotPresent";
      command = "sleep" ∷ "infinity" ∷ [];
      privileged = true;
      node_selector = ("kubernetes.io/hostname", config.node_id) ∷ [];
      volume_devices = [];
      volumes = [];
    } in
    elim (config.pvc) [
      | none ↦ pod_spec
      | some pvc ↦ record pod_spec {
        volume_devices = ("backend", "/dev/xvda") ∷ [];
        volumes = ("backend", pvc.name) ∷ [];
      }
    ]
