-- ===== src/Csi/Node/Stage.antt =====
-- pkg/csi-driver/node.go: `NodeStageVolume`.
use open_cas_csi.Prelude.{
  String, false, Option, none, some, List, [], ◌∷◌, ◌==◌, not, is_some, if◌then◌else◌,
}
use open_cas_csi.Prelude.Int.{ℤ, eq_int}
use open_cas_csi.Prelude.Dict.{Dict, lookup}
use open_cas_csi.Prelude.Text.{atoi}
use open_cas_csi.World.{Call}
use open_cas_csi.Effect.{on_option, M, pure, fail, ◌>>=◌, ◌>>◌, call, fail_if, or_fail, locked, ask}
use open_cas_csi.K8sUtils.Settings.{protected_namespace}
use open_cas_csi.K8sUtils.Objects.{new_k8s_utils, get_intermediate_pod_by_name}
use open_cas_csi.OpenCas.CacheList.{Cache, CachedVolume}
use open_cas_csi.OpenCas.Manager.{
  OpenCas, new_open_cas_manager, provide_by_id_link_for_pv, get_volume_from_cache_list,
  get_cache_instances, add_core,
}
use open_cas_csi.Utils
use open_cas_csi.Utils.{get_device_fs_type, prepare_fs}
use open_cas_csi.Csi.Types.{
  Code, invalid_argument, internal, not_found, aborted, unavailable, already_exists, Access, mount,
  is_block, mount_flags_of, get_pod_name_for_pv, is_failure, require_text,
}

-- pkg/k8sutils/k8sutils.go: `OperatingCacheLabelKey`
abbrev pub operating_cache_label_key : String
operating_cache_label_key = "csi.open-cas.com/operating-cache-id"

-- The loop over the instances has no `break`: the last one with the id is taken.
unfoldable pub last_with_id : ℤ → List Cache → Option Cache → Option Cache
last_with_id id [] found = found
last_with_id id (c ∷ cs) found = last_with_id id cs (if eq_int c.cache_id id then some c else found)

abbrev pub only : List Cache → Option Cache
only (c ∷ []) = some c
only _ = none

-- The choice by the node's label; `unavailable` while the label is there and empty.
unfoldable pub labelled_cache : Option String → List Cache → M Code (Option Cache)
labelled_cache none caches = pure (only caches)
labelled_cache (some id_string) caches =
    if id_string == ""
    then fail unavailable
    else on_option (atoi id_string) (pure none) (λ id. pure (last_with_id id caches none))

unfoldable pub or_fail_none : {A : Type 0} → Option A → Code → M Code A
or_fail_none none code = fail code
or_fail_none (some a) code = pure a

-- The cache that a new volume goes to.
unfoldable pub choose_cache : (node_id : String) → List Cache → M Code Cache
choose_cache node_id [] = fail not_found
choose_cache node_id (c ∷ cs) = do
  labels ← call (Call.get_node node_id)
  chosen ←
      on_option labels (pure none)
        (λ ls. labelled_cache (lookup operating_cache_label_key ls) (c ∷ cs))
  or_fail_none chosen invalid_argument

-- The cached volume of the link, which is added to a cache of the node if it is on none.
unfoldable pub provide_volume : OpenCas → (node_id by_id_path : String) → M Code CachedVolume
provide_volume cas node_id by_id_path = do
  listed ← or_fail (get_volume_from_cache_list cas by_id_path) internal
  on_option listed
      (do
        instances ← or_fail (get_cache_instances cas) internal
        cache ← choose_cache node_id instances
        or_fail (add_core cas cache by_id_path) internal)
      (λ volume. pure volume)

abbrev pub default_filesystem : String
default_filesystem = "ext4"

-- `fsType`, from the capability or by default
abbrev pub wanted_fs : Access → String
wanted_fs (mount fs_type _) = if fs_type == "" then default_filesystem else fs_type
wanted_fs _ = default_filesystem

-- A device with another file system is refused, one with none gets the file system asked for.
unfoldable pub ensure_fs : (path fs_type : String) → M Code Unit
ensure_fs path fs_type = do
  existing ← or_fail (get_device_fs_type path) internal
  if existing == ""
      then or_fail (prepare_fs path fs_type) internal
      else if existing == fs_type
      then pure tt
      else fail already_exists

-- A block volume needs no more than its cached device.
unfoldable pub mount_staged : (path staging_target_path : String) → Access → M Code Unit
mount_staged path target access = if is_block access then pure tt else do
  ensure_fs path (wanted_fs access)
  or_fail (Utils.mount path target (wanted_fs access) (mount_flags_of access) false) internal

pub record NodeStageRequest : Type 0 where
  pub volume_id : String
  pub staging_target_path : String
  pub volume_capability : Option Access
  pub publish_context : Dict String

abbrev pub backend_pv_name : Dict String → String
backend_pv_name context = elim (lookup "backendPvName" context) [ none ↦ "" | some name ↦ name ]

-- The body under the volume's lock.
unfoldable pub stage_device : (node_id protected : String) → NodeStageRequest → Access → M Code Unit
stage_device node_id protected req access = do
  or_fail new_k8s_utils internal
  pod ← get_intermediate_pod_by_name (get_pod_name_for_pv req.volume_id node_id) protected
  fail_if (is_failure pod.1) internal
  fail_if (not (is_some pod.0)) not_found
  cas ← or_fail (new_open_cas_manager node_id protected) internal
  by_id_path ←
      or_fail (provide_by_id_link_for_pv cas (backend_pv_name req.publish_context) req.volume_id)
        internal
  volume ← provide_volume cas node_id by_id_path
  mount_staged volume.path req.staging_target_path access

unfoldable pub node_stage_volume : (node_id : String) → NodeStageRequest → M Code Unit
node_stage_volume node_id req = do
  w ← ask
  require_text req.volume_id
  require_text req.staging_target_path
  access ← or_fail_none req.volume_capability invalid_argument
  fail_if (backend_pv_name req.publish_context == "") aborted
  locked req.volume_id (stage_device node_id (protected_namespace w) req access)
