-- ===== src/Csi/Node/Unstage.antt =====
-- pkg/csi-driver/node.go: `NodeUnstageVolume` and `NodeUnpublishVolume`.
use open_cas_csi.Prelude.{String, Bool, ◌==◌, not, is_some, if◌then◌else◌}
use open_cas_csi.World.{Call, OsError, no_error, not_exist, exist, other_error}
use open_cas_csi.Effect.{
  on_option, M, pure, fail, ◌>>=◌, ◌>>◌, call, fail_if, fail_on, or_fail, locked, ask,
}
use open_cas_csi.K8sUtils.Settings.{protected_namespace}
use open_cas_csi.K8sUtils.Objects.{new_k8s_utils, get_pv_by_name, get_intermediate_pod_by_name}
use open_cas_csi.OpenCas.Casadm.{csi_driver_by_id_dir}
use open_cas_csi.OpenCas.Manager.{
  new_open_cas_manager, get_by_id_link_path_for_pv, get_volume_from_cache_list, remove_core,
}
use open_cas_csi.Csi.Types.{
  Code, internal, failed_precondition, get_pod_name_for_pv, is_failure, require_text,
}

-- What is mounted at the staging path is unmounted.
unfoldable pub unmount_staged : (staging_target_path : String) → M Code Unit
unmount_staged target = do
  device ← call (Call.device_of_mount target)
  fail_on (device.1) internal
  if device.0 == ""
      then pure tt
      else do refused ← call (Call.unmount target); fail_on refused internal

-- The link goes, and its directory if it is empty; the answers are not read.
unfoldable pub cleanup_by_id_dir : (by_id_path : String) → M Code Unit
cleanup_by_id_dir by_id_path = do
  call (Call.os_remove by_id_path) >>= λ _.
      call (Call.os_remove csi_driver_by_id_dir) >>= λ _. pure tt

-- The volume leaves its cache, if it is on one.
unfoldable pub uncache : (node_id namespace by_id_path : String) → M Code Unit
uncache node_id ns by_id_path = do
  cas ← or_fail (new_open_cas_manager node_id ns) internal
  volume ← or_fail (get_volume_from_cache_list cas by_id_path) internal
  on_option volume (pure tt) (λ v. or_fail (remove_core cas v) internal)

-- With the link there: a PV that is gone needs no more than the cleanup, one that exists needs the
-- intermediate Pod and the removal of its core first.
unfoldable pub detach : (node_id namespace volume_id by_id_path : String) → M Code Unit
detach node_id ns volume_id by_id_path = do
  or_fail new_k8s_utils internal
  pv ← get_pv_by_name volume_id
  fail_if (is_failure pv.1) internal
  if not (is_some pv.0) then cleanup_by_id_dir by_id_path else do
    pod ← get_intermediate_pod_by_name (get_pod_name_for_pv volume_id node_id) ns
    fail_if (is_failure pod.1) internal
    fail_if (not (is_some pod.0)) failed_precondition
    uncache node_id ns by_id_path
    cleanup_by_id_dir by_id_path

-- The answer of `os.Stat` on the link.
unfoldable pub after_stat :
    OsError → (node_id namespace volume_id by_id_path : String) → M Code Unit
after_stat no_error node_id ns volume_id path = detach node_id ns volume_id path
after_stat not_exist node_id ns volume_id path = cleanup_by_id_dir path
after_stat exist node_id ns volume_id path = fail internal
after_stat other_error node_id ns volume_id path = fail internal

unfoldable pub node_unstage_volume : (node_id volume_id staging_target_path : String) → M Code Unit
node_unstage_volume node_id volume_id target = do
  w ← ask
  require_text volume_id
  require_text target
  locked volume_id (do
    unmount_staged target
    link ← call (Call.os_stat (get_by_id_link_path_for_pv volume_id))
    after_stat link node_id (protected_namespace w) volume_id
        (get_by_id_link_path_for_pv volume_id))

abbrev is_missing : OsError → Bool
is_missing not_exist = Bool.true
is_missing _ = Bool.false

abbrev is_error : OsError → Bool
is_error no_error = Bool.false
is_error _ = Bool.true

-- The path is unmounted if it is a mount point, and removed.
unfoldable pub remove_target : (not_mounted : Bool) → (target : String) → M Code Unit
remove_target not_mounted target = do
  if not_mounted then pure tt else do refused ← call (Call.unmount target); fail_on refused internal
  kept ← call (Call.os_remove target)
  fail_if (is_error kept) internal

unfoldable pub node_unpublish_volume : (volume_id target_path : String) → M Code Unit
node_unpublish_volume volume_id target = do
  require_text volume_id
  require_text target
  locked volume_id (do
    mounted ← call (Call.is_likely_not_mount_point target)
    if is_missing mounted.1
        then pure tt
        else if is_error mounted.1
        then fail internal
        else remove_target mounted.0 target)
