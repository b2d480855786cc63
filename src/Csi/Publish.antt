-- ===== src/Csi/Publish.antt =====
-- pkg/csi-driver/controller.go: publishing a volume to a node and back, by an intermediate Pod that
-- attaches the backend's device there.
pub mod Bound
use open_cas_csi.Prelude.Dict.{Dict, insert}
use open_cas_csi.Prelude.{String, Option, none, some, [], not, is_some, ◌==◌, if◌then◌else◌}
use open_cas_csi.Prelude.Text.{contains}
use open_cas_csi.World.{Pod}
use open_cas_csi.Effect.{
  on_option, M, pure, fail, crash, ◌>>=◌, ◌>>◌, fail_if, fail_on, or_fail, attempt, ignoring,
  locked, ask,
}
use open_cas_csi.K8sUtils.Settings.{protected_namespace}
use open_cas_csi.K8sUtils.Specs.{PodConfig}
use open_cas_csi.K8sUtils.Objects.{
  new_k8s_utils, get_subprovider_pvc_by_name, get_pv_by_name, get_intermediate_pod_by_name,
  delete_intermediate_pod,
}
use open_cas_csi.K8sUtils.Create.{create_intermediate_pod}
use open_cas_csi.Csi.Types.{
  Code, invalid_argument, internal, not_found, aborted, Access, get_pod_name_for_pv,
  get_pvc_name_for_pv, is_failure, require_text,
}
use open_cas_csi.Csi.Controller.{
  publish_unpublish_volume, validate_controller_service_request, tolerate,
}

-- A nil pointer that is dereferenced.
unfoldable pub deref : {A : Type 0} → Option A → M Code A
deref none = crash
deref (some a) = pure a

-- The first look-up of the PVC: every error ends the call.
unfoldable pub missing_or_internal : Option String → M Code Unit
missing_or_internal none = pure tt
missing_or_internal (some text) =
    if contains text "not found" then fail not_found else fail internal

-- A Pod that did not start is removed again, if it was created at all.
unfoldable pub check_started : Option Pod → Option String → M Code Unit
check_started pod none = pure tt
check_started none (some e) = fail internal
check_started (some pod) (some e) =
    ignoring (delete_intermediate_pod pod.name pod.namespace) >> fail aborted

unfoldable pub ensure_pod : PodConfig → M Code Unit
ensure_pod config = do
  pod ← get_intermediate_pod_by_name config.name config.namespace
  fail_if (is_failure pod.1) internal
  on_option (pod.0) (do created ← create_intermediate_pod config; check_started created.0 created.1)
      (λ _. pure tt)

-- The backend's PV, from the PVC as it is after the Pod runs.
unfoldable pub bound_pv : (pvc_name : String) → M Code String
bound_pv pvc_name = do
  refreshed ← get_subprovider_pvc_by_name pvc_name
  fail_on (refreshed.1) internal
  pvc ← deref refreshed.0
  fail_if (pvc.volume_name == "") not_found
  pv ← get_pv_by_name pvc.volume_name
  fail_on (pv.1) internal
  deref pv.0

-- The answer is the publish context.
unfoldable pub controller_publish_volume :
    (volume_id node_id : String) → Option Access → M Code (Dict String)
controller_publish_volume volume_id node_id capability = do
  w ← ask
  validate_controller_service_request publish_unpublish_volume
  require_text volume_id
  require_text node_id
  fail_if (not (is_some capability)) invalid_argument
  locked volume_id (do
    or_fail new_k8s_utils internal
    pvc ← get_subprovider_pvc_by_name (get_pvc_name_for_pv volume_id)
    missing_or_internal pvc.1
    ensure_pod (record {
      name = get_pod_name_for_pv volume_id node_id;
      pvc = pvc.0;
      casadm_image = w.getenv "CASADM_IMAGE";
      node_id = node_id;
      namespace = protected_namespace w;
    })
    pv_name ← bound_pv (get_pvc_name_for_pv volume_id)
    pure (insert "backendPvName" pv_name []))

unfoldable pub controller_unpublish_volume : (volume_id node_id : String) → M Code Unit
controller_unpublish_volume volume_id node_id = do
  w ← ask
  validate_controller_service_request publish_unpublish_volume
  require_text volume_id
  require_text node_id
  locked volume_id (do
    or_fail new_k8s_utils internal
    pod ←
        get_intermediate_pod_by_name (get_pod_name_for_pv volume_id node_id) (protected_namespace w)
    fail_if (is_failure pod.1) internal
    on_option (pod.0) (pure tt) (λ found. do
      deleted ← attempt (delete_intermediate_pod found.name found.namespace)
      tolerate deleted internal))
