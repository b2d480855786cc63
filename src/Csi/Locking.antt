-- ===== src/Csi/Locking.antt =====
-- The volume mutex of pkg/csi-driver/controller.go and node.go: what each handler does under it.
pub mod Controller
pub mod Node
use open_cas_csi.Prelude.{
  ◌≡◌, refl, String, Bool, true, false, Option, none, some, List, [], ◌∷◌, ◌==◌, if◌then◌else◌,
}
use open_cas_csi.Prelude.Dict.{Dict}
use open_cas_csi.World.{World, History, Call, Pod}
use open_cas_csi.Effect.{◌>>=◌, M, Try, value, error, locked}
use open_cas_csi.Keeps.{Keeps, Allows, keeps_rules, Keeps-bind, Keeps-pure}
use open_cas_csi.K8sUtils.Specs.{PodConfig, PvcConfig}
use open_cas_csi.K8sUtils.Objects.{
  unprotect_pvc, unprotect_pod, unless_missing, delete_subprovider_pvc, delete_intermediate_pod,
}
use open_cas_csi.K8sUtils.Create.{create_subprovider_pvc, create_intermediate_pod}
use open_cas_csi.Utils
use open_cas_csi.Utils.{get_device_fs_type, prepare_fs, create_fs, make_target}
use open_cas_csi.OpenCas.CacheList.{Cache, CachedVolume}
use open_cas_csi.OpenCas.Manager.{OpenCas}
use open_cas_csi.OpenCas.Footprint.{
  is_read, AllowsReads, AllowsCmd, connect-Keeps, new_open_cas_manager-Keeps,
  provide_by_id_link_for_pv-Keeps, get_subprovider_pvc_by_name-Keeps, get_sc_by_name-Keeps,
  get_pv_by_name-Keeps, get_intermediate_pod_by_name-Keeps, get_cache_instances-Keeps,
  get_volume_from_cache_list-Keeps, add_core-Keeps, remove_core-Keeps,
}
use open_cas_csi.Locks.{Idle, Inside, Allows-work, reads, any_cmd, locked-Keeps, work-Inside}
use open_cas_csi.Csi.Types.{Code, Access, require_text, mount, block, unset}
use open_cas_csi.Csi.Checks.{
  require_text-Keeps, validate-Keeps, capabilities-Keeps, require_storage_class-Keeps,
}
use open_cas_csi.Csi.Controller.{
  CreateVolumeRequest, validate_controller_service_request, is_valid_volume_capabilities, RpcType,
  require_storage_class, tolerate, create_volume, delete_volume,
}
use open_cas_csi.Csi.Publish.{
  deref, missing_or_internal, check_started, ensure_pod, bound_pv, controller_publish_volume,
  controller_unpublish_volume,
}
use open_cas_csi.Csi.Node.Stage.{
  or_fail_none, labelled_cache, choose_cache, provide_volume, ensure_fs, mount_staged,
  NodeStageRequest, stage_device, node_stage_volume,
}

module _ (key : String) where
  pub or_fail_none-Keeps :
      {A : Type 0} (P : World → History → Type 0) (o : Option A) (code : Code)
      → Keeps P (or_fail_none o code)
  unfolding or_fail_none
  or_fail_none-Keeps P none code = search keeps_rules
  or_fail_none-Keeps P (some a) code = search keeps_rules

  deref-Keeps : {A : Type 0} (o : Option A) → Keeps (Inside key) (deref o)
  unfolding deref
  deref-Keeps none = search keeps_rules
  deref-Keeps (some a) = search keeps_rules

  pub missing_or_internal-Keeps : (e : Option String) → Keeps (Inside key) (missing_or_internal e)
  unfolding missing_or_internal
  missing_or_internal-Keeps none = search keeps_rules
  missing_or_internal-Keeps (some text) = search keeps_rules

  pub create_subprovider_pvc-Keeps :
      (config : PvcConfig) → Keeps (Inside key) (create_subprovider_pvc config)
  unfolding create_subprovider_pvc
  create_subprovider_pvc-Keeps config = search (keeps_rules, Allows-work (work-Inside key)) depth 8

  pub delete_subprovider_pvc-Keeps :
      (name : String) → Keeps (Inside key) (delete_subprovider_pvc name)
  unfolding delete_subprovider_pvc unprotect_pvc unless_missing
  delete_subprovider_pvc-Keeps name = search (keeps_rules, Allows-work (work-Inside key)) depth 12

  pub delete_intermediate_pod-Keeps :
      (name ns : String) → Keeps (Inside key) (delete_intermediate_pod name ns)
  unfolding delete_intermediate_pod unprotect_pod unless_missing
  delete_intermediate_pod-Keeps name ns =
      search (keeps_rules, Allows-work (work-Inside key)) depth 12

  create_intermediate_pod-Keeps :
      {E : Type 0} (config : PodConfig)
      → Keeps (Inside key) (create_intermediate_pod {E = E} config)
  unfolding create_intermediate_pod
  create_intermediate_pod-Keeps config =
      search (keeps_rules, Allows-work (work-Inside key)) depth 14

  check_started-Keeps :
      (pod : Option Pod) (e : Option String) → Keeps (Inside key) (check_started pod e)
  unfolding check_started
  check_started-Keeps pod none = search keeps_rules
  check_started-Keeps none (some e) = search keeps_rules
  check_started-Keeps (some pod) (some e) = search (keeps_rules, delete_intermediate_pod-Keeps)

  pub ensure_pod-Keeps : (config : PodConfig) → Keeps (Inside key) (ensure_pod config)
  unfolding ensure_pod
  ensure_pod-Keeps config =
      search
        (
          keeps_rules,
          get_intermediate_pod_by_name-Keeps (reads (work-Inside key)),
          create_intermediate_pod-Keeps,
          check_started-Keeps,
        )
        depth 10

  pub bound_pv-Keeps : (name : String) → Keeps (Inside key) (bound_pv name)
  unfolding bound_pv
  bound_pv-Keeps name =
      search
        (
          keeps_rules,
          get_subprovider_pvc_by_name-Keeps (reads (work-Inside key)),
          get_pv_by_name-Keeps (reads (work-Inside key)),
          deref-Keeps,
        )
        depth 12

pub ruleset guard_rules = (
  keeps_rules, locked-Keeps, require_text-Keeps, validate-Keeps, capabilities-Keeps,
  require_storage_class-Keeps,
)
