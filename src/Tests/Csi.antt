-- ===== src/Tests/Csi.antt =====
-- The theorems about pkg/csi-driver, applied.
use open_cas_csi.Prelude.{
  ◌≡◌, refl, ◌↔◌, inl, ◌==◌, if◌then◌else◌, String, true, false, none, some, [], ◌∷◌, All,
}
use open_cas_csi.Prelude.Int.{pos}
use open_cas_csi.Prelude.Dict.{lookup, insert}
use open_cas_csi.World.{World, History, Call, Response, MountPoint, no_error}
use open_cas_csi.Effect.{ok, err, ◌>>=◌}
use open_cas_csi.Csi.Types.{
  mount, block, invalid_argument, already_exists, require_text, get_pvc_name_for_pv,
}
use open_cas_csi.Csi.Controller.{
  CreateVolumeRequest, create_volume, volume_of, validate_controller_service_request,
  is_valid_volume_capabilities, require_storage_class, provision, ensure_pvc, backend_storage_class,
  eq_lower,
}
use open_cas_csi.K8sUtils.Objects.{
  get_intermediate_pod_by_name, get_pv_by_name, new_k8s_utils, get_sc_by_name,
  get_subprovider_pvc_by_name,
}
use open_cas_csi.Csi.Controller.Provision.{
  CreatesMissing, IsAcceptable, create_volume-CreatesMissing, create_volume-volume_of,
  create_volume-refused,
}
use open_cas_csi.Csi.Publish.{
  missing_or_internal, ensure_pod, bound_pv, deref, controller_publish_volume,
}
use open_cas_csi.Csi.Publish.Bound.{EndsBound, controller_publish_volume-EndsBound}
use open_cas_csi.Csi.Node.Publish.Again.{fits, looks, node_publish_volume-looks}
use open_cas_csi.Csi.Node.Stage.{backend_pv_name, NodeStageRequest, node_stage_volume}
use open_cas_csi.Csi.Node.Unstage.{
  unmount_staged, after_stat, detach, uncache, cleanup_by_id_dir, node_unstage_volume,
}
use open_cas_csi.Csi.Node.Publish.{
  NodePublishRequest, node_publish_volume, find_mount_flags, same_flag,
}
use open_cas_csi.Csi.Node.Publish.Flags.{Any, find_mount_flags-All}
use open_cas_csi.K8sUtils.Settings.{protected_namespace}
use open_cas_csi.K8sUtils.Create.{exec_command_job}
use open_cas_csi.OpenCas.Csv.{read_rows}
use open_cas_csi.OpenCas.CacheList.{parse_cache_list}
use open_cas_csi.OpenCas.Manager.{
  new_open_cas_manager, get_volume_from_cache_list, list_caches, exec, or_crash, find_volume,
  get_by_id_link_path_for_pv,
}
use open_cas_csi.Csi.Node.Released.{Unstages, node_unstage_volume-Unstages}
use open_cas_csi.Csi.Node.Format.{FormatsBlank, node_stage_volume-FormatsBlank}
use open_cas_csi.Tests.Worlds.{world, world_with, answers}

abbrev stage : NodeStageRequest
stage = record {
  volume_id = "vol";
  staging_target_path = "/staging";
  volume_capability = some (mount "ext4" []);
  publish_context = ("backendPvName", "pv-backend") ∷ [];
}

abbrev publish : NodePublishRequest
publish = record {
  volume_id = "vol";
  volume_capability = some (mount "ext4" []);
  target_path = "/target";
  staging_target_path = "/staging";
  readonly = true;
}

abbrev request : String → CreateVolumeRequest
request name = record {
  name = name;
  volume_capabilities = block ∷ [];
  parameters = ("backend-sc-name", "backend") ∷ [];
  required_bytes = pos 1024;
  limit_bytes = pos 0;
}

node_stage_volume-FormatsBlank_example :
    FormatsBlank world (node_stage_volume "node" stage world []).1
node_stage_volume-FormatsBlank_example = node_stage_volume-FormatsBlank "node" stage world [] tt

create_volume-CreatesMissing_example :
    CreatesMissing
      (request "vol")
      (world_with false)
      (create_volume (request "vol") (world_with false) []).1
create_volume-CreatesMissing_example =
    create_volume-CreatesMissing (request "vol") (world_with false) [] tt

create_volume-volume_of_example :
    IsAcceptable (request "vol")
    × ((volume_of (request "vol")).volume_id ≡ "vol")
    × ((volume_of (request "vol")).capacity_bytes ≡ pos 1024)
    × ((volume_of (request "vol")).volume_context ≡ ("backend-sc-name", "backend") ∷ [])
unfolding create_volume validate_controller_service_request require_text
    is_valid_volume_capabilities require_storage_class provision ensure_pvc ◌>>=◌
    backend_storage_class eq_lower new_k8s_utils get_sc_by_name get_subprovider_pvc_by_name
create_volume-volume_of_example =
    create_volume-volume_of (request "vol") world [] (volume_of (request "vol")) refl

create_volume-refused_example : create_volume (request "") world [] ≡ (err invalid_argument, [])
create_volume-refused_example = create_volume-refused (request "") world [] (inl refl)

find_mount_flags-All_example :
    (find_mount_flags ("bind" ∷ "dax" ∷ []) ("rw" ∷ "dax=always" ∷ "bind" ∷ []) ≡ true)
    ↔ All
        (λ f. Any (λ g. same_flag f g ≡ true) ("rw" ∷ "dax=always" ∷ "bind" ∷ []))
        ("bind" ∷ "dax" ∷ [])
find_mount_flags-All_example =
    find_mount_flags-All ("bind" ∷ "dax" ∷ []) ("rw" ∷ "dax=always" ∷ "bind" ∷ [])

controller_publish_volume-EndsBound_example :
    (before : History) × EndsBound "opencas-csi-vol"
      (backend_pv_name (("backendPvName", "pv-backend") ∷ []))
      world
      before
    × ((controller_publish_volume "vol" "node" (some block) world []).1
        ≡ Call.unlock "vol" ∷ before)
    × ((backend_pv_name (("backendPvName", "pv-backend") ∷ []) == "") ≡ false)
unfolding controller_publish_volume ◌>>=◌ lookup get_pvc_name_for_pv
    validate_controller_service_request require_text new_k8s_utils get_subprovider_pvc_by_name
    missing_or_internal ensure_pod get_intermediate_pod_by_name bound_pv deref get_pv_by_name insert
controller_publish_volume-EndsBound_example =
    controller_publish_volume-EndsBound "vol" "node" (("backendPvName", "pv-backend") ∷ [])
      (some block) world [] refl

-- The target is a mount point already, with the options that the request asks for.
abbrev point : MountPoint
point = record { path = "/target"; fs_type = "ext4"; opts = "ro" ∷ "relatime" ∷ [] }

abbrev mounted_answers : (c : Call) → Response c
mounted_answers (Call.is_mount_point _) = (true, no_error)
mounted_answers Call.list_mounts = (point ∷ [], none)
mounted_answers c = answers true c

abbrev mounted_world : World
mounted_world = record world { answer = λ _ c. mounted_answers c }

-- The mount table has no "bind", so that publishing again is refused.
node_publish_volume-looks_example : node_publish_volume "node" publish mounted_world [] ≡ (
  (if fits "ext4" ("bind" ∷ "ro" ∷ []) point then ok tt else err already_exists),
  looks publish [],
)
node_publish_volume-looks_example =
    node_publish_volume-looks "node" "ext4" [] publish mounted_world [] (point ∷ []) point refl refl
      refl refl refl refl refl

node_unstage_volume-Unstages_example :
    Unstages
      (record { node_id = "node"; namespace = protected_namespace world })
      "vol"
      world
      (node_unstage_volume "node" "vol" "/staging" world []).1
unfolding node_unstage_volume ◌>>=◌ require_text unmount_staged after_stat detach new_k8s_utils
    get_pv_by_name get_intermediate_pod_by_name uncache cleanup_by_id_dir new_open_cas_manager
    get_volume_from_cache_list list_caches exec exec_command_job or_crash parse_cache_list read_rows
    find_volume lookup insert get_by_id_link_path_for_pv
node_unstage_volume-Unstages_example =
    node_unstage_volume-Unstages "node" "vol" "/staging" world [] refl
