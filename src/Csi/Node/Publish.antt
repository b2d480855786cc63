-- ===== src/Csi/Node/Publish.antt =====
-- pkg/csi-driver/node.go: `NodePublishVolume`.
pub mod Flags
pub mod Again
use open_cas_csi.Prelude.{
  String, Bool, true, false, Option, List, [], ◌∷◌, ◌++◌, ◌==◌, not, is_some, ◌&&◌, ◌||◌,
  if◌then◌else◌,
}
use open_cas_csi.World.{Call, MountPoint}
use open_cas_csi.Effect.{M, pure, fail, ◌>>=◌, ◌>>◌, call, fail_if, fail_on, or_fail, locked, ask}
use open_cas_csi.K8sUtils.Settings.{protected_namespace}
use open_cas_csi.K8sUtils.Objects.{new_k8s_utils, get_intermediate_pod_by_name}
use open_cas_csi.OpenCas.Manager.{
  new_open_cas_manager, get_by_id_link_path_for_pv, get_volume_from_cache_list,
}
use open_cas_csi.Utils
use open_cas_csi.Utils.{is_real}
use open_cas_csi.Csi.Types.{
  Code, invalid_argument, internal, not_found, already_exists, failed_precondition, Access, mount,
  block, unset, mount_flags_of, get_pod_name_for_pv, require_text,
}
use open_cas_csi.Csi.Node.Stage.{or_fail_none}

-- The function passed to `slices.IndexFunc`.
abbrev pub same_flag : (f f_in : String) → Bool
same_flag f f_in =
    (f == "dax=always" && f_in == "dax") || ((f == "dax" && f_in == "dax=always") || f == f_in)

unfoldable pub has_flag : String → List String → Bool
has_flag f [] = false
has_flag f (g ∷ find_in) = if same_flag f g then true else has_flag f find_in

unfoldable pub find_mount_flags : (flags find_in : List String) → Bool
unfolding has_flag
find_mount_flags [] find_in = true
find_mount_flags (f ∷ flags) find_in =
    let rest = find_mount_flags flags find_in in if has_flag f find_in then rest else false

pub record NodePublishRequest : Type 0 where
  pub volume_id : String
  pub volume_capability : Option Access
  pub target_path : String
  pub staging_target_path : String
  pub readonly : Bool

-- `mountFlags`
unfoldable pub publish_flags : Access → (readonly : Bool) → List String
publish_flags access readonly =
    mount_flags_of access ++ ("bind" ∷ (if readonly then "ro" ∷ [] else []))

-- What the mount table says of the target: nothing, a mount like the one asked for, or another.
pub data Published : Type 0 where
  absent compatible incompatible : Published

unfoldable pub find_published :
    (target fs_type : String) → (flags : List String) → List MountPoint → Published
unfolding find_mount_flags
find_published target fs_type flags [] = absent
find_published target fs_type flags (m ∷ points) =
    if m.path == target
    then (if (fs_type == "" || m.fs_type == fs_type) && find_mount_flags flags m.opts
        then compatible
        else incompatible)
    else find_published target fs_type flags points

-- The device of a raw block volume, from the list of caches.
unfoldable pub block_source : (node_id volume_id : String) → M Code String
block_source node_id volume_id = do
  w ← ask
  or_fail new_k8s_utils internal
  pod ← get_intermediate_pod_by_name (get_pod_name_for_pv volume_id node_id) (protected_namespace w)
  fail_on (pod.1) internal
  fail_if (not (is_some pod.0)) not_found
  cas ← or_fail (new_open_cas_manager node_id (protected_namespace w)) internal
  listed ← or_fail (get_volume_from_cache_list cas (get_by_id_link_path_for_pv volume_id)) internal
  volume ← or_fail_none listed not_found
  pure volume.path

-- What is published at the target of a file system volume.
unfoldable pub published :
    (source target fs_type : String) → (flags : List String) → M Code Published
published source target fs_type flags = do
  fail_if (source == "") failed_precondition
  mounted ← call (Call.is_mount_point target)
  fail_if (is_real mounted.1) internal
  if mounted.0
      then (do
        points ← call Call.list_mounts
        fail_on (points.1) internal
        pure (find_published target fs_type flags points.0))
      else pure absent

-- The mount that is wanted, unless it is there already.
unfoldable pub mount_unless_published :
    Published → (source target fs_type : String) → List String → (raw_block : Bool) → M Code Unit
mount_unless_published absent source target fs_type flags raw_block =
    or_fail (Utils.mount source target fs_type flags raw_block) internal
mount_unless_published compatible source target fs_type flags raw_block = pure tt
mount_unless_published incompatible source target fs_type flags raw_block = fail already_exists

-- The three kinds of capability.
unfoldable pub publish_access :
    Access → (node_id : String) → NodePublishRequest → (flags : List String) → M Code Unit
publish_access block node_id req flags = do
  source ← block_source node_id req.volume_id
  mount_unless_published absent source req.target_path "" flags true
publish_access (mount fs_type mount_flags) node_id req flags = do
  there ← published req.staging_target_path req.target_path fs_type flags
  mount_unless_published there req.staging_target_path req.target_path fs_type flags false
publish_access unset node_id req flags =
    mount_unless_published absent req.staging_target_path req.target_path "" flags false

unfoldable pub node_publish_volume : (node_id : String) → NodePublishRequest → M Code Unit
node_publish_volume node_id req = do
  require_text req.volume_id
  access ← or_fail_none req.volume_capability invalid_argument
  require_text req.target_path
  locked req.volume_id (publish_access access node_id req (publish_flags access req.readonly))
