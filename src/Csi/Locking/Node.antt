-- ===== src/Csi/Locking/Node.antt =====
-- The lock discipline of pkg/csi-driver/node.go.
use open_cas_csi.Prelude.{refl, String, Bool, true, false, Option, none, some, List, [], ◌∷◌}
use open_cas_csi.World.{World}
use open_cas_csi.Keeps.{Keeps, keeps_rules}
use open_cas_csi.Utils
use open_cas_csi.Utils.{get_device_fs_type, prepare_fs, create_fs, make_target}
use open_cas_csi.OpenCas.CacheList.{Cache}
use open_cas_csi.OpenCas.Manager.{OpenCas}
use open_cas_csi.OpenCas.Footprint.{
  connect-Keeps, new_open_cas_manager-Keeps, provide_by_id_link_for_pv-Keeps, get_pv_by_name-Keeps,
  get_intermediate_pod_by_name-Keeps, get_cache_instances-Keeps, get_volume_from_cache_list-Keeps,
  add_core-Keeps, remove_core-Keeps,
}
use open_cas_csi.Csi.Types.{Access, mount, block, unset}
use open_cas_csi.Csi.Node.Stage.{
  labelled_cache, choose_cache, provide_volume, ensure_fs, mount_staged, NodeStageRequest,
  stage_device, node_stage_volume,
}
use open_cas_csi.Locks.{Idle, Inside, Allows-work, reads, any_cmd, work-Inside}
use open_cas_csi.Csi.Locking.{or_fail_none-Keeps, guard_rules}
use open_cas_csi.Csi.Node.Unstage.{
  unmount_staged, cleanup_by_id_dir, uncache, detach, after_stat, node_unstage_volume,
  remove_target, node_unpublish_volume,
}
use open_cas_csi.Csi.Node.Publish.{
  NodePublishRequest, Published, absent, compatible, incompatible, block_source, published,
  mount_unless_published, publish_access, node_publish_volume,
}
use open_cas_csi.World.{OsError, no_error, not_exist, exist, other_error}

module _ (key : String) where
  mount-Keeps :
      (source target fs_type : String) (options : List String) (raw : Bool)
      → Keeps (Inside key) (Utils.mount source target fs_type options raw)
  unfolding Utils.mount make_target
  mount-Keeps source target fs_type options true =
      search (keeps_rules, Allows-work (work-Inside key)) depth 8
  mount-Keeps source target fs_type options false =
      search (keeps_rules, Allows-work (work-Inside key)) depth 8

  mount_staged-Keeps :
      (path target : String) (access : Access)
      → Keeps (Inside key) (mount_staged path target access)
  unfolding mount_staged ensure_fs get_device_fs_type prepare_fs create_fs
  mount_staged-Keeps path target access =
      search (keeps_rules, Allows-work (work-Inside key), mount-Keeps) depth 12

  labelled_cache-Keeps :
      (label : Option String) (cs : List Cache) → Keeps (Inside key) (labelled_cache label cs)
  unfolding labelled_cache
  labelled_cache-Keeps none cs = search keeps_rules
  labelled_cache-Keeps (some id) cs = search keeps_rules

  choose_cache-Keeps :
      (node_id : String) (cs : List Cache) → Keeps (Inside key) (choose_cache node_id cs)
  unfolding choose_cache
  choose_cache-Keeps node_id [] = search keeps_rules
  choose_cache-Keeps node_id (c ∷ cs) =
      search (keeps_rules, Allows-work (work-Inside key), labelled_cache-Keeps, or_fail_none-Keeps)

  provide_volume-Keeps :
      (cas : OpenCas) (node_id path : String) → Keeps (Inside key) (provide_volume cas node_id path)
  unfolding provide_volume
  provide_volume-Keeps cas node_id path =
      search
        (
          keeps_rules,
          choose_cache-Keeps,
          any_cmd (work-Inside key),
          get_volume_from_cache_list-Keeps (reads (work-Inside key)),
          get_cache_instances-Keeps (reads (work-Inside key)),
          add_core-Keeps (reads (work-Inside key)),
        )
        depth 8

  stage_device-Keeps :
      (node_id protected : String) (req : NodeStageRequest) (access : Access)
      → Keeps (Inside key) (stage_device node_id protected req access)
  unfolding stage_device
  stage_device-Keeps node_id protected req access =
      search
        (
          keeps_rules,
          connect-Keeps (reads (work-Inside key)),
          get_intermediate_pod_by_name-Keeps (reads (work-Inside key)),
          new_open_cas_manager-Keeps (reads (work-Inside key)),
          provide_by_id_link_for_pv-Keeps (reads (work-Inside key)),
          provide_volume-Keeps,
          mount_staged-Keeps,
        )
        depth 12

  unmount_staged-Keeps : (target : String) → Keeps (Inside key) (unmount_staged target)
  unfolding unmount_staged
  unmount_staged-Keeps target = search (keeps_rules, Allows-work (work-Inside key)) depth 8

  cleanup_by_id_dir-Keeps : (path : String) → Keeps (Inside key) (cleanup_by_id_dir path)
  unfolding cleanup_by_id_dir
  cleanup_by_id_dir-Keeps path = search (keeps_rules, Allows-work (work-Inside key)) depth 8

  uncache-Keeps : (node_id ns path : String) → Keeps (Inside key) (uncache node_id ns path)
  unfolding uncache
  uncache-Keeps node_id ns path =
      search
        (
          keeps_rules,
          new_open_cas_manager-Keeps (reads (work-Inside key)),
          any_cmd (work-Inside key),
          get_volume_from_cache_list-Keeps (reads (work-Inside key)),
          remove_core-Keeps (reads (work-Inside key)),
        )
        depth 8

  detach-Keeps : (node_id ns id path : String) → Keeps (Inside key) (detach node_id ns id path)
  unfolding detach
  detach-Keeps node_id ns id path =
      search
        (
          keeps_rules,
          connect-Keeps (reads (work-Inside key)),
          get_pv_by_name-Keeps (reads (work-Inside key)),
          get_intermediate_pod_by_name-Keeps (reads (work-Inside key)),
          uncache-Keeps,
          cleanup_by_id_dir-Keeps,
        )
        depth 12

  after_stat-Keeps :
      (e : OsError) (node_id ns id path : String)
      → Keeps (Inside key) (after_stat e node_id ns id path)
  unfolding after_stat
  after_stat-Keeps no_error node_id ns id path = detach-Keeps node_id ns id path
  after_stat-Keeps not_exist node_id ns id path = cleanup_by_id_dir-Keeps path
  after_stat-Keeps exist node_id ns id path = search keeps_rules
  after_stat-Keeps other_error node_id ns id path = search keeps_rules

  remove_target-Keeps :
      (not_mounted : Bool) (target : String) → Keeps (Inside key) (remove_target not_mounted target)
  unfolding remove_target
  remove_target-Keeps not_mounted target =
      search (keeps_rules, Allows-work (work-Inside key)) depth 8

  block_source-Keeps : (node_id id : String) → Keeps (Inside key) (block_source node_id id)
  unfolding block_source
  block_source-Keeps node_id id =
      search
        (
          keeps_rules,
          connect-Keeps (reads (work-Inside key)),
          get_intermediate_pod_by_name-Keeps (reads (work-Inside key)),
          any_cmd (work-Inside key),
          new_open_cas_manager-Keeps (reads (work-Inside key)),
          get_volume_from_cache_list-Keeps (reads (work-Inside key)),
          or_fail_none-Keeps,
        )
        depth 12

  published-Keeps :
      (source target fs_type : String) (flags : List String)
      → Keeps (Inside key) (published source target fs_type flags)
  unfolding published
  published-Keeps source target fs_type flags =
      search (keeps_rules, Allows-work (work-Inside key)) depth 10

  mount_unless_published-Keeps :
      (there : Published) (source target fs_type : String) (flags : List String) (raw : Bool)
      → Keeps (Inside key) (mount_unless_published there source target fs_type flags raw)
  unfolding mount_unless_published
  mount_unless_published-Keeps absent source target fs_type flags raw =
      search (keeps_rules, mount-Keeps)
  mount_unless_published-Keeps compatible source target fs_type flags raw = search keeps_rules
  mount_unless_published-Keeps incompatible source target fs_type flags raw = search keeps_rules

  publish_access-Keeps :
      (access : Access) (node_id : String) (req : NodePublishRequest) (flags : List String)
      → Keeps (Inside key) (publish_access access node_id req flags)
  unfolding publish_access
  publish_access-Keeps block node_id req flags =
      search (keeps_rules, block_source-Keeps, mount_unless_published-Keeps)
  publish_access-Keeps (mount fs_type mount_flags) node_id req flags =
      search (keeps_rules, published-Keeps, mount_unless_published-Keeps)
  publish_access-Keeps unset node_id req flags = search (keeps_rules, mount_unless_published-Keeps)

pub node_stage_volume-Keeps :
    (node_id : String) (req : NodeStageRequest)
    → Keeps (Idle req.volume_id) (node_stage_volume node_id req)
unfolding node_stage_volume
node_stage_volume-Keeps node_id req =
    search (guard_rules, or_fail_none-Keeps, stage_device-Keeps) depth 9

pub node_unstage_volume-Keeps :
    (node_id id target : String) → Keeps (Idle id) (node_unstage_volume node_id id target)
unfolding node_unstage_volume
node_unstage_volume-Keeps node_id id target =
    search (guard_rules, Allows-work (work-Inside id), unmount_staged-Keeps, after_stat-Keeps) depth
      10

pub node_publish_volume-Keeps :
    (node_id : String) (req : NodePublishRequest)
    → Keeps (Idle req.volume_id) (node_publish_volume node_id req)
unfolding node_publish_volume
node_publish_volume-Keeps node_id req =
    search (guard_rules, or_fail_none-Keeps, publish_access-Keeps) depth 9

pub node_unpublish_volume-Keeps :
    (id target : String) → Keeps (Idle id) (node_unpublish_volume id target)
unfolding node_unpublish_volume
node_unpublish_volume-Keeps id target =
    search (guard_rules, Allows-work (work-Inside id), remove_target-Keeps) depth 10

-- When they run first, staging, unstaging, publishing and unpublishing a volume on a node lock the
-- volume's own key alone, do all else while they hold it, and end with no lock held, whatever the
-- cluster and the node answer.
node-Idle :
    (node_id : String) (stage : NodeStageRequest) (publish : NodePublishRequest)
    (id target : String) (w : World)
    → Idle stage.volume_id w (node_stage_volume node_id stage w []).1
      × Idle id w (node_unstage_volume node_id id target w []).1
      × Idle publish.volume_id w (node_publish_volume node_id publish w []).1
      × Idle id w (node_unpublish_volume id target w []).1
node-Idle node_id stage publish id target w = (
  (node_stage_volume-Keeps node_id stage).at w [] (refl, tt),
  (node_unstage_volume-Keeps node_id id target).at w [] (refl, tt),
  (node_publish_volume-Keeps node_id publish).at w [] (refl, tt),
  (node_unpublish_volume-Keeps id target).at w [] (refl, tt),
)
