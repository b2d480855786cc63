-- ===== src/Csi/Node/Publish/Again.antt =====
-- Publishing a file system volume at a target that is a mount point already: `NodePublishVolume` of
-- pkg/csi-driver/node.go.
use open_cas_csi.Prelude.{
  ◌≡◌, String, Bool, true, false, Option, none, some, List, [], ◌∷◌, ◌++◌, ◌==◌, ◌&&◌, ◌||◌,
  if◌then◌else◌, arith,
}
use open_cas_csi.World.{World, History, Call, MountPoint, no_error}
use open_cas_csi.Effect.{ok, err, ◌>>=◌, locked}
use open_cas_csi.Csi.Types.{already_exists, mount, require_text}
use open_cas_csi.Csi.Node.Stage.{or_fail_none}
use open_cas_csi.Csi.Node.Publish.{
  NodePublishRequest, Published, find_mount_flags, publish_flags, find_published, published,
  mount_unless_published, publish_access, node_publish_volume,
}

-- The first mount point at the path.
abbrev pub mounted_at : (path : String) → List MountPoint → Option MountPoint
mounted_at path [] = none
mounted_at path (p ∷ ps) = if p.path == path then some p else mounted_at path ps

-- The mount point is what is asked for: the file system, if one is named, and every flag.
abbrev pub fits : (fs_type : String) → (flags : List String) → MountPoint → Bool
fits fs_type flags p = (fs_type == "" || p.fs_type == fs_type) && find_mount_flags flags p.opts

find_published-mounted_at :
    (target fs_type : String) (flags : List String) (points : List MountPoint) (p : MountPoint)
    → mounted_at target points ≡ some p
    → find_published target fs_type flags points
      ≡ (if fits fs_type flags p then Published.compatible else Published.incompatible)
unfolding find_published
find_published-mounted_at target fs_type flags [] p e = cc
find_published-mounted_at target fs_type flags (q ∷ points) p e =
    ground (arith, find_published-mounted_at target fs_type flags points p)

-- The calls of publishing at a mount point: the lock, the two look-ups and the unlock.
abbrev pub looks : NodePublishRequest → History → History
looks req h =
    Call.unlock req.volume_id
    ∷ Call.list_mounts
    ∷ Call.is_mount_point req.target_path
    ∷ Call.lock req.volume_id
    ∷ h

publish_access-again :
    (node_id fs_type : String) (mount_flags flags : List String) (req : NodePublishRequest)
    (w : World) (h : History) (points : List MountPoint) (p : MountPoint)
    → (req.staging_target_path == "") ≡ false
    → w.answer h (Call.is_mount_point req.target_path) ≡ (true, no_error)
    → w.answer (Call.is_mount_point req.target_path ∷ h) Call.list_mounts ≡ (points, none)
    → mounted_at req.target_path points ≡ some p
    → publish_access (mount fs_type mount_flags) node_id req flags w h ≡ (
      (if fits fs_type flags p then ok tt else err already_exists),
      Call.list_mounts ∷ Call.is_mount_point req.target_path ∷ h,
    )
unfolding publish_access published mount_unless_published ◌>>=◌
publish_access-again node_id fs_type mount_flags flags req w h points p staged is_mounted listed
      there =
    ground (arith, find_published-mounted_at req.target_path fs_type flags points p there)

-- Publishing a file system volume whose target is a mount point succeeds if the first entry for the target
-- in the mount table has the file system asked for, if one is named, and every flag: those of the
-- request, "bind", and "ro" if the request is for reading only. Otherwise it is refused as existing already. In both cases it looks at the mounts under the volume's lock
-- and mounts nothing. The request has a volume, a target and a staging path.
pub node_publish_volume-looks :
    (node_id fs_type : String) (mount_flags : List String) (req : NodePublishRequest) (w : World)
    (h : History) (points : List MountPoint) (p : MountPoint)
    → (req.volume_id == "") ≡ false
    → (req.target_path == "") ≡ false
    → (req.staging_target_path == "") ≡ false
    → req.volume_capability ≡ some (mount fs_type mount_flags)
    → w.answer (Call.lock req.volume_id ∷ h) (Call.is_mount_point req.target_path)
      ≡ (true, no_error)
    → w.answer (Call.is_mount_point req.target_path ∷ Call.lock req.volume_id ∷ h) Call.list_mounts
      ≡ (points, none)
    → mounted_at req.target_path points ≡ some p
    → node_publish_volume node_id req w h ≡ (
      (if fits fs_type (mount_flags ++ ("bind" ∷ (if req.readonly then "ro" ∷ [] else []))) p
          then ok tt
          else err already_exists),
      looks req h,
    )
unfolding node_publish_volume require_text or_fail_none locked publish_flags ◌>>=◌
node_publish_volume-looks node_id fs_type mount_flags req w h points p named aimed staged capable
      is_mounted listed there =
    ground (
      arith,
      publish_access-again node_id fs_type mount_flags
          (publish_flags (mount fs_type mount_flags) req.readonly) req w
          (Call.lock req.volume_id ∷ h) points p staged is_mounted listed there,
    )
