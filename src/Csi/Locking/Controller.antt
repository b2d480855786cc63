-- ===== src/Csi/Locking/Controller.antt =====
-- The lock discipline of pkg/csi-driver/controller.go.
use open_cas_csi.Prelude.{refl, String, Option, []}
use open_cas_csi.World.{World}
use open_cas_csi.Keeps.{Keeps, keeps_rules}
use open_cas_csi.OpenCas.Footprint.{
  connect-Keeps, get_subprovider_pvc_by_name-Keeps, get_sc_by_name-Keeps,
  get_intermediate_pod_by_name-Keeps,
}
use open_cas_csi.Csi.Types.{Access}
use open_cas_csi.Csi.Controller.{
  CreateVolumeRequest, create_volume, delete_volume, ensure_pvc, provision,
}
use open_cas_csi.Csi.Publish.{controller_publish_volume, controller_unpublish_volume}
use open_cas_csi.Csi.Checks.{tolerate-Keeps}
use open_cas_csi.Locks.{Idle, Inside, reads, work-Inside}
use open_cas_csi.Csi.Locking.{
  create_subprovider_pvc-Keeps, delete_subprovider_pvc-Keeps, delete_intermediate_pod-Keeps,
  ensure_pod-Keeps, bound_pv-Keeps, missing_or_internal-Keeps, guard_rules,
}

ensure_pvc-Keeps :
    (key : String) (req : CreateVolumeRequest) (sc : String)
    → Keeps (Inside key) (ensure_pvc req sc)
unfolding ensure_pvc
ensure_pvc-Keeps key req sc =
    search
      (
        keeps_rules,
        get_subprovider_pvc_by_name-Keeps (reads (work-Inside key)),
        create_subprovider_pvc-Keeps,
      )
      depth 10

provision-Keeps :
    (key : String) (req : CreateVolumeRequest) (sc : String) → Keeps (Inside key) (provision req sc)
unfolding provision
provision-Keeps key req sc =
    search
      (
        keeps_rules,
        connect-Keeps (reads (work-Inside key)),
        get_sc_by_name-Keeps (reads (work-Inside key)),
        ensure_pvc-Keeps,
      )
      depth 10

pub create_volume-Keeps : (req : CreateVolumeRequest) → Keeps (Idle req.name) (create_volume req)
unfolding create_volume
create_volume-Keeps req = search (guard_rules, provision-Keeps) depth 10

pub delete_volume-Keeps : (id : String) → Keeps (Idle id) (delete_volume id)
unfolding delete_volume
delete_volume-Keeps id =
    search
      (
        guard_rules,
        connect-Keeps (reads (work-Inside id)),
        get_subprovider_pvc_by_name-Keeps (reads (work-Inside id)),
        delete_subprovider_pvc-Keeps,
        tolerate-Keeps,
      )
      depth 16

pub controller_publish_volume-Keeps :
    (id node_id : String) (capability : Option Access)
    → Keeps (Idle id) (controller_publish_volume id node_id capability)
unfolding controller_publish_volume
controller_publish_volume-Keeps id node_id capability =
    search
      (
        guard_rules,
        connect-Keeps (reads (work-Inside id)),
        get_subprovider_pvc_by_name-Keeps (reads (work-Inside id)),
        missing_or_internal-Keeps,
        ensure_pod-Keeps,
        bound_pv-Keeps,
      )
      depth 16

pub controller_unpublish_volume-Keeps :
    (id node_id : String) → Keeps (Idle id) (controller_unpublish_volume id node_id)
unfolding controller_unpublish_volume
controller_unpublish_volume-Keeps id node_id =
    search
      (
        guard_rules,
        connect-Keeps (reads (work-Inside id)),
        get_intermediate_pod_by_name-Keeps (reads (work-Inside id)),
        delete_intermediate_pod-Keeps,
        tolerate-Keeps,
      )
      depth 16

-- When they run first, creating, deleting, publishing and unpublishing a volume
-- lock the volume's own key alone, do all else while they hold it, and end with no lock held,
-- whatever the cluster answers.
controller-Idle :
    (req : CreateVolumeRequest) (id node_id : String) (capability : Option Access) (w : World)
    → Idle req.name w (create_volume req w []).1
      × Idle id w (delete_volume id w []).1
      × Idle id w (controller_publish_volume id node_id capability w []).1
      × Idle id w (controller_unpublish_volume id node_id w []).1
controller-Idle req id node_id capability w = (
  (create_volume-Keeps req).at w [] (refl, tt),
  (delete_volume-Keeps id).at w [] (refl, tt),
  (controller_publish_volume-Keeps id node_id capability).at w [] (refl, tt),
  (controller_unpublish_volume-Keeps id node_id).at w [] (refl, tt),
)
