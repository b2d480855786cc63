-- ===== src/Operator/Locking.antt =====
-- The lock discipline of pkg/csi-operator/internal/controller: what the reconcilers do under their
-- mutexes.
use open_cas_csi.Prelude.{String}
use open_cas_csi.Keeps.{Keeps, keeps_rules}
use open_cas_csi.Locks.{Idle, Allows-work, work-Inside, locked-Keeps}
use open_cas_csi.Operator.Cache
use open_cas_csi.Operator.Instance
use open_cas_csi.Operator.Footprint.{with_node-Keeps, reconcile_instance-Keeps}

-- Reconciling a definition does everything under the lock of its name.
pub reconcile_cache-Keeps : (name : String) → Keeps (Idle name) (Cache.reconcile name)
unfolding Cache.reconcile
reconcile_cache-Keeps name =
    search
      (
        keeps_rules,
        locked-Keeps,
        Allows-work (work-Inside name),
        with_node-Keeps (work-Inside name),
      )
      depth 16

-- Reconciling an instance does everything under the one lock of all instances.
pub reconcile_driver-Keeps : (name : String) → Keeps (Idle "") (Instance.reconcile name)
unfolding Instance.reconcile
reconcile_driver-Keeps name =
    search
      (
        keeps_rules,
        locked-Keeps,
        Allows-work (work-Inside ""),
        reconcile_instance-Keeps (work-Inside ""),
      )
      depth 16
