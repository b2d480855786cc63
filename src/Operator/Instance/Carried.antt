-- ===== src/Operator/Instance/Carried.antt =====
-- All that a reconciliation that succeeds has done with the objects of a driver: `DriverInstanceReconciler.Reconcile`.
use open_cas_csi.Prelude.{◌≡◌, refl, Bool, true, false}
use mathlib.Core.Path.{subst, subst⁻¹}
use open_cas_csi.World.{World, History, DriverInstance}
use open_cas_csi.Effect.{ok}
use open_cas_csi.K8sUtils.Settings.{kubelet_dir}
use open_cas_csi.Operator.Common.{done}
use open_cas_csi.Operator.Objects.{get_objects_list}
use open_cas_csi.Operator.Instance.{reconcile_instance}
use open_cas_csi.Operator.Instance.Refreshed.{
  refreshed, after_finalizer, carry_out, reconcile_instance-carry_out, refreshed-deleted,
}
use open_cas_csi.Operator.Instance.Handled.{AllHandled}
use open_cas_csi.Operator.Instance.Applied.{AllApplied, carry_out-AllApplied}
use open_cas_csi.Operator.Instance.Freed.{
  Released, Gone, AllFreed, carry_out-AllFreed, carry_out-Released,
}

-- What a reconciliation that succeeds has done with an instance, by whether it was read as being deleted
-- and whether it is after the patch with its finalizer.
abbrev pub CarriedOut :
    (was_deleted is_deleted : Bool) → DriverInstance → World → (h end : History) → Type 0
CarriedOut false false di w h end = AllApplied di w (get_objects_list (kubelet_dir w) di) h end
CarriedOut false true di w h end =
    AllHandled di w (Released di w) (Gone di w) (get_objects_list (kubelet_dir w) di) h end
CarriedOut true is_deleted di w h end = AllFreed di w (get_objects_list (kubelet_dir w) di) h end

carried_out :
    (was_deleted is_deleted : Bool) (di : DriverInstance) (w : World) (h : History)
    → di.deleted ≡ is_deleted
    → (was_deleted ≡ true → di.deleted ≡ true)
    → (carry_out was_deleted di (kubelet_dir w) w h).0 ≡ ok done
    → CarriedOut was_deleted is_deleted di w h (carry_out was_deleted di (kubelet_dir w) w h).1
carried_out false false di w h is stays e = carry_out-AllApplied di w (kubelet_dir w) h is e
carried_out false true di w h is stays e = carry_out-Released di w (kubelet_dir w) h is e
carried_out true is_deleted di w h is leaves e =
    carry_out-AllFreed di w (kubelet_dir w) h (leaves refl) e

-- When reconciling a driver instance succeeds, it did nothing but the following. If the instance was
-- read as one that stays, it was first asked to be patched with the finalizer if it had none; what
-- follows is about the instance as it is then. If it stays, each of its
-- objects, in the order of the list, got its owner, was looked up, and was patched to what it is to
-- be if it was there and created if it was missing. If the instance was read as being deleted, each
-- object, in the opposite order, got its owner and was looked up, and those that were there, are no
-- workloads and had the finalizer were updated to be without it; in the end the instance was patched to be
-- without its finalizer if it had it. If it was read as one that stays and the patch answered one that
-- is being deleted, the objects were updated in the same way, but in the order of the list, and the
-- instance kept its finalizer. Each call but the first patch was accepted.
pub reconcile_instance-CarriedOut :
    (di : DriverInstance) (w : World) (h : History)
    → (reconcile_instance di w h).0 ≡ ok done
    → CarriedOut di.deleted
        (refreshed di w h).deleted
        (refreshed di w h)
        w
        (after_finalizer di h)
        (reconcile_instance di w h).1
reconcile_instance-CarriedOut di w h e =
    let step = reconcile_instance-carry_out di w h in
    subst⁻¹
      (λ out.
        CarriedOut di.deleted (refreshed di w h).deleted (refreshed di w h) w (after_finalizer di h)
          out.1)
      step
      (carried_out di.deleted (refreshed di w h).deleted (refreshed di w h) w (after_finalizer di h)
        refl (refreshed-deleted di w h) (subst (λ out. out.0 ≡ ok done) step e))
