-- ===== src/Operator/Instance/Refreshed.antt =====
-- The instance after the patch with its finalizer, and what `DriverInstanceReconciler.Reconcile` does then.
use open_cas_csi.Prelude.{◌≡◌, refl, ◌∙◌, String, Bool, true, ◌∷◌, ◌||◌, if◌then◌else◌, arith}
use open_cas_csi.World.{World, History, Call, DriverInstance}
use open_cas_csi.Effect.{ok, M, ◌>>=◌, ◌>>◌, pure, or_fail, ask}
use open_cas_csi.Success.{bind-ok, or_fail-ok}
use open_cas_csi.K8sUtils.Settings.{kubelet_dir}
use open_cas_csi.Operator.Common.{
  Result, done, failed_with, requeue, default_requeue_after, has_finalizer, after_patch,
}
use open_cas_csi.Operator.Instance.{
  handle_all, add_finalizer, with_finalizer, remove_finalizer, objects_in_order, reconcile_instance,
}

-- As the server answers it, or as it was sent
abbrev pub refreshed : DriverInstance → World → History → DriverInstance
refreshed di w h =
    if di.deleted || has_finalizer di.finalizers
    then di
    else after_patch (with_finalizer di) (w.answer h (Call.patch_instance di (with_finalizer di)))

abbrev pub after_finalizer : DriverInstance → History → History
after_finalizer di h =
    if di.deleted || has_finalizer di.finalizers
    then h
    else Call.patch_instance di (with_finalizer di) ∷ h

-- The end of a reconciliation, with `isDeleted`
abbrev pub drop_if : (deleted : Bool) → DriverInstance → M Result Unit
drop_if deleted di =
    if deleted then or_fail (remove_finalizer di) (failed_with default_requeue_after) else pure tt

abbrev pub carry_out : (deleted : Bool) → DriverInstance → (dir : String) → M Result Result
carry_out deleted di dir = do
  or_fail (handle_all di (objects_in_order deleted dir di)) (failed_with requeue)
  drop_if deleted di
  pure done

finalizer-refreshed :
    (di : DriverInstance) (w : World) (h : History)
    → (if di.deleted then pure di else add_finalizer di) w h
      ≡ (ok (refreshed di w h), after_finalizer di h)
unfolding add_finalizer pure ◌>>=◌
finalizer-refreshed di w h = ground arith

pub reconcile_instance-carry_out :
    (di : DriverInstance) (w : World) (h : History)
    → reconcile_instance di w h
      ≡ carry_out di.deleted (refreshed di w h) (kubelet_dir w) w (after_finalizer di h)
unfolding reconcile_instance ask ◌>>=◌
reconcile_instance-carry_out di w h = rw (finalizer-refreshed di w h) refl

pub refreshed-deleted :
    (di : DriverInstance) (w : World) (h : History)
    → di.deleted ≡ true
    → (refreshed di w h).deleted ≡ true
refreshed-deleted di w h leaves = ground arith

-- The parts of a success: all objects were handled, and then the finalizer was dropped, if it was to be.
pub carry_out-ok :
    (deleted : Bool) (di : DriverInstance) (dir : String) (w : World) (h : History)
    → (carry_out deleted di dir w h).0 ≡ ok done
    → ((handle_all di (objects_in_order deleted dir di) w h).0 ≡ ok tt)
      × ((drop_if deleted di w (handle_all di (objects_in_order deleted dir di) w h).1).0 ≡ ok tt)
      × ((carry_out deleted di dir w h).1
          ≡ (drop_if deleted di w (handle_all di (objects_in_order deleted dir di) w h).1).1)
unfolding pure or_fail
carry_out-ok deleted di dir w h e =
    let first = bind-ok _ _ w h done e in
    let second = bind-ok _ _ w _ done first.2 in
    let ran =
      or_fail-ok (handle_all di (objects_in_order deleted dir di)) (failed_with requeue) w h first.0
        first.1 in
    (ran.0, second.1, first.3 ∙ second.3)
