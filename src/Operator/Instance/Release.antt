-- ===== src/Operator/Instance/Release.antt =====
-- What `DriverInstanceReconciler.Reconcile` does to the objects of an instance, by whether the
-- instance is being deleted.
use mathlib.Core.Path.{subst⁻¹}
use open_cas_csi.K8sUtils.Settings.{kubelet_dir}
use open_cas_csi.Operator.Instance.Refreshed.{
  refreshed, after_finalizer, carry_out, drop_if, reconcile_instance-carry_out, refreshed-deleted,
}
use open_cas_csi.Prelude.{
  ◌≡◌, refl, inl, inr, ◌||◌, Bool, Bool-cases, String, true, false, List, [], ◌∷◌, not, arith,
}
use open_cas_csi.World.{World, History, Call, Object, DriverInstance}
use open_cas_csi.Effect.{◌>>=◌}
use open_cas_csi.Keeps.{Keeps, Allows, keeps_rules, Keeps-bind, Keeps-or_fail, Keeps-pure}
use open_cas_csi.Operator.Common.{failed_with, requeue, done, has_finalizer}
use open_cas_csi.Operator.Common.Finalizers.{
  has_finalizer-add_finalizer_to, has_finalizer-remove_finalizer_from,
}
use open_cas_csi.Operator.Instance.{
  release_object, apply_object, create_unless_deleted, handle_object, handle_all, remove_finalizer,
  objects_in_order, reconcile_instance,
}

-- An object is created or patched only for an instance that stays, updated only to release it for one
-- that goes; and the instance itself has the finalizer exactly if it stays.
abbrev pub FollowsDeletion : DriverInstance → World → History → Type 0
FollowsDeletion di w [] = Unit
FollowsDeletion di w (Call.create_object obj ∷ h) = (di.deleted ≡ false) × FollowsDeletion di w h
FollowsDeletion di w (Call.patch_object old new ∷ h) = (di.deleted ≡ false) × FollowsDeletion di w h
FollowsDeletion di w (Call.update_object obj ∷ h) =
    (di.deleted ≡ true) × (has_finalizer obj.finalizers ≡ false) × FollowsDeletion di w h
FollowsDeletion di w (Call.patch_instance old new ∷ h) =
    (has_finalizer new.finalizers ≡ not old.deleted) × FollowsDeletion di w h
FollowsDeletion di w (_ ∷ h) = FollowsDeletion di w h

module _ (di : DriverInstance) where
  created-Allows :
      (obj : Object) → di.deleted ≡ false → Allows (FollowsDeletion di) (Call.create_object obj)
  created-Allows obj e = record { step = λ w h p. (e, p) }

  patched-Allows :
      (old new : Object)
      → di.deleted ≡ false
      → Allows (FollowsDeletion di) (Call.patch_object old new)
  patched-Allows old new e = record { step = λ w h p. (e, p) }

  set_owner-Allows : (obj : Object) → Allows (FollowsDeletion di) (Call.set_owner di obj)
  set_owner-Allows obj = record { step = λ w h p. p }

  read_object-Allows :
      (obj : Object)
      → Allows (FollowsDeletion di) (Call.read_object obj.kind obj.namespace obj.name)
  read_object-Allows obj = record { step = λ w h p. p }

  release_object-Keeps :
      (obj : Object) → di.deleted ≡ true → Keeps (FollowsDeletion di) (release_object obj)
  unfolding release_object ◌>>=◌
  release_object-Keeps obj e = record {
    at = λ w h p. grind (arith, has_finalizer-remove_finalizer_from obj.finalizers);
  }

  apply_object-Keeps : (obj there : Object) → Keeps (FollowsDeletion di) (apply_object di obj there)
  unfolding apply_object
  apply_object-Keeps obj there = search (keeps_rules, patched-Allows, release_object-Keeps) depth 8

  create_unless_deleted-Keeps :
      (obj : Object) → Keeps (FollowsDeletion di) (create_unless_deleted di obj)
  unfolding create_unless_deleted
  create_unless_deleted-Keeps obj = search (keeps_rules, created-Allows) depth 8

  handle_object-Keeps : (obj : Object) → Keeps (FollowsDeletion di) (handle_object di obj)
  unfolding handle_object
  handle_object-Keeps obj =
      search
        (
          keeps_rules, set_owner-Allows, read_object-Allows, apply_object-Keeps,
          create_unless_deleted-Keeps,
        )
        depth 9

  handle_all-Keeps : (objs : List Object) → Keeps (FollowsDeletion di) (handle_all di objs)
  unfolding handle_all
  handle_all-Keeps [] = search keeps_rules
  handle_all-Keeps (obj ∷ objs) =
      Keeps-bind _ _ (handle_object-Keeps obj) (λ _. handle_all-Keeps objs)

  remove_finalizer-Keeps : di.deleted ≡ true → Keeps (FollowsDeletion di) (remove_finalizer di)
  unfolding remove_finalizer ◌>>=◌
  remove_finalizer-Keeps e = record {
    at = λ w h p. grind (arith, has_finalizer-remove_finalizer_from di.finalizers);
  }

  drop_if-Keeps :
      (deleted : Bool)
      → (deleted ≡ true → di.deleted ≡ true)
      → Keeps (FollowsDeletion di) (drop_if deleted di)
  drop_if-Keeps false leaves = search keeps_rules
  drop_if-Keeps true leaves = search (keeps_rules, remove_finalizer-Keeps (leaves refl))

  carry_out-Keeps :
      (deleted : Bool) (dir : String)
      → (deleted ≡ true → di.deleted ≡ true)
      → Keeps (FollowsDeletion di) (carry_out deleted di dir)
  carry_out-Keeps deleted dir leaves =
      Keeps-bind _ _
        (Keeps-or_fail (handle_all di (objects_in_order deleted dir di)) (failed_with requeue)
          (handle_all-Keeps (objects_in_order deleted dir di)))
        (λ _. Keeps-bind _ _ (drop_if-Keeps deleted leaves) (λ _. Keeps-pure done))

after_finalizer-FollowsDeletion :
    (di di' : DriverInstance) (w : World) (h : History)
    → FollowsDeletion di' w h
    → FollowsDeletion di' w (after_finalizer di h)
after_finalizer-FollowsDeletion di di' w h p =
    elim (Bool-cases (di.deleted || has_finalizer di.finalizers)) [
      | inl there ↦ rw there p
      | inr missing ↦ rw missing (grind (arith, has_finalizer-add_finalizer_to di.finalizers), p)
    ]

-- Reconciling an instance creates and patches its objects only if it stays, and updates objects only if
-- it is being deleted, to take the finalizer off, as the instance is after the patch with its finalizer
-- where that was missing. A patch of the instance adds the finalizer to one that stays and takes it off
-- one that is being deleted. The calls made before are supposed to be such too.
pub reconcile_instance-FollowsDeletion :
    (di : DriverInstance) (w : World) (h : History)
    → FollowsDeletion (refreshed di w h) w h
    → FollowsDeletion (refreshed di w h) w (reconcile_instance di w h).1
reconcile_instance-FollowsDeletion di w h p =
    subst⁻¹ (λ out. FollowsDeletion (refreshed di w h) w out.1)
      (reconcile_instance-carry_out di w h)
      ((carry_out-Keeps (refreshed di w h) di.deleted (kubelet_dir w) (refreshed-deleted di w h)).at
        w (after_finalizer di h) (after_finalizer-FollowsDeletion di (refreshed di w h) w h p))
