-- ===== src/Operator/Instance/Freed.antt =====
-- What a reconciliation that succeeds has done with the objects of a driver that is being deleted:
-- `DriverInstanceReconciler.Reconcile`.
use open_cas_csi.Prelude.{◌≡◌, refl, ◌∙◌, ap, String, true, false, none, List, ◌∷◌, ◌⊎◌, arith}
use mathlib.Core.List.{reverse}
use mathlib.Core.Path.{subst, subst⁻¹}
use open_cas_csi.World.{World, History, Call, Object, DriverInstance}
use open_cas_csi.Effect.{ok, call, return_error, ◌>>=◌, pure}
use open_cas_csi.Success.{or_fail-ok}
use open_cas_csi.Operator.Common.{
  done, failed_with, default_requeue_after, has_finalizer, remove_finalizer_from,
}
use open_cas_csi.Operator.Objects.{get_objects_list}
use open_cas_csi.Operator.Instance.Refreshed.{carry_out, carry_out-ok}
use open_cas_csi.Operator.Instance.Handled.{AllHandled, handle_all-AllHandled}
use open_cas_csi.Operator.Instance.{
  is_workload, release_object, prepared, apply_object, create_unless_deleted, handle_all,
  remove_finalizer, objects_in_order,
}

module _ (di : DriverInstance) (w : World) where
  -- The object that was found is updated to be without the finalizer.
  abbrev pub update_of : (obj there : Object) → Call
  update_of obj there =
      Call.update_object
        (record there { kind = obj.kind; finalizers = remove_finalizer_from there.finalizers })

  -- Nothing more is done with a workload or with an object without the finalizer; from another one the
  -- finalizer is taken, and the API server accepted this.
  abbrev pub Released : (obj there : Object) → (h end : History) → Type 0
  Released obj there h end =
      ((is_workload obj.kind ≡ true) × (end ≡ h))
      ⊎ (((is_workload obj.kind ≡ false) × (has_finalizer there.finalizers ≡ false) × (end ≡ h))
          ⊎ ((is_workload obj.kind ≡ false)
              × (has_finalizer there.finalizers ≡ true)
              × (w.answer h (update_of obj there) ≡ none)
              × (end ≡ update_of obj there ∷ h)))

  abbrev pub Gone : (obj : Object) → (h end : History) → Type 0
  Gone obj h end = end ≡ h

  -- The instance had no finalizer, or it was patched to be without it, which was accepted.
  abbrev pub drop_of : Call
  drop_of = Call.patch_instance di (record di { finalizers = remove_finalizer_from di.finalizers })

  abbrev pub Dropped : (h end : History) → Type 0
  Dropped h end =
      ((has_finalizer di.finalizers ≡ false) × (end ≡ h))
      ⊎ ((has_finalizer di.finalizers ≡ true)
          × ((w.answer h (
                Call.patch_instance di
                  (record di { finalizers = remove_finalizer_from di.finalizers }))).1
              ≡ none)
          × (end ≡ drop_of ∷ h))

  release_object-Released :
      (obj there : Object) (h : History)
      → (release_object (record there { kind = obj.kind }) w h).0 ≡ ok tt
      → Released obj there h (release_object (record there { kind = obj.kind }) w h).1
  unfolding release_object return_error call ◌>>=◌ pure
  release_object-Released obj there h e = ground arith

  prepared-kind : (obj : Object) → (prepared di obj).kind ≡ obj.kind
  unfolding prepared
  prepared-kind obj = ground arith

  apply_object-release_object :
      (obj there : Object) (h : History)
      → di.deleted ≡ true
      → apply_object di obj there w h ≡ release_object (record there { kind = obj.kind }) w h
  unfolding apply_object
  apply_object-release_object obj there h leaves = rw leaves refl

  apply_object-Released :
      (obj there : Object) (h : History)
      → di.deleted ≡ true
      → (apply_object di (prepared di obj) there w h).0 ≡ ok tt
      → Released obj there h (apply_object di (prepared di obj) there w h).1
  apply_object-Released obj there h leaves e =
      let step =
        apply_object-release_object (prepared di obj) there h leaves
        ∙ ap (λ k. release_object (record there { kind = k }) w h) (prepared-kind obj) in
      subst⁻¹ (λ out. Released obj there h out.1) step
        (release_object-Released obj there h (subst (λ out. out.0 ≡ ok tt) step e))

  create_unless_deleted-Gone :
      (obj : Object) (h : History) → di.deleted ≡ true → (create_unless_deleted di obj w h).1 ≡ h
  unfolding create_unless_deleted pure
  create_unless_deleted-Gone obj h leaves = rw leaves refl

  remove_finalizer-Dropped :
      (h : History) → (remove_finalizer di w h).0 ≡ ok tt → Dropped h (remove_finalizer di w h).1
  unfolding remove_finalizer return_error call ◌>>=◌ pure
  remove_finalizer-Dropped h e = ground arith

  -- Each object of the driver in the opposite order of the list, and then the instance.
  abbrev pub AllFreed : List Object → (h end : History) → Type 0
  AllFreed objs h end =
      (middle : History) × AllHandled di w Released Gone (reverse objs) h middle
      × Dropped middle end

  handled-Released :
      (objs : List Object) (h : History)
      → di.deleted ≡ true
      → (handle_all di objs w h).0 ≡ ok tt
      → AllHandled di w Released Gone objs h (handle_all di objs w h).1
  handled-Released objs h leaves e =
      handle_all-AllHandled di w Released Gone
        (λ obj there at. apply_object-Released obj there at leaves)
        (λ obj at did. create_unless_deleted-Gone (prepared di obj) at leaves) objs h e

  pub carry_out-AllFreed :
      (dir : String) (h : History)
      → di.deleted ≡ true
      → (carry_out true di dir w h).0 ≡ ok done
      → AllFreed (get_objects_list dir di) h (carry_out true di dir w h).1
  unfolding objects_in_order
  carry_out-AllFreed dir h leaves e =
      let did = carry_out-ok true di dir w h e in
      let middle = (handle_all di (reverse (get_objects_list dir di)) w h).1 in
      let removed =
        or_fail-ok (remove_finalizer di) (failed_with default_requeue_after) w middle tt did.1 in
      (
        middle,
        handled-Released (reverse (get_objects_list dir di)) h leaves did.0,
        subst⁻¹ (Dropped middle) (did.2 ∙ removed.1) (remove_finalizer-Dropped middle removed.0),
      )

  -- The instance was read as one that stays, and is being deleted since.
  pub carry_out-Released :
      (dir : String) (h : History)
      → di.deleted ≡ true
      → (carry_out false di dir w h).0 ≡ ok done
      → AllHandled di w Released Gone (get_objects_list dir di) h (carry_out false di dir w h).1
  unfolding objects_in_order pure
  carry_out-Released dir h leaves e =
      let did = carry_out-ok false di dir w h e in
      subst⁻¹ (AllHandled di w Released Gone (get_objects_list dir di) h) did.2
        (handled-Released (get_objects_list dir di) h leaves did.0)
