-- ===== src/Operator/Instance/Applied.antt =====
-- What a reconciliation that succeeds has done with the objects of a driver that stays: `DriverInstanceReconciler.Reconcile`.
use open_cas_csi.Prelude.{◌≡◌, refl, String, false, none, List, ◌∷◌, arith}
use mathlib.Core.Path.{subst⁻¹}
use open_cas_csi.World.{World, History, Call, Object, DriverInstance}
use open_cas_csi.Effect.{ok, call, return_error, ◌>>=◌, pure}
use open_cas_csi.Operator.Common.{done}
use open_cas_csi.Operator.Objects.{get_objects_list}
use open_cas_csi.Operator.Instance.Refreshed.{carry_out, carry_out-ok}
use open_cas_csi.Operator.Instance.Handled.{AllHandled, handle_all-AllHandled}
use open_cas_csi.Operator.Instance.{prepared, apply_object, create_unless_deleted, objects_in_order}

module _ (di : DriverInstance) (w : World) where
  -- The object that was found is patched to the object as it is sent, with the resource version of
  -- what was found.
  abbrev pub patch_of : (obj there : Object) → Call
  patch_of obj there =
      Call.patch_object there
        (record (prepared di obj) { resource_version = there.resource_version })

  abbrev pub Patched : (obj there : Object) → (h end : History) → Type 0
  Patched obj there h end =
      (w.answer h (patch_of obj there) ≡ none) × (end ≡ patch_of obj there ∷ h)

  abbrev pub Created : (obj : Object) → (h end : History) → Type 0
  Created obj h end =
      (w.answer h (Call.create_object (prepared di obj)) ≡ none)
      × (end ≡ Call.create_object (prepared di obj) ∷ h)

  abbrev pub AllApplied : List Object → (h end : History) → Type 0
  AllApplied = AllHandled di w Patched Created

  apply_object-patch :
      (obj there : Object) (h : History)
      → di.deleted ≡ false
      → (apply_object di (prepared di obj) there w h).0 ≡ ok tt
      → (w.answer h (patch_of obj there) ≡ none)
        × ((apply_object di (prepared di obj) there w h).1 ≡ patch_of obj there ∷ h)
  unfolding apply_object return_error call ◌>>=◌
  apply_object-patch obj there h stays = rw stays (λ e. (ground arith, refl))

  create_unless_deleted-create :
      (obj : Object) (h : History)
      → di.deleted ≡ false
      → (create_unless_deleted di obj w h).0 ≡ ok tt
      → (w.answer h (Call.create_object obj) ≡ none)
        × ((create_unless_deleted di obj w h).1 ≡ Call.create_object obj ∷ h)
  unfolding create_unless_deleted return_error call ◌>>=◌
  create_unless_deleted-create obj h stays = rw stays (λ e. (ground arith, refl))

  -- A reconciliation of an instance that stays ends with its objects.
  pub carry_out-AllApplied :
      (dir : String) (h : History)
      → di.deleted ≡ false
      → (carry_out false di dir w h).0 ≡ ok done
      → AllApplied (get_objects_list dir di) h (carry_out false di dir w h).1
  unfolding objects_in_order pure
  carry_out-AllApplied dir h stays e =
      let did = carry_out-ok false di dir w h e in
      subst⁻¹ (AllApplied (get_objects_list dir di) h) did.2 (
        handle_all-AllHandled di w Patched Created
          (λ obj there at. apply_object-patch obj there at stays)
          (λ obj at. create_unless_deleted-create (prepared di obj) at stays)
          (get_objects_list dir di) h did.0)
