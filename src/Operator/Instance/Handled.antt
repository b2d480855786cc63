-- ===== src/Operator/Instance/Handled.antt =====
-- How the objects of a driver are handled one after another: `handleObject` and the loop of
-- `DriverInstanceReconciler.Reconcile`.
use open_cas_csi.Prelude.{◌≡◌, refl, String, Option, none, some, List, [], ◌∷◌, ◌⊎◌, inl, inr}
use mathlib.Core.Path.{subst, subst⁻¹}
use open_cas_csi.World.{
  World, History, Call, Found, found, not_found, failed, Object, DriverInstance,
}
use open_cas_csi.Effect.{ok, M, on_found, call, return_error, ◌>>=◌, ◌>>◌, pure, fail}
use open_cas_csi.Success.{bind-ok}
use open_cas_csi.Operator.Instance.{
  prepared, apply_object, create_unless_deleted, handle_object, handle_all,
}

module _ (di : DriverInstance) (w : World) where
  abbrev pub read_of : Object → Call
  read_of obj = Call.read_object obj.kind obj.namespace obj.name

  -- The calls after an object got its owner and was looked up.
  abbrev pub looked_up : Object → History → History
  looked_up obj h = read_of obj ∷ Call.set_owner di obj ∷ h

  abbrev answered : Object → Found Object → M String Unit
  answered obj read =
      on_found read (λ there. apply_object di (prepared di obj) there)
        (create_unless_deleted di (prepared di obj)) (λ text. fail text)

  proceeds :
      (refused : Option String) (m : M String Unit) (h : History)
      → ((return_error refused >> m) w h).0 ≡ ok tt
      → (refused ≡ none) × ((return_error refused >> m) w h ≡ m w h)
  unfolding return_error ◌>>=◌
  proceeds none m h e = (refl, refl)
  proceeds (some text) m h e = cc

-- What is to hold of the calls after an object was found, and after it was missing.
module _ (di : DriverInstance) (w : World)
    (OnFound : (obj there : Object) → (h end : History) → Type 0)
    (OnMissing : (obj : Object) → (h end : History) → Type 0) where
  -- The object got its owner, which was accepted, and was looked up, and then what is to hold holds.
  abbrev pub Handled : Object → (h end : History) → Type 0
  Handled obj h end =
      (w.answer h (Call.set_owner di obj) ≡ none)
      × (((there : Object) × (w.answer (Call.set_owner di obj ∷ h) (read_of di w obj) ≡ found there)
            × OnFound obj there (looked_up di w obj h) end)
          ⊎ ((w.answer (Call.set_owner di obj ∷ h) (read_of di w obj) ≡ not_found)
              × OnMissing obj (looked_up di w obj h) end))

  -- Each object in turn
  abbrev pub AllHandled : List Object → (h end : History) → Type 0
  AllHandled [] h end = end ≡ h
  AllHandled (obj ∷ objs) h end =
      (middle : History) × Handled obj h middle × AllHandled objs middle end

  module _
      (on_there : (obj there : Object) (h : History)
        → (apply_object di (prepared di obj) there w h).0 ≡ ok tt
        → OnFound obj there h (apply_object di (prepared di obj) there w h).1)
      (on_missing : (obj : Object) (h : History)
        → (create_unless_deleted di (prepared di obj) w h).0 ≡ ok tt
        → OnMissing obj h (create_unless_deleted di (prepared di obj) w h).1) where
    answered-Handled :
        (obj : Object) (h : History) (read : Found Object)
        → w.answer h (Call.set_owner di obj) ≡ none
        → w.answer (Call.set_owner di obj ∷ h) (read_of di w obj) ≡ read
        → (answered di w obj read w (looked_up di w obj h)).0 ≡ ok tt
        → Handled obj h (answered di w obj read w (looked_up di w obj h)).1
    unfolding on_found fail
    answered-Handled obj h (found there) owned is e =
        (owned, inl (there, is, on_there obj there (looked_up di w obj h) e))
    answered-Handled obj h not_found owned is e =
        (owned, inr (is, on_missing obj (looked_up di w obj h) e))
    answered-Handled obj h (failed text) owned is e = cc

    handle_object-Handled :
        (obj : Object) (h : History)
        → (handle_object di obj w h).0 ≡ ok tt
        → Handled obj h (handle_object di obj w h).1
    unfolding handle_object call ◌>>=◌
    handle_object-Handled obj h e =
        let step =
          proceeds di w (w.answer h (Call.set_owner di obj))
            (call (read_of di w obj) >>= λ read. answered di w obj read) (Call.set_owner di obj ∷ h)
            e in
        subst⁻¹ (λ out. Handled obj h out.1) step.1
          (answered-Handled obj h (w.answer (Call.set_owner di obj ∷ h) (read_of di w obj)) step.0
            refl (subst (λ out. out.0 ≡ ok tt) step.1 e))

    pub handle_all-AllHandled :
        (objs : List Object) (h : History)
        → (handle_all di objs w h).0 ≡ ok tt
        → AllHandled objs h (handle_all di objs w h).1
    unfolding handle_all pure
    handle_all-AllHandled [] h e = refl
    handle_all-AllHandled (obj ∷ objs) h e =
        let first = bind-ok _ _ w h tt e in
        (
          (handle_object di obj w h).1,
          handle_object-Handled obj h first.1,
          subst⁻¹ (AllHandled objs _) first.3 (handle_all-AllHandled objs _ first.2),
        )
