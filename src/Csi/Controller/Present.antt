-- ===== src/Csi/Controller/Present.antt =====
-- The PVC of a volume after a successful `CreateVolume` or `DeleteVolume` of pkg/csi-driver/controller.go.
use Prim.Native.String.append.{cons}
use Prim.Native.String.compare.{cons-nil}
use open_cas_csi.Prelude.{
  ◌≡◌, refl, ◌∙◌, ap, String, Bool, true, false, Option, none, some, ◌∷◌, ◌==◌, arith, ◌⊎◌, inl,
  inr, eq_refl,
}
use open_cas_csi.Prelude.Dict.{erase}
use open_cas_csi.Prelude.Text.{contains}
use open_cas_csi.World.{World, History, Call, Pvc}
use open_cas_csi.Effect.{
  ◌>>=◌, ◌>>◌, M, Outcome, ok, err, panic, fail_if, on_option, pure, attempt, locked,
}
use open_cas_csi.Success.{bind-ok, locked-ok}
use open_cas_csi.K8sUtils.Settings.{protected_namespace}
use open_cas_csi.K8sUtils.Objects.{
  protected_label, named_pvc, get_subprovider_pvc_by_name, delete_subprovider_pvc, unprotect_pvc,
  unless_missing,
}
use open_cas_csi.K8sUtils.Create.{create_subprovider_pvc}
use open_cas_csi.Csi.Types.{Code, internal, get_pvc_name_for_pv, is_failure}
use open_cas_csi.Csi.Controller.{
  CreateVolumeRequest, Volume, pvc_config, ensure_pvc, provision, create_volume, delete_volume,
  tolerate,
}
use open_cas_csi.Csi.Controller.Store.{present, IsServer}

-- What deleting a volume does under its lock, after the client is there.
abbrev pub forget : (name : String) → M Code Unit
forget name = do
  pvc ← get_subprovider_pvc_by_name name
  fail_if (is_failure pvc.1) internal
  on_option (pvc.0) (pure tt)
      (λ found. do deleted ← attempt (delete_subprovider_pvc found.name); tolerate deleted internal)

pub full_name : (id : String) → (get_pvc_name_for_pv id == "") ≡ false
unfolding get_pvc_name_for_pv
full_name id = rw (cons, cons-nil) refl

module _ (initial : String → Bool) (w : World) (server : IsServer initial w) where
  -- A creation that is not refused leaves the PVC there.
  created-present :
      (req : CreateVolumeRequest) (sc : String) (h : History)
      → (create_subprovider_pvc (pvc_config req sc) w h).0 ≡ ok tt
      → present initial w
          (get_pvc_name_for_pv req.name)
          (create_subprovider_pvc (pvc_config req sc) w h).1
        ≡ true
  unfolding create_subprovider_pvc ◌>>=◌
  created-present req sc h e =
      ground (arith, eq_refl (protected_namespace w), eq_refl (get_pvc_name_for_pv req.name))

  locked-present :
      {A : Type 0} (key : String) (m : M Code A) (name : String) (h : History) (b : Bool)
      → present initial w name (m w (Call.lock key ∷ h)).1 ≡ b
      → present initial w name (locked key m w h).1 ≡ b
  unfolding locked
  locked-present key m name h b e = e

  abbrev pub looked_up : (name : String) → History → Pvc × Option String
  looked_up name h = w.answer h (Call.get_pvc (protected_namespace w) name)

  -- A look-up finds the PVC under its name, or nothing.
  pub looked_up-named :
      (name : String) (h : History) (o : Option String)
      → (name == "") ≡ false
      → (looked_up name h).1 ≡ o
      → ((named_pvc (looked_up name h).0 ≡ some (looked_up name h).0)
          × ((looked_up name h).0.name ≡ name)
          × (present initial w name h ≡ true))
        ⊎ ((named_pvc (looked_up name h).0 ≡ none) × ((text : String) × (o ≡ some text)))
  looked_up-named name h none full e =
      let there = server.get-present h name e in inl (rw (there.1, full) refl, there.1, there.0)
  looked_up-named name h (some text) full e =
      inr (rw (server.get-absent h name text e) refl, (text, refl))

  -- The deletion succeeded, or its error says that the object is not there.
  abbrev gone : Outcome String Unit → Bool
  gone (ok _) = true
  gone (err text) = contains text "not found"
  gone panic = false

  gone-present :
      (name : String) (h : History) (o : Option String)
      → (looked_up name h).1 ≡ o
      → gone (delete_subprovider_pvc name w h).0 ≡ true
      → present initial w name (delete_subprovider_pvc name w h).1 ≡ false
  unfolding delete_subprovider_pvc unprotect_pvc unless_missing ◌>>=◌
  gone-present name h (some text) e g = ground (arith, server.get-missing h name)
  gone-present name h none e g =
      let ns = protected_namespace w in
      let pvc = (looked_up name h).0 in
      let update = Call.update_pvc ns (record pvc { labels = erase protected_label pvc.labels }) in
      let h = Call.get_pvc ns name ∷ h in
      ground (
        arith,
        server.get-present _ name e,
        server.update-missing h (record pvc { labels = erase protected_label pvc.labels }),
        server.delete-missing h name,
        server.delete-missing (update ∷ h) name,
        eq_refl ns,
        eq_refl name,
      )

  tolerated-present :
      (name : String) (h : History)
      → ((attempt (delete_subprovider_pvc name) >>= λ d. tolerate d internal) w h).0 ≡ ok tt
      → present initial w name
          ((attempt (delete_subprovider_pvc name) >>= λ d. tolerate d internal) w h).1
        ≡ false
  unfolding tolerate ◌>>=◌
  tolerated-present name h e = ground (arith, gone-present name h _ refl)

  forget-present :
      (name : String) (h : History)
      → (name == "") ≡ false
      → (forget name w h).0 ≡ ok tt
      → present initial w name (forget name w h).1 ≡ false
  unfolding get_subprovider_pvc_by_name ◌>>=◌
  forget-present name h full e = elim (looked_up-named name h _ full refl) [
    | inl (is_named, is_name, there) ↦ ground (
      arith,
      tolerated-present (looked_up name h).0.name (Call.get_pvc (protected_namespace w) name ∷ h),
    )
    | inr (missing, (text, is_text)) ↦ ground (arith, server.get-missing h name)
  ]

  module _ (req : CreateVolumeRequest) where
    abbrev own : String
    own = get_pvc_name_for_pv req.name

    ensure_pvc-present :
        (sc : String) (h : History)
        → (ensure_pvc req sc w h).0 ≡ ok tt
        → present initial w own (ensure_pvc req sc w h).1 ≡ true
    unfolding ensure_pvc get_subprovider_pvc_by_name ◌>>=◌
    ensure_pvc-present sc h e = elim (looked_up-named own h _ (full_name req.name) refl) [
      | inl (is_named, is_name, there) ↦ ground arith
      | inr (missing, (text, is_text)) ↦
          ground (arith, created-present req sc (Call.get_pvc (protected_namespace w) own ∷ h))
    ]

    provision-present :
        (sc : String) (h : History) (v : Volume)
        → (provision req sc w h).0 ≡ ok v
        → present initial w own (provision req sc w h).1 ≡ true
    unfolding provision pure
    provision-present sc h v e =
        let connected = bind-ok _ _ w h v e in
        let classed = bind-ok _ _ w _ v connected.2 in
        let checked = bind-ok _ _ w _ v classed.2 in
        let found = bind-ok _ _ w _ v checked.2 in
        let ensured = bind-ok _ _ w _ v found.2 in
        ap (present initial w own) (connected.3 ∙ classed.3 ∙ checked.3 ∙ found.3 ∙ ensured.3)
        ∙ ensure_pvc-present sc _ ensured.1

    -- After creating a volume successfully its PVC is there.
    pub create_volume-present :
        (h : History) (v : Volume)
        → (create_volume req w h).0 ≡ ok v
        → present initial w own (create_volume req w h).1 ≡ true
    unfolding create_volume
    create_volume-present h v e =
        let checked = bind-ok _ _ w h v e in
        let named = bind-ok _ _ w _ v checked.2 in
        let capable = bind-ok _ _ w _ v named.2 in
        let classed = bind-ok _ _ w _ v capable.2 in
        ap (present initial w own) (checked.3 ∙ named.3 ∙ capable.3 ∙ classed.3)
        ∙ locked-present _ _ own _ true
            (provision-present classed.0 _ v (locked-ok req.name _ w _ v classed.2))

  -- After deleting a volume successfully its PVC is not there.
  pub delete_volume-present :
      (id : String) (h : History)
      → (delete_volume id w h).0 ≡ ok tt
      → present initial w (get_pvc_name_for_pv id) (delete_volume id w h).1 ≡ false
  unfolding delete_volume
  delete_volume-present id h e =
      let checked = bind-ok _ _ w h tt e in
      let named = bind-ok _ _ w _ tt checked.2 in
      let connected = bind-ok _ _ w _ tt (locked-ok id _ w _ tt named.2) in
      let name = get_pvc_name_for_pv id in
      ap (present initial w name) (checked.3 ∙ named.3)
      ∙ locked-present _ _ name _ false (
          ap (present initial w name) connected.3
          ∙ forget-present name _ (full_name id) connected.2)
