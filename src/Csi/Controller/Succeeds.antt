-- ===== src/Csi/Controller/Succeeds.antt =====
-- When `CreateVolume` and `DeleteVolume` of pkg/csi-driver/controller.go succeed.
use Prim.Native.Char.{Char}
use Prim.Native.String.{◌++◌ as append}
use Prim.Native.String.append.{cons}
use text.Mathlib.TextEquality.{eq_iff}
use mathlib.Core.Path.{subst⁻¹}
use open_cas_csi.Prelude.{
  inl, inr, Bool-cases, ◌≡◌, refl, Bool, Option, String, true, false, none, some, List, [], ◌∷◌,
  ◌==◌, arith, is_empty,
}
use open_cas_csi.Prelude.Dict.{Dict}
use open_cas_csi.World.{World, History, Call, Pvc}
use open_cas_csi.Effect.{◌>>=◌, ok, or_fail, fail_if, on_option, pure, return_error, ask, call}
use open_cas_csi.K8sUtils.Settings.{protected_namespace}
use open_cas_csi.K8sUtils.Objects.{
  new_k8s_utils, get_sc_by_name, get_subprovider_pvc_by_name, delete_subprovider_pvc, unprotect_pvc,
  named_pvc, unless_missing,
}
use open_cas_csi.K8sUtils.Create.{subprovider_pvc, create_subprovider_pvc}
use open_cas_csi.Csi.Types.{Code, Access, internal, is_failure, require_text, get_pvc_name_for_pv}
use open_cas_csi.Csi.Controller.{
  CreateVolumeRequest, pvc_config, volume_of, ensure_pvc, provision, create_volume, delete_volume,
  tolerate, backend_storage_class, require_storage_class, validate_controller_service_request,
  is_valid_volume_capabilities, all_accessible,
}
use open_cas_csi.Csi.Controller.Provision.{IsAcceptable}

-- The API server can be reached, has the storage class, and answers a look-up with the PVC or with "not
-- found". It accepts the creation of a PVC that a look-up just found missing, and the update and the
-- deletion of one that a look-up just showed, the deletion also after the update.
pub record Accepts (w : World) (class : String) : Type 0 where
  pub config-accepted : (h : History) → w.answer h Call.load_config ≡ none
  pub client-accepted : (h : History) → w.answer h Call.new_client ≡ none
  pub class-there : (h : History) → w.answer h (Call.get_sc class) ≡ (class, none)
  pub get-answered :
      (h : History) (ns name : String) → is_failure (w.answer h (Call.get_pvc ns name)).1 ≡ false
  pub create-accepted :
      (h : History) (ns : String) (pvc : Pvc)
      → (pvc.name == "") ≡ false
      → named_pvc (w.answer h (Call.get_pvc ns pvc.name)).0 ≡ none
      → w.answer (Call.get_pvc ns pvc.name ∷ h) (Call.create_pvc ns pvc) ≡ none
  pub update-accepted :
      (h : History) (ns name : String) (labels : Dict String)
      → (w.answer h (Call.get_pvc ns name)).1 ≡ none
      → w.answer
          (Call.get_pvc ns name ∷ h)
          (Call.update_pvc ns (record ((w.answer h (Call.get_pvc ns name)).0) { labels = labels }))
        ≡ none
  pub delete-accepted :
      (h : History) (ns name : String)
      → (w.answer h (Call.get_pvc ns name)).1 ≡ none
      → w.answer (Call.get_pvc ns name ∷ h) (Call.delete_pvc ns name) ≡ none
  pub updated-delete-accepted :
      (h : History) (ns name : String) (labels : Dict String)
      → (w.answer h (Call.get_pvc ns name)).1 ≡ none
      → w.answer
          (Call.update_pvc ns (record ((w.answer h (Call.get_pvc ns name)).0) { labels = labels })
            ∷ Call.get_pvc ns name
            ∷ h)
          (Call.delete_pvc ns name)
        ≡ none

not_cons : (c : Char) (s : String) → (String.◌∷◌ c s == "") ≡ false
not_cons c s = elim (Bool-cases (String.◌∷◌ c s == "")) [
  | inl e ↦ (let same = (eq_iff (String.◌∷◌ c s) "").0 e in cc)
  | inr e ↦ e
]

pvc_name_full : (name : String) → (get_pvc_name_for_pv name == "") ≡ false
unfolding get_pvc_name_for_pv
pvc_name_full name =
    subst⁻¹ (λ s. (s == "") ≡ false) (cons "o" "pencas-csi-" name)
      (not_cons "o" (append "pencas-csi-" name))

module _ (w : World) (class : String) (accepts : Accepts w class) where
  connect-ok : (h : History) → (or_fail {F = Code} new_k8s_utils internal w h).0 ≡ ok tt
  unfolding new_k8s_utils ◌>>=◌
  connect-ok h = grind (arith, accepts.config-accepted, accepts.client-accepted)

  created :
      (req : CreateVolumeRequest) (h : History) (ns : String)
      → named_pvc (w.answer h (Call.get_pvc ns (get_pvc_name_for_pv req.name))).0 ≡ none
      → w.answer
          (Call.get_pvc ns (get_pvc_name_for_pv req.name) ∷ h)
          (Call.create_pvc ns (subprovider_pvc (pvc_config req class)))
        ≡ none
  unfolding subprovider_pvc
  created req h ns missing =
      accepts.create-accepted h ns (subprovider_pvc (pvc_config req class)) (pvc_name_full req.name)
        missing

  ensured :
      (req : CreateVolumeRequest) (h : History) (b : Bool) (o : Option Pvc)
      → b ≡ false
      → named_pvc
          (w.answer h (Call.get_pvc (protected_namespace w) (get_pvc_name_for_pv req.name))).0
        ≡ o
      → ((fail_if b internal >>= λ _.
            on_option o
              (or_fail (create_subprovider_pvc (pvc_config req class)) internal)
              (λ _. pure tt))
          w
          (Call.get_pvc (protected_namespace w) (get_pvc_name_for_pv req.name) ∷ h)).0
        ≡ ok tt
  unfolding create_subprovider_pvc ◌>>=◌ fail_if on_option or_fail pure return_error ask call
  ensured req h true o answered is = cc
  ensured req h false (some pvc) answered is = refl
  ensured req h false none answered is = rw (created req h (protected_namespace w) is) refl

  ensure_pvc-ok : (req : CreateVolumeRequest) (h : History) → (ensure_pvc req class w h).0 ≡ ok tt
  unfolding ensure_pvc get_subprovider_pvc_by_name ◌>>=◌
  ensure_pvc-ok req h =
      ensured req h _ _
        (accepts.get-answered h (protected_namespace w) (get_pvc_name_for_pv req.name)) refl

  delete_subprovider_pvc-ok :
      (name : String) (h : History) → (delete_subprovider_pvc name w h).0 ≡ ok tt
  unfolding delete_subprovider_pvc unprotect_pvc unless_missing ◌>>=◌
  delete_subprovider_pvc-ok name h = grind (
    arith, accepts.get-answered, accepts.update-accepted, accepts.delete-accepted,
    accepts.updated-delete-accepted,
  )

  provision-ok :
      (req : CreateVolumeRequest) (h : History)
      → (class == "") ≡ false
      → (provision req class w h).0 ≡ ok (volume_of req)
  unfolding provision get_sc_by_name ◌>>=◌
  provision-ok req h full = grind (arith, connect-ok, ensure_pvc-ok, accepts.class-there)

  require_storage_class-ok :
      (req : CreateVolumeRequest) (h : History)
      → backend_storage_class (w.range h req.parameters) "" ≡ some class
      → (class == "") ≡ false
      → (require_storage_class req.parameters w h).0 ≡ ok class
  unfolding require_storage_class ◌>>=◌
  require_storage_class-ok req h e full = ground arith

  capabilities-ok :
      (caps : List Access) (h : History)
      → is_empty caps ≡ false
      → all_accessible caps ≡ true
      → is_valid_volume_capabilities caps w h ≡ (ok tt, h)
  unfolding is_valid_volume_capabilities ◌>>=◌
  capabilities-ok [] h some_there each = cc
  capabilities-ok (c ∷ caps) h some_there each = ground arith

  storage_class-pure :
      (parameters : Dict String) (h : History) → (require_storage_class parameters w h).1 ≡ h
  unfolding require_storage_class ◌>>=◌
  storage_class-pure parameters h = ground arith

  -- Creating a volume succeeds for every acceptable request that names a storage class the cluster has,
  -- where the API server can be reached, answers look-ups, and accepts the creation of a PVC that was
  -- just found missing.
  pub create_volume-ok :
      (req : CreateVolumeRequest) (h : History)
      → IsAcceptable req
      → backend_storage_class (w.range h req.parameters) "" ≡ some class
      → (class == "") ≡ false
      → (create_volume req w h).0 ≡ ok (volume_of req)
  unfolding create_volume validate_controller_service_request require_text ◌>>=◌
  create_volume-ok req h fine e full = grind (
    arith,
    capabilities-ok req.volume_capabilities h fine.1 fine.2,
    require_storage_class-ok req h e full,
    provision-ok,
    storage_class-pure req.parameters h,
  )

  -- Deleting a volume that has an id succeeds where the API server accepts what it is sent, whether the
  -- volume's PVC is there or not.
  pub delete_volume-ok :
      (id : String) (h : History) → (id == "") ≡ false → (delete_volume id w h).0 ≡ ok tt
  unfolding delete_volume validate_controller_service_request require_text
      get_subprovider_pvc_by_name tolerate ◌>>=◌
  delete_volume-ok id h full =
      grind (arith, connect-ok, delete_subprovider_pvc-ok, accepts.get-answered)
