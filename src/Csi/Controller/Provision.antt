-- ===== src/Csi/Controller/Provision.antt =====
-- What `CreateVolume` of pkg/csi-driver/controller.go does with the PVC behind a volume, and what it returns.
use open_cas_csi.Prelude.{
  ◌≡◌, refl, ap, inl, inr, Bool-cases, if◌then◌else◌, String, Bool, true, false, Option, none, some,
  List, [], ◌∷◌, ◌==◌, arith, is_empty, ◌⊎◌,
}
use mathlib.Core.Path.{subst⁻¹}
use open_cas_csi.World.{World, History, Call, Pvc}
use open_cas_csi.Effect.{
  ◌>>=◌, M, ok, err, fail, locked, range_over, fail_if, on_option, or_fail, pure,
}
use open_cas_csi.Keeps.{Keeps, Allows, keeps_rules}
use open_cas_csi.Success.{bind-ok, locked-ok}
use open_cas_csi.K8sUtils.Settings.{protected_namespace}
use open_cas_csi.K8sUtils.Objects.{named_pvc, get_subprovider_pvc_by_name}
use open_cas_csi.Prelude.Int.{ℤ}
use open_cas_csi.K8sUtils.Specs.{is_positive}
use open_cas_csi.K8sUtils.Create.{create_subprovider_pvc, subprovider_pvc}
use open_cas_csi.OpenCas.Footprint.{is_read, AllowsReads, connect-Keeps, get_sc_by_name-Keeps}
use open_cas_csi.Csi.Types.{
  Code, invalid_argument, internal, Access, require_text, get_pvc_name_for_pv,
}
use open_cas_csi.Csi.Checks.{require_text-Keeps, validate-Keeps, capabilities-Keeps}
use open_cas_csi.Csi.Controller.{
  CreateVolumeRequest, Volume, backend_storage_class, require_storage_class, volume_of, pvc_config,
  ensure_pvc, provision, create_volume, validate_controller_service_request,
  is_valid_volume_capabilities, all_accessible,
}

-- The latest call asked for this PVC, and it was not there.
abbrev pub WasMissing : World → (ns name : String) → History → Type 0
WasMissing w ns name (Call.get_pvc ns' asked ∷ h) =
    (ns' ≡ ns) × (asked ≡ name) × (named_pvc (w.answer h (Call.get_pvc ns' asked)).0 ≡ none)
WasMissing w ns name _ = ⊥

-- The storage class that the parameters name, in whichever order they are read; it is not empty.
abbrev pub IsClass : CreateVolumeRequest → World → (class : String) → Type 0
IsClass req w class =
    (h : History) × (backend_storage_class (w.range h req.parameters) "" ≡ some class)
    × ((class == "") ≡ false)

abbrev if_positive : ℤ → Option ℤ
if_positive n = if is_positive n then some n else none

-- The PVC that a request describes: its sizes where they are positive, a raw device of the class that
-- its parameters name, and the label that protects it.
abbrev pub IsDescribed : CreateVolumeRequest → World → Pvc → Type 0
IsDescribed req w pvc =
    (pvc.name ≡ get_pvc_name_for_pv req.name)
    × (pvc.labels ≡ ("csi.open-cas.com/protected", "") ∷ [])
    × IsClass req w pvc.spec.storage_class_name
    × (pvc.spec.access_modes ≡ "ReadWriteOnce" ∷ [])
    × (pvc.spec.volume_mode ≡ "Block")
    × (pvc.spec.request ≡ if_positive req.required_bytes)
    × (pvc.spec.limit ≡ if_positive req.limit_bytes)

-- Every PVC that was created is the one for this request, in the driver's namespace, and was missing there
-- just before.
abbrev pub CreatesMissing : CreateVolumeRequest → World → History → Type 0
CreatesMissing req w [] = Unit
CreatesMissing req w (Call.create_pvc ns pvc ∷ h) =
    IsDescribed req w pvc
    × (ns ≡ protected_namespace w)
    × WasMissing w ns (get_pvc_name_for_pv req.name) h
    × CreatesMissing req w h
CreatesMissing req w (_ ∷ h) = CreatesMissing req w h

module _ (req : CreateVolumeRequest) where
  -- While the storage class is known
  abbrev Classed : (sc : String) → World → History → Type 0
  Classed sc w h = IsClass req w sc × CreatesMissing req w h

  class_of : (sc : String) → (subprovider_pvc (pvc_config req sc)).spec.storage_class_name ≡ sc
  unfolding subprovider_pvc
  class_of sc = ground arith

  described :
      (sc : String) (w : World)
      → IsClass req w sc
      → IsDescribed req w (subprovider_pvc (pvc_config req sc))
  unfolding subprovider_pvc
  described sc w class = (
    refl,
    refl,
    subst⁻¹ (IsClass req w) (class_of sc) class,
    ground arith,
    ground arith,
    ground arith,
    ground arith,
  )

  read-Allows : (sc : String) (c : Call) → is_read c ≡ true → Allows (Classed sc) c
  read-Allows sc (Call.create_pvc ns pvc) e = cc
  read-Allows sc _ e = record { step = λ w h p. p }

  reads : (sc : String) → AllowsReads (Classed sc)
  reads sc = record { read = read-Allows sc }

  lock-Allows : (key : String) → Allows (CreatesMissing req) (Call.lock key)
  lock-Allows key = record { step = λ w h p. p }

  unlock-Allows : (key : String) → Allows (CreatesMissing req) (Call.unlock key)
  unlock-Allows key = record { step = λ w h p. p }

  after_get :
      (sc : String) (w : World) (h : History) (b : Bool) (o : Option Pvc)
      → Classed sc w h
      → named_pvc
          (w.answer h (Call.get_pvc (protected_namespace w) (get_pvc_name_for_pv req.name))).0
        ≡ o
      → Classed sc w
          ((fail_if b internal >>= λ _.
              on_option o
                (or_fail (create_subprovider_pvc (pvc_config req sc)) internal)
                (λ _. pure tt))
            w
            (Call.get_pvc (protected_namespace w) (get_pvc_name_for_pv req.name) ∷ h)).1
  unfolding create_subprovider_pvc ◌>>=◌
  after_get sc w h true o p e = p
  after_get sc w h false none p e = (p.0, (described sc w p.0, refl, (refl, refl, e), p.1))
  after_get sc w h false (some pvc) p e = p

  ensure_pvc-Keeps : (sc : String) → Keeps (Classed sc) (ensure_pvc req sc)
  unfolding ensure_pvc get_subprovider_pvc_by_name ◌>>=◌
  ensure_pvc-Keeps sc = record { at = λ w h p. after_get sc w h _ _ p refl }

  provision-Keeps : (sc : String) → Keeps (Classed sc) (provision req sc)
  unfolding provision
  provision-Keeps sc =
      search
        (keeps_rules, connect-Keeps (reads sc), get_sc_by_name-Keeps (reads sc), ensure_pvc-Keeps)
        depth 10

  -- The class that the parameters name is known where it is used.
  classed :
      (w : World) (h : History) (o : Option String)
      → backend_storage_class (w.range h req.parameters) "" ≡ o
      → CreatesMissing req w h
      → CreatesMissing req w
          ((on_option o
                (fail invalid_argument)
                (λ sc. if sc == "" then fail invalid_argument else pure sc)
              >>= λ sc. locked req.name (provision req sc))
            w h).1
  unfolding on_option ◌>>=◌ fail pure locked
  classed w h none e p = p
  classed w h (some sc) e p = elim (Bool-cases (sc == "")) [
    | inl empty ↦ rw empty p
    | inr full ↦ rw full (((provision-Keeps sc).at w (Call.lock req.name ∷ h) ((h, e, full), p)).1)
  ]

  provision_classed-Keeps :
      Keeps
        (CreatesMissing req)
        (require_storage_class req.parameters >>= λ sc. locked req.name (provision req sc))
  unfolding require_storage_class range_over ◌>>=◌
  provision_classed-Keeps = record { at = λ w h p. classed w h _ refl p }

  create_volume-Keeps : Keeps (CreatesMissing req) (create_volume req)
  unfolding create_volume
  create_volume-Keeps =
      search
        (
          keeps_rules, validate-Keeps, require_text-Keeps, capabilities-Keeps,
          provision_classed-Keeps,
        )
        depth 10

pub create_volume-CreatesMissing :
    (req : CreateVolumeRequest) (w : World) (h : History)
    → CreatesMissing req w h
    → CreatesMissing req w (create_volume req w h).1
create_volume-CreatesMissing req = (create_volume-Keeps req).at

provision-volume :
    (req : CreateVolumeRequest) (sc : String) (w : World) (h : History) (v : Volume)
    → (provision req sc w h).0 ≡ ok v
    → v ≡ volume_of req
unfolding provision ◌>>=◌
provision-volume req sc w h v e = grind arith

-- What a request must be like.
abbrev pub IsAcceptable : CreateVolumeRequest → Type 0
IsAcceptable req =
    ((req.name == "") ≡ false)
    × (is_empty req.volume_capabilities ≡ false)
    × (all_accessible req.volume_capabilities ≡ true)

capabilities-ok :
    (caps : List Access) (w : World) (h : History)
    → (is_valid_volume_capabilities caps w h).0 ≡ ok tt
    → (is_empty caps ≡ false) × (all_accessible caps ≡ true)
unfolding is_valid_volume_capabilities ◌>>=◌
capabilities-ok [] w h e = cc
capabilities-ok (c ∷ caps) w h e = ground arith

require_text-ok :
    (s : String) (w : World) (h : History) → (require_text s w h).0 ≡ ok tt → (s == "") ≡ false
unfolding require_text ◌>>=◌
require_text-ok s w h e = ground arith

-- When creating a volume succeeds, the request has a name and capabilities, each with an access
-- type, and the volume has the name as its id, the size required as its capacity and the parameters as
-- its context.
pub create_volume-volume_of :
    (req : CreateVolumeRequest) (w : World) (h : History) (v : Volume)
    → (create_volume req w h).0 ≡ ok v
    → IsAcceptable req
      × (v.volume_id ≡ req.name)
      × (v.capacity_bytes ≡ req.required_bytes)
      × (v.volume_context ≡ req.parameters)
unfolding create_volume
create_volume-volume_of req w h v e =
    let checked = bind-ok _ _ w h v e in
    let named = bind-ok _ _ w _ v checked.2 in
    let capable = bind-ok _ _ w _ v named.2 in
    let classed = bind-ok _ _ w _ v capable.2 in
    let caps = capabilities-ok req.volume_capabilities w _ capable.1 in
    let made = provision-volume req classed.0 w _ v (locked-ok req.name _ w _ v classed.2) in
    (
      (require_text-ok req.name w _ named.1, caps.0, caps.1),
      ap (λ v. v.volume_id) made,
      ap (λ v. v.capacity_bytes) made,
      ap (λ v. v.volume_context) made,
    )

refused :
    (name : String) (caps : List Access) (k : M Code Volume) (w : World) (h : History)
    → ((name == "") ≡ true) ⊎ ((is_empty caps ≡ true) ⊎ (all_accessible caps ≡ false))
    → (require_text name >>= λ _. is_valid_volume_capabilities caps >>= λ _. k) w h
      ≡ (err invalid_argument, h)
unfolding require_text is_valid_volume_capabilities ◌>>=◌
refused name [] k w h bad = ground arith
refused name (c ∷ caps) k w h bad = ground arith

-- A request without a name, without capabilities or with one that has no access type is refused as
-- an invalid argument before anything is called.
pub create_volume-refused :
    (req : CreateVolumeRequest) (w : World) (h : History)
    → ((req.name == "") ≡ true)
      ⊎ ((is_empty req.volume_capabilities ≡ true)
          ⊎ (all_accessible req.volume_capabilities ≡ false))
    → create_volume req w h ≡ (err invalid_argument, h)
unfolding create_volume validate_controller_service_request ◌>>=◌
create_volume-refused req w h bad = refused req.name req.volume_capabilities _ w h bad
