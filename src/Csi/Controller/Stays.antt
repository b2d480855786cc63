-- ===== src/Csi/Controller/Stays.antt =====
-- What the handlers of pkg/csi-driver/controller.go leave as it is: the PVCs under other names.
use open_cas_csi.Prelude.{◌≡◌, String, Bool, true, false, ◌==◌, arith}
use open_cas_csi.World.{World, History, Call, Pvc}
use open_cas_csi.Keeps.{Keeps, Allows, keeps_rules}
use open_cas_csi.K8sUtils.Objects.{delete_subprovider_pvc, unprotect_pvc, unless_missing}
use open_cas_csi.K8sUtils.Create.{create_subprovider_pvc}
use open_cas_csi.OpenCas.Footprint.{
  Allows-read, is_read, AllowsReads, connect-Keeps, get_sc_by_name-Keeps,
  get_subprovider_pvc_by_name-Keeps,
}
use open_cas_csi.Csi.Types.{get_pvc_name_for_pv}
use open_cas_csi.Csi.Checks.{
  require_text-Keeps, validate-Keeps, capabilities-Keeps, require_storage_class-Keeps,
}
use open_cas_csi.Csi.Controller.{
  CreateVolumeRequest, pvc_config, ensure_pvc, provision, create_volume,
}
use open_cas_csi.Csi.Controller.Store.{present, IsServer}

module _ (initial : String → Bool) (name : String) (before : Bool) where
  -- The server keeps its laws, and whether the PVC is there stays the same.
  abbrev pub Stays : World → History → Type 0
  Stays w h = IsServer initial w × (present initial w name h ≡ before)

  read-Stays : (c : Call) → is_read c ≡ true → Allows Stays c
  read-Stays (Call.create_pvc ns pvc) e = cc
  read-Stays (Call.delete_pvc ns other) e = cc
  read-Stays _ e = record { step = λ w h p. p }

  pub reads : AllowsReads Stays
  reads = record { read = read-Stays }

  pub lock-Stays : (key : String) → Allows Stays (Call.lock key)
  lock-Stays key = record { step = λ w h p. p }

  pub unlock-Stays : (key : String) → Allows Stays (Call.unlock key)
  unlock-Stays key = record { step = λ w h p. p }

  update-Stays : (ns : String) (pvc : Pvc) → Allows Stays (Call.update_pvc ns pvc)
  update-Stays ns pvc = record { step = λ w h p. p }

  create-Stays :
      (ns : String) (pvc : Pvc) → (pvc.name == name) ≡ false → Allows Stays (Call.create_pvc ns pvc)
  create-Stays ns pvc e = record { step = λ w h p. (p.0, ground arith) }

  delete-Stays :
      (ns other : String) → (other == name) ≡ false → Allows Stays (Call.delete_pvc ns other)
  delete-Stays ns other e = record { step = λ w h p. (p.0, ground arith) }

  module _ (req : CreateVolumeRequest)
      (apart : (get_pvc_name_for_pv req.name == name) ≡ false) where
    create_subprovider_pvc-Stays :
        (sc : String) → Keeps Stays (create_subprovider_pvc (pvc_config req sc))
    unfolding create_subprovider_pvc
    create_subprovider_pvc-Stays sc = search (keeps_rules, create-Stays, apart)

    ensure_pvc-Stays : (sc : String) → Keeps Stays (ensure_pvc req sc)
    unfolding ensure_pvc
    ensure_pvc-Stays sc =
        search (keeps_rules, get_subprovider_pvc_by_name-Keeps reads, create_subprovider_pvc-Stays)
          depth 9

    provision-Stays : (sc : String) → Keeps Stays (provision req sc)
    unfolding provision
    provision-Stays sc =
        search (keeps_rules, connect-Keeps reads, get_sc_by_name-Keeps reads, ensure_pvc-Stays)
          depth 10

    pub create_volume-Stays : Keeps Stays (create_volume req)
    unfolding create_volume
    create_volume-Stays =
        search
          (
            keeps_rules, lock-Stays, unlock-Stays, validate-Keeps, require_text-Keeps,
            capabilities-Keeps, require_storage_class-Keeps, provision-Stays,
          )
          depth 10

  pub delete_subprovider_pvc-Stays :
      (other : String) → (other == name) ≡ false → Keeps Stays (delete_subprovider_pvc other)
  unfolding delete_subprovider_pvc unprotect_pvc unless_missing
  delete_subprovider_pvc-Stays other apart =
      search (keeps_rules, Allows-read reads, update-Stays, delete-Stays, apart) depth 12
