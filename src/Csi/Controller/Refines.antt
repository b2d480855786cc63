-- ===== src/Csi/Controller/Refines.antt =====
-- `CreateVolume` and `DeleteVolume` of pkg/csi-driver/controller.go, as operations on a set of PVCs.
use open_cas_csi.Prelude.{
  ◌≡◌, refl, sym, ◌∙◌, ap, String, Bool, true, false, Option, none, some, List, [], ◌∷◌, ◌==◌,
  arith, inl, inr, eq_iff, if◌then◌else◌, Bool-cases,
}
use open_cas_csi.World.{World, History, Call, Pvc}
use open_cas_csi.Effect.{◌>>=◌, ◌>>◌, M, ok, fail_if, on_option, pure, attempt}
use open_cas_csi.Keeps.{Keeps, keeps_rules, Keeps-bind, Keeps-locked, Keeps-fail_if, Keeps-pure}
use open_cas_csi.Success.{bind-ok}
use open_cas_csi.K8sUtils.Settings.{protected_namespace}
use open_cas_csi.K8sUtils.Objects.{named_pvc, get_subprovider_pvc_by_name, delete_subprovider_pvc}
use open_cas_csi.OpenCas.Footprint.{connect-Keeps}
use open_cas_csi.Csi.Types.{Code, internal, get_pvc_name_for_pv, is_failure}
use open_cas_csi.Csi.Checks.{require_text-Keeps, validate-Keeps, tolerate-Keeps}
use open_cas_csi.Csi.Controller.{
  CreateVolumeRequest, Volume, create_volume, delete_volume, tolerate,
}
use open_cas_csi.Csi.Controller.Store.{present, IsServer}
use open_cas_csi.Csi.Controller.Stays.{
  Stays, reads, lock-Stays, unlock-Stays, create_volume-Stays, delete_subprovider_pvc-Stays,
}
use open_cas_csi.Csi.Controller.Present.{
  full_name, forget, looked_up, looked_up-named, create_volume-present, delete_volume-present,
}

-- What deleting a volume does to the other PVCs.
module _ (initial : String → Bool) (other : String) (before : Bool) where
  module _ (name : String) (full : (name == "") ≡ false) (apart : (name == other) ≡ false) where
    tolerated-Stays :
        (found : String)
        → (found == other) ≡ false
        → Keeps
            (Stays initial other before)
            (attempt (delete_subprovider_pvc found) >>= λ d. tolerate d internal)
    tolerated-Stays found e =
        search (keeps_rules, delete_subprovider_pvc-Stays initial other before, tolerate-Keeps)
          depth 9

    rest-Stays :
        (r : Option Pvc × Option String)
        → ((found : Pvc) → r.0 ≡ some found → (found.name == other) ≡ false)
        → Keeps (Stays initial other before) (
            fail_if (is_failure r.1) internal
            >> on_option r.0
                (pure tt)
                (λ found. attempt (delete_subprovider_pvc found.name) >>= λ d. tolerate d internal))
    unfolding on_option
    rest-Stays (none, e) apart_found =
        Keeps-bind _ _ (Keeps-fail_if (is_failure e) internal) (λ _. Keeps-pure tt)
    rest-Stays (some pvc, e) apart_found =
        Keeps-bind _ _ (Keeps-fail_if (is_failure e) internal)
          (λ _. tolerated-Stays pvc.name (apart_found pvc refl))

    forget-Stays : Keeps (Stays initial other before) (forget name)
    unfolding get_subprovider_pvc_by_name ◌>>=◌
    forget-Stays = record {
      at = λ w h p.
          (rest-Stays
              (named_pvc (looked_up initial w p.0 name h).0, (looked_up initial w p.0 name h).1)
              (λ found e. elim (looked_up-named initial w p.0 name h _ full refl) [
                | inl (is_named, is_name, there) ↦ grind arith
                | inr (missing, _) ↦ cc
              ])).at
            w (Call.get_pvc (protected_namespace w) name ∷ h) p;
    }

  delete_volume-Stays :
      (id : String)
      → (get_pvc_name_for_pv id == other) ≡ false
      → Keeps (Stays initial other before) (delete_volume id)
  unfolding delete_volume
  delete_volume-Stays id apart = Keeps-bind _ _ (validate-Keeps _ _) (λ _.
      Keeps-bind _ _ (require_text-Keeps _ _) (λ _.
        Keeps-locked id _ (lock-Stays initial other before id)
          (unlock-Stays initial other before id)
          (Keeps-bind _ _ (connect-Keeps (reads initial other before) internal)
            (λ _. forget-Stays (get_pvc_name_for_pv id) (full_name id) apart))))

-- One request of the orchestrator.
pub data Request : Type 0 where
  create : CreateVolumeRequest → Request
  delete : (volume_id : String) → Request

-- The requests, one after the other; a refused one ends the run.
abbrev pub run : List Request → M Code Unit
run [] = pure tt
run (create req ∷ more) = create_volume req >>= λ _. run more
run (delete id ∷ more) = delete_volume id >>= λ _. run more

-- The same requests on a set of names.
abbrev pub replay : List Request → (String → Bool) → String → Bool
replay [] f name = f name
replay (create req ∷ more) f name =
    replay more (λ n. if get_pvc_name_for_pv req.name == n then true else f n) name
replay (delete id ∷ more) f name =
    replay more (λ n. if get_pvc_name_for_pv id == n then false else f n) name

module _ (initial : String → Bool) (w : World) (server : IsServer initial w) where
  create_volume-update :
      (req : CreateVolumeRequest) (h : History) (v : Volume)
      → (create_volume req w h).0 ≡ ok v
      → (name : String)
      → present initial w name (create_volume req w h).1
        ≡ (if get_pvc_name_for_pv req.name == name then true else present initial w name h)
  create_volume-update req h v e name = elim (Bool-cases (get_pvc_name_for_pv req.name == name)) [
    | inl same ↦ rw same (
        ap (λ n. present initial w n (create_volume req w h).1) (sym ((eq_iff _ _).0 same))
        ∙ create_volume-present initial w server req h v e)
    | inr apart ↦
        rw apart
          ((create_volume-Stays initial name (present initial w name h) req apart).at w h
            (server, refl)).1
  ]

  delete_volume-update :
      (id : String) (h : History)
      → (delete_volume id w h).0 ≡ ok tt
      → (name : String)
      → present initial w name (delete_volume id w h).1
        ≡ (if get_pvc_name_for_pv id == name then false else present initial w name h)
  delete_volume-update id h e name = elim (Bool-cases (get_pvc_name_for_pv id == name)) [
    | inl same ↦ rw same (
        ap (λ n. present initial w n (delete_volume id w h).1) (sym ((eq_iff _ _).0 same))
        ∙ delete_volume-present initial w server id h e)
    | inr apart ↦
        rw apart
          ((delete_volume-Stays initial name (present initial w name h) id apart).at w h
            (server, refl)).1
  ]

-- Any run of requests that all succeed leaves exactly the PVCs that the same requests leave of a set of
-- names: a creation adds the name of its volume's PVC, a deletion takes it out. The API server is supposed
-- to answer by the PVCs that it has, to which nobody else adds and from which nobody else takes.
pub run-replay :
    (initial : String → Bool) (w : World) (server : IsServer initial w) (requests : List Request)
    (h : History)
    → (run requests w h).0 ≡ ok tt
    → (name : String)
    → present initial w name (run requests w h).1
      ≡ replay requests (λ n. present initial w n h) name
unfolding pure
run-replay initial w server [] h e name = refl
run-replay initial w server (create req ∷ more) h e name =
    let done = bind-ok (create_volume req) (λ _. run more) w h tt e in
    ap (present initial w name) done.3
    ∙ run-replay initial w server more _ done.2 name
    ∙ ap (λ f. replay more f name)
        (λ i n. create_volume-update initial w server req h done.0 done.1 n i)
run-replay initial w server (delete id ∷ more) h e name =
    let done = bind-ok (delete_volume id) (λ _. run more) w h tt e in
    ap (present initial w name) done.3
    ∙ run-replay initial w server more _ done.2 name
    ∙ ap (λ f. replay more f name) (λ i n. delete_volume-update initial w server id h done.1 n i)
