-- ===== src/Tests/Store.antt =====
-- The theorem about volumes as a set of PVCs, applied: an API server that keeps its PVCs and accepts
-- every request.
use open_cas_csi.Prelude.{
  ◌≡◌, refl, ◌∙◌, String, Bool, true, false, Option, none, some, List, [], ◌∷◌, ◌==◌, ◌&&◌, not,
  is_some, if◌then◌else◌, arith,
}
use open_cas_csi.Prelude.Int.{pos}
use open_cas_csi.World.{World, History, Call, Response, Pvc}
use open_cas_csi.Effect.{ok, ◌>>=◌}
use open_cas_csi.K8sUtils.Settings.{protected_namespace, configured}
use open_cas_csi.Prelude.Dict.{lookup, erase}
use open_cas_csi.K8sUtils.Objects.{
  new_k8s_utils, get_sc_by_name, get_subprovider_pvc_by_name, delete_subprovider_pvc, unprotect_pvc,
  unless_missing, named_pvc,
}
use open_cas_csi.K8sUtils.Create.{create_subprovider_pvc}
use open_cas_csi.Csi.Types.{is_failure, block, require_text, get_pvc_name_for_pv}
use open_cas_csi.Csi.Controller.{
  CreateVolumeRequest, create_volume, delete_volume, validate_controller_service_request,
  is_valid_volume_capabilities, require_storage_class, backend_storage_class, eq_lower,
  all_accessible, provision, ensure_pvc, tolerate,
}
use open_cas_csi.Csi.Controller.Store.{present, says_missing, IsServer}
use open_cas_csi.Csi.Controller.Succeeds.{Accepts}
use open_cas_csi.Csi.Controller.Serves.{run-serves}
use open_cas_csi.Csi.Controller.Refines.{Request, create, delete, run, replay, run-replay}
use open_cas_csi.Tests.Worlds.{answers, pvc}

abbrev request : String → CreateVolumeRequest
request name = record {
  name = name;
  volume_capabilities = block ∷ [];
  parameters = ("backend-sc-name", "backend") ∷ [];
  required_bytes = pos 1024;
  limit_bytes = pos 0;
}

-- The server refuses to create a PVC that it has, and to delete one that it has not.
abbrev exists_already : Bool → Option String
exists_already true = some "already exists"
exists_already false = none

abbrev is_missing : Bool → Option String
is_missing true = none
is_missing false = some "not found"

-- The PVCs that the server keeps.
abbrev there : History → String → Bool
there [] name = false
there (Call.create_pvc ns created ∷ h) name =
    let before = there h name in
    let refused = is_some (exists_already (there h created.name)) in
    if (ns == "value") && ((created.name == name) && not refused) then true else before
there (Call.delete_pvc ns deleted ∷ h) name =
    let before = there h name in
    let refused = is_some (is_missing (there h deleted)) in
    if (ns == "value") && ((deleted == name) && not refused) then false else before
there (_ ∷ h) name = there h name

abbrev looked_up : Bool → String → Pvc × Option String
looked_up true name = (record pvc { name = name }, none)
looked_up false name = (record pvc { name = "" }, some "not found")

abbrev kept : History → (c : Call) → Response c
kept h (Call.create_pvc ns created) = exists_already (there h created.name)
kept h (Call.delete_pvc ns name) = is_missing (there h name)
kept h (Call.get_pvc ns name) = looked_up (there h name) name
kept h c = answers false c

abbrev store : World
store = record { getenv = λ _. "value"; range = λ _ m. m; answer = kept }

abbrev nothing : String → Bool
nothing _ = false

there-present : (h : History) (name : String) → present nothing store name h ≡ there h name
unfolding protected_namespace configured
there-present [] name = refl
there-present (Call.create_pvc ns created ∷ h) name = ground (arith, there-present h name)
there-present (Call.delete_pvc ns deleted ∷ h) name = ground (arith, there-present h name)
there-present (_ ∷ h) name = there-present h name

looked_up-there :
    (b : Bool) (name : String)
    → (looked_up b name).1 ≡ none
    → (b ≡ true) × ((looked_up b name).0.name ≡ name)
looked_up-there true name e = (refl, refl)
looked_up-there false name e = cc

looked_up-empty :
    (b : Bool) (name text : String)
    → (looked_up b name).1 ≡ some text
    → (looked_up b name).0.name ≡ ""
looked_up-empty true name text e = cc
looked_up-empty false name text e = refl

looked_up-missing :
    (b : Bool) (name : String) → says_missing (looked_up b name).1 ≡ true → b ≡ false
looked_up-missing true name e = cc
looked_up-missing false name e = refl

is_missing-says : (b : Bool) → says_missing (is_missing b) ≡ true → b ≡ false
is_missing-says true e = cc
is_missing-says false e = refl

refusal-missing :
    (b : Bool) (name : String)
    → named_pvc (looked_up b name).0 ≡ none
    → (name == "") ≡ false
    → exists_already b ≡ none
refusal-missing true name e full = ground arith
refusal-missing false name e full = refl

refusal-there : (b : Bool) (name : String) → (looked_up b name).1 ≡ none → is_missing b ≡ none
refusal-there true name e = refl
refusal-there false name e = cc

store-IsServer : IsServer nothing store
unfolding protected_namespace configured
store-IsServer = record {
  get-present = λ h name e.
      let found = looked_up-there (there h name) name e in
      (there-present h name ∙ found.0, found.1);
  get-absent = λ h name text e. looked_up-empty (there h name) name text e;
  get-missing = λ h name e. there-present h name ∙ looked_up-missing (there h name) name e;
  update-missing = λ h updated e. cc;
  delete-missing = λ h name e. there-present h name ∙ is_missing-says (there h name) e;
}

abbrev requests : List Request
requests = create (request "a") ∷ create (request "b") ∷ delete "a" ∷ []

run-replay_example :
    present nothing store "opencas-csi-a" (run requests store []).1
    ≡ replay requests (λ name. present nothing store name []) "opencas-csi-a"
unfolding ◌>>=◌ create_volume delete_volume validate_controller_service_request require_text
    is_valid_volume_capabilities require_storage_class backend_storage_class eq_lower provision
    new_k8s_utils get_sc_by_name ensure_pvc get_subprovider_pvc_by_name create_subprovider_pvc
    protected_namespace configured get_pvc_name_for_pv delete_subprovider_pvc unprotect_pvc
    unless_missing tolerate lookup erase
run-replay_example = run-replay nothing store store-IsServer requests [] refl "opencas-csi-a"

looked_up-answered : (b : Bool) (name : String) → is_failure (looked_up b name).1 ≡ false
looked_up-answered true name = refl
looked_up-answered false name = refl

store-Accepts : Accepts store "backend"
store-Accepts = record {
  config-accepted = λ h. refl;
  client-accepted = λ h. refl;
  class-there = λ h. refl;
  get-answered = λ h ns name. looked_up-answered (there h name) name;
  create-accepted =
      λ h ns created full e. refusal-missing (there h created.name) created.name e full;
  update-accepted = λ h ns name labels e. refl;
  delete-accepted = λ h ns name e. refusal-there (there h name) name e;
  updated-delete-accepted = λ h ns name labels e. refusal-there (there h name) name e;
}

run-serves_example :
    ((run requests store []).0 ≡ ok tt)
    × (present nothing store "opencas-csi-b" (run requests store []).1
        ≡ replay requests (λ name. present nothing store name []) "opencas-csi-b")
unfolding backend_storage_class eq_lower all_accessible
run-serves_example =
    run-serves nothing store "backend" store-IsServer store-Accepts refl requests []
      (((refl, refl, refl), λ h. refl), (((refl, refl, refl), λ h. refl), (refl, tt)))
      "opencas-csi-b"
