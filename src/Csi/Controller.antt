-- ===== src/Csi/Controller.antt =====
-- pkg/csi-driver/controller.go: the controller service.
pub mod Provision
pub mod Store
pub mod Stays
pub mod Present
pub mod Refines
pub mod Succeeds
pub mod Serves
use Prim.Native.Nat.{◌+◌}
use open_cas_csi.Prelude.{
  ℕ, String, Bool, true, false, Option, none, some, List, [], ◌∷◌, ◌==◌, eqb, leb, not, ◌&&◌,
  if◌then◌else◌, is_some,
}
use open_cas_csi.Prelude.Int.{ℤ}
use open_cas_csi.Prelude.Dict.{Dict}
use open_cas_csi.Prelude.Text.{contains, codes}
use open_cas_csi.Effect.{
  on_option, M, pure, fail, ◌>>=◌, ◌>>◌, fail_if, fail_on, or_fail, attempt, Try, value, error,
  locked, range_over,
}
use open_cas_csi.K8sUtils.Objects.{
  new_k8s_utils, get_subprovider_pvc_by_name, get_sc_by_name, delete_subprovider_pvc,
}
use open_cas_csi.K8sUtils.Create.{create_subprovider_pvc}
use open_cas_csi.K8sUtils.Specs.{PvcConfig}
use open_cas_csi.Csi.Types.{
  Code, invalid_argument, internal, not_found, Access, is_unset, get_pvc_name_for_pv, is_failure,
  require_text,
}

-- `csi.ControllerServiceCapability_RPC_Type`, by its numbers in the CSI specification
pub data RpcType : Type 0 where
  rpc : ℕ → RpcType

abbrev pub unknown_rpc : RpcType
unknown_rpc = rpc 0

abbrev pub create_delete_volume : RpcType
create_delete_volume = rpc 1

abbrev pub publish_unpublish_volume : RpcType
publish_unpublish_volume = rpc 2

abbrev pub single_node_multi_writer : RpcType
single_node_multi_writer = rpc 13

abbrev eq_rpc : RpcType → RpcType → Bool
eq_rpc (rpc m) (rpc n) = eqb m n

unfoldable pub controller_capabilities : List RpcType
controller_capabilities =
    create_delete_volume ∷ publish_unpublish_volume ∷ single_node_multi_writer ∷ []

-- The loop over the capabilities.
unfoldable pub has_capability : RpcType → List RpcType → Bool
has_capability c [] = false
has_capability c (cap ∷ caps) = if eq_rpc c cap then true else has_capability c caps

unfoldable pub validate_controller_service_request : RpcType → M Code Unit
unfolding controller_capabilities has_capability
validate_controller_service_request c =
    if eq_rpc c unknown_rpc
    then pure tt
    else if has_capability c controller_capabilities
    then pure tt
    else fail invalid_argument

-- `isValidVolumeCapabilities`; a nil slice and an empty one are refused alike.
unfoldable pub all_accessible : List Access → Bool
all_accessible [] = true
all_accessible (c ∷ caps) = if is_unset c then false else all_accessible caps

unfoldable pub is_valid_volume_capabilities : List Access → M Code Unit
unfolding all_accessible
is_valid_volume_capabilities [] = fail invalid_argument
is_valid_volume_capabilities (c ∷ caps) =
    if all_accessible (c ∷ caps) then pure tt else fail invalid_argument

pub record CreateVolumeRequest : Type 0 where
  pub name : String
  pub volume_capabilities : List Access
  pub parameters : Dict String
  pub required_bytes : ℤ
  pub limit_bytes : ℤ

pub record Volume : Type 0 where
  pub volume_id : String
  pub capacity_bytes : ℤ
  pub volume_context : Dict String

-- `strings.ToLower` on a code point, as far as the answer is ASCII: the capital letters, U+0130 and
-- the Kelvin sign. Every other code point stays outside the letters of the parameter's name.
unfoldable pub to_lower : ℕ → ℕ
to_lower c =
    if leb 65 c && leb c 90
    then c + 32
    else if eqb c 0x130
    then 105
    else if eqb c 0x212a
    then 107
    else c

-- `strings.ToLower(k) == name`, for a `name` in lower case
unfoldable pub eq_lower : (k name : List ℕ) → Bool
unfolding to_lower
eq_lower [] [] = true
eq_lower (c ∷ k) (d ∷ name) = eqb (to_lower c) d && eq_lower k name
eq_lower _ _ = false

abbrev pub backend_sc_param : String
backend_sc_param = "backend-sc-name"

abbrev pub is_backend_param : String → Bool
is_backend_param k = eq_lower (codes k) (codes backend_sc_param)

-- `for k, v := range parameters`: the last value of the one valid parameter, or a refusal.
unfoldable pub backend_storage_class : Dict String → (sc : String) → Option String
backend_storage_class [] sc = some sc
backend_storage_class ((k, v) ∷ more) sc =
    let rest = backend_storage_class more v in if is_backend_param k then rest else none

-- A refusal, or a class that is empty or missing, is an invalid argument.
unfoldable pub require_storage_class : Dict String → M Code String
require_storage_class parameters = do
  entries ← range_over parameters
  on_option (backend_storage_class entries "") (fail invalid_argument)
      (λ sc. if sc == "" then fail invalid_argument else pure sc)

-- The config of the PVC that stands behind the volume.
abbrev pub pvc_config : CreateVolumeRequest → (storage_class : String) → PvcConfig
pvc_config req storage_class = record {
  storage_class_name = storage_class;
  params = req.parameters;
  name = get_pvc_name_for_pv req.name;
  required_bytes = req.required_bytes;
  limit_bytes = req.limit_bytes;
}

-- The PVC is created unless it is there.
unfoldable pub ensure_pvc : CreateVolumeRequest → (storage_class : String) → M Code Unit
ensure_pvc req storage_class = do
  pvc ← get_subprovider_pvc_by_name (get_pvc_name_for_pv req.name)
  fail_if (is_failure pvc.1) internal
  on_option pvc.0 (or_fail (create_subprovider_pvc (pvc_config req storage_class)) internal)
      (λ _. pure tt)

abbrev pub volume_of : CreateVolumeRequest → Volume
volume_of req = record {
  volume_id = req.name;
  capacity_bytes = req.required_bytes;
  volume_context = req.parameters;
}

-- The body under the volume's lock.
unfoldable pub provision : CreateVolumeRequest → (storage_class : String) → M Code Volume
provision req storage_class = do
  or_fail new_k8s_utils internal
  sc ← get_sc_by_name storage_class
  fail_on (sc.1) internal
  fail_if (not (is_some sc.0)) not_found
  ensure_pvc req storage_class
  pure (volume_of req)

unfoldable pub create_volume : CreateVolumeRequest → M Code Volume
create_volume req = do
  validate_controller_service_request create_delete_volume
  require_text req.name
  is_valid_volume_capabilities req.volume_capabilities
  storage_class ← require_storage_class req.parameters
  locked req.name (provision req storage_class)

-- An error that says "not found" counts as success.
unfoldable pub tolerate : Try String Unit → Code → M Code Unit
tolerate (value _) code = pure tt
tolerate (error text) code = if contains text "not found" then pure tt else fail code

unfoldable pub delete_volume : (volume_id : String) → M Code Unit
delete_volume volume_id = do
  validate_controller_service_request create_delete_volume
  require_text volume_id
  locked volume_id (do
    or_fail new_k8s_utils internal
    pvc ← get_subprovider_pvc_by_name (get_pvc_name_for_pv volume_id)
    fail_if (is_failure pvc.1) internal
    on_option (pvc.0) (pure tt) (λ found. do
      deleted ← attempt (delete_subprovider_pvc found.name)
      tolerate deleted internal))

-- The confirmed answer repeats the context, the capabilities and the parameters of the request.
unfoldable pub validate_volume_capabilities :
    (volume_id : String) → List Access → M Code (List Access)
validate_volume_capabilities volume_id caps = do
  require_text volume_id
  is_valid_volume_capabilities caps
  pure caps
