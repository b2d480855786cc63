-- ===== src/Csi/Checks.antt =====
-- The checks of the requests of pkg/csi-driver, which call nothing, keep any invariant.
use open_cas_csi.Prelude.{String, List, [], ◌∷◌}
use open_cas_csi.Prelude.Dict.{Dict}
use open_cas_csi.Effect.{Try, value, error}
use open_cas_csi.World.{World, History}
use open_cas_csi.Keeps.{Keeps, keeps_rules}
use open_cas_csi.Csi.Types.{Code, Access, require_text}
use open_cas_csi.Csi.Controller.{
  RpcType, validate_controller_service_request, is_valid_volume_capabilities, require_storage_class,
  tolerate,
}

pub require_text-Keeps : (P : World → History → Type 0) (s : String) → Keeps P (require_text s)
unfolding require_text
require_text-Keeps P s = search keeps_rules

pub validate-Keeps :
    (P : World → History → Type 0) (c : RpcType) → Keeps P (validate_controller_service_request c)
unfolding validate_controller_service_request
validate-Keeps P c = search keeps_rules

pub capabilities-Keeps :
    (P : World → History → Type 0) (caps : List Access)
    → Keeps P (is_valid_volume_capabilities caps)
unfolding is_valid_volume_capabilities
capabilities-Keeps P [] = search keeps_rules
capabilities-Keeps P (c ∷ caps) = search keeps_rules

pub require_storage_class-Keeps :
    (P : World → History → Type 0) (m : Dict String) → Keeps P (require_storage_class m)
unfolding require_storage_class
require_storage_class-Keeps P m = search keeps_rules depth 8

pub tolerate-Keeps :
    (P : World → History → Type 0) (r : Try String Unit) (code : Code) → Keeps P (tolerate r code)
unfolding tolerate
tolerate-Keeps P (value _) code = search keeps_rules
tolerate-Keeps P (error text) code = search keeps_rules
