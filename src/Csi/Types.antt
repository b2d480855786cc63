-- ===== src/Csi/Types.antt =====
-- The CSI messages, as far as pkg/csi-driver reads them, and what its services share.
use Prim.Native.String.{◌++◌ as append}
use open_cas_csi.Prelude.{
  String, Bool, true, false, Option, none, some, List, [], ◌==◌, not, if◌then◌else◌,
}
use open_cas_csi.Prelude.Text.{contains}
use open_cas_csi.Effect.{M, pure, fail}

-- `codes.Code`; the messages of errors are not modelled.
pub data Code : Type 0 where
  invalid_argument internal not_found aborted unavailable : Code
  already_exists failed_precondition unimplemented : Code

-- `csi.MountVolume`, `csi.BlockVolume`, or no access type at all
pub data Access : Type 0 where
  mount : (fs_type : String) → (mount_flags : List String) → Access
  block : Access
  unset : Access

abbrev pub is_block : Access → Bool
is_block block = true
is_block _ = false

abbrev pub is_unset : Access → Bool
is_unset unset = true
is_unset _ = false

-- `GetMount().GetFsType()` and `GetMount().GetMountFlags()`
abbrev pub fs_type_of : Access → String
fs_type_of (mount fs_type _) = fs_type
fs_type_of _ = ""

abbrev pub mount_flags_of : Access → List String
mount_flags_of (mount _ flags) = flags
mount_flags_of _ = []

-- `getPodNameForPv`, `getPvcNameForPv`
unfoldable pub get_pod_name_for_pv : (pv_name node_id : String) → String
get_pod_name_for_pv pv_name node_id = append node_id (append "-" pv_name)

unfoldable pub get_pvc_name_for_pv : String → String
get_pvc_name_for_pv pv_name = append "opencas-csi-" pv_name

-- `err != nil && !strings.Contains(err.Error(), "not found")`
abbrev pub is_failure : Option String → Bool
is_failure none = false
is_failure (some text) = not (contains text "not found")

-- `if len(s) == 0 { return InvalidArgument }`
unfoldable pub require_text : String → M Code Unit
require_text s = if s == "" then fail invalid_argument else pure tt
