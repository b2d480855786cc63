-- ===== src/Webhook.antt =====
-- pkg/webhook/main.go: the admission webhook that protects the driver's PVCs and Pods.
use open_cas_csi.Prelude.{String, Bool, true, false, Option, none, some, ◌==◌, if◌then◌else◌}
use open_cas_csi.Prelude.Dict.{Dict, contains_key}
use open_cas_csi.K8sUtils.Objects.{protected_label}

pub record Object : Type 0 where
  pub kind : String
  pub name : String
  pub namespace : String
  pub labels : Dict String

-- What the body of the request decodes to: no review, a review without a request, or one whose old
-- object is or is not an object.
pub data Body : Type 0 where
  undecodable : Body
  no_request : Body
  request : (uid : String) → (old_object : Option Object) → Body

-- A bad request, or the review with its response.
pub data Reply : Type 0 where
  bad_request : Reply
  review : (uid : String) → (allowed : Bool) → (message : String) → Reply

abbrev pub reject_message : String
reject_message =
    "objects with label 'csi.open-cas.com/protected' are managed by Open-CAS CSI driver"

unfoldable pub decide : (uid : String) → Object → Reply
decide uid object =
    if contains_key protected_label object.labels
    then review uid false reject_message
    else review uid true ""

unfoldable pub validate : Body → Reply
unfolding decide
validate undecodable = bad_request
validate no_request = bad_request
validate (request uid none) = bad_request
validate (request uid (some object)) = if object.name == "" then bad_request else decide uid object
