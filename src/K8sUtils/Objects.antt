-- ===== src/K8sUtils/Objects.antt =====
-- pkg/k8sutils/k8sutils.go: the client, and the operations that get and delete PVCs and Pods.
use open_cas_csi.Prelude.{String, Option, none, some, ◌==◌, if◌then◌else◌}
use open_cas_csi.Prelude.Dict.{erase, contains_key}
use open_cas_csi.Prelude.Text.{contains}
use open_cas_csi.World.{Call, Pvc, Pod}
use open_cas_csi.Effect.{on_option, M, pure, fail, call, ask, ◌>>=◌, ◌>>◌, return_error}
use open_cas_csi.K8sUtils.Settings.{protected_namespace}

-- pkg/webhook/main.go: `Label`
abbrev pub protected_label : String
protected_label = "csi.open-cas.com/protected"

-- `NewK8sUtils`: the wrapped texts keep the text of the cause.
unfoldable pub new_k8s_utils : M String Unit
new_k8s_utils = do
  bad_config ← call Call.load_config
  return_error bad_config
  bad_client ← call Call.new_client
  return_error bad_client

-- `if pvc.Name == "" { pvc = nil }`
abbrev pub named_pvc : Pvc → Option Pvc
named_pvc p = if p.name == "" then none else some p

abbrev pub named_pod : Pod → Option Pod
named_pod p = if p.name == "" then none else some p

abbrev pub named : String → Option String
named n = if n == "" then none else some n

module _ {E : Type 0} where
  -- The object and the error are returned side by side.
  unfoldable pub get_subprovider_pvc_by_name : String → M E (Option Pvc × Option String)
  get_subprovider_pvc_by_name name = do
    w ← ask
    found ← call (Call.get_pvc (protected_namespace w) name)
    pure (named_pvc found.0, found.1)

  unfoldable pub get_pv_by_name : String → M E (Option String × Option String)
  get_pv_by_name name = do found ← call (Call.get_pv name); pure (named found.0, found.1)

  unfoldable pub get_sc_by_name : String → M E (Option String × Option String)
  get_sc_by_name name = do found ← call (Call.get_sc name); pure (named found.0, found.1)

  unfoldable pub get_intermediate_pod_by_name :
      (name namespace : String) → M E (Option Pod × Option String)
  get_intermediate_pod_by_name name namespace = do
    found ← call (Call.get_pod namespace name)
    pure (named_pod found.0, found.1)

-- The label is taken off, and the update sent, only where it is there.
unfoldable pub unprotect_pvc : String → Pvc → M String Unit
unprotect_pvc ns pvc =
    if contains_key protected_label pvc.labels
    then (do
      refused ← call (Call.update_pvc ns (record pvc { labels = erase protected_label pvc.labels }))
      return_error refused)
    else pure tt

unfoldable pub unprotect_pod : String → Pod → M String Unit
unprotect_pod ns pod =
    if contains_key protected_label pod.labels
    then (do
      refused ← call (Call.update_pod ns (record pod { labels = erase protected_label pod.labels }))
      return_error refused)
    else pure tt

-- `if strings.Contains(err.Error(), "not found") { return nil }; return err`
unfoldable pub unless_missing : String → M String Unit
unless_missing text = if contains text "not found" then pure tt else fail text

unfoldable pub delete_subprovider_pvc : String → M String Unit
delete_subprovider_pvc name = do
  w ← ask
  found ← call (Call.get_pvc (protected_namespace w) name)
  on_option (found.1)
      (do
        unprotect_pvc (protected_namespace w) found.0
        refused ← call (Call.delete_pvc (protected_namespace w) name)
        return_error refused)
      (λ text. unless_missing text)

unfoldable pub delete_intermediate_pod : (name namespace : String) → M String Unit
delete_intermediate_pod name namespace = do
  found ← call (Call.get_pod namespace name)
  on_option (found.1)
      (do
        unprotect_pod namespace found.0
        refused ← call (Call.delete_pod namespace name)
        return_error refused)
      (λ text. unless_missing text)
