-- ===== src/K8sUtils/Settings.antt =====
-- pkg/k8sutils/k8sutils.go: the settings that are read from the environment once and kept in the
-- package variables `kubeletDir` and `protectedNamespace`.
use open_cas_csi.Prelude.{String, ◌==◌, if◌then◌else◌}
use open_cas_csi.World.{World}

-- The variable after a call, from its old value, the environment and the default.
unfoldable pub configured : (cached env default : String) → String
configured cached env default =
    if cached == "" then (if env == "" then default else env) else cached

-- Every use of the variables follows a call in `NewK8sUtils`.
unfoldable pub protected_namespace : World → String
protected_namespace w = configured "" (w.getenv "PROTECTED_NAMESPACE") "opencas-csi-protected"

unfoldable pub kubelet_dir : World → String
kubelet_dir w = configured "" (w.getenv "KUBELET_DIR") "/var/lib/kubelet"
