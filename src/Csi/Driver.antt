-- ===== src/Csi/Driver.antt =====
-- pkg/csi-driver/csi-driver.go and identity.go: starting the driver, and the identity service.
pub mod Start
use Prim.Native.Char.{Char, code}
use Prim.Native.String.{◌++◌ as append}
use open_cas_csi.Prelude.{
  String, Bool, true, false, List, [], ◌∷◌, ◌==◌, eqb, not, ◌||◌, if◌then◌else◌,
}
use open_cas_csi.World.{World, Call, Output}
use open_cas_csi.Effect.{M, pure, fail, ◌>>=◌, ◌>>◌, ask, fail_if, ignoring}
use open_cas_csi.K8sUtils.Settings.{protected_namespace}
use open_cas_csi.Utils.{exec_local_command}
use open_cas_csi.OpenCas.Manager.{is_zero}
use open_cas_csi.Csi.Types.{Code, unavailable}

-- `Config`, less `ShowVersion`, `DeviceManager` and `SingleCache`, which nothing reads
pub record Config : Type 0 where
  pub driver_name : String
  pub endpoint : String
  pub node_id : String
  pub vendor_version : String
  pub start_controller_server : Bool
  pub start_node_server : Bool

-- `csiDriver`: which of its two pointers to servers are set.
pub record CsiDriver : Type 0 where
  pub config : Config
  pub controller_server : Bool
  pub node_server : Bool

-- `strings.ReplaceAll(s, ".", "-")`
unfoldable pub dots_to_dashes : String → String
dots_to_dashes String.[] = ""
dots_to_dashes (String.◌∷◌ c s) = String.◌∷◌ (if eqb (code c) 46 then "-" else c) (dots_to_dashes s)

-- `service namespace secret`, the arguments that both scripts take
unfoldable pub protection_args : (driver_name namespace : String) → String
unfolding dots_to_dashes
protection_args name ns =
    append (dots_to_dashes name) (append " " (append ns (append " " (append name "-protect"))))

unfoldable pub predeploy_cmd : (driver_name namespace : String) → String
predeploy_cmd name ns = append "/predeploy.sh " (protection_args name ns)

unfoldable pub deploy_cmd : (driver_name namespace image : String) → String
deploy_cmd name ns image =
    append "/deploy.sh " (append (protection_args name ns) (append " " image))

-- One script: an error of its start, or another exit code than 0, ends the set-up.
unfoldable pub run_script : String → M String Unit
run_script cmd = do
  output ← exec_local_command cmd
  fail_if (not (is_zero output.exit_code)) "failed Open-CAS protection setup"

-- `SetupProtection`, whose failures are logged only.
unfoldable pub setup_protection : {E : Type 0} → (driver_name : String) → M E Unit
setup_protection name = ignoring (do
  w ← ask
  run_script (predeploy_cmd name (protected_namespace w))
  fail_if (w.getenv "WEBHOOK_IMAGE" == "") "webhook server image not configured"
  run_script (deploy_cmd name (protected_namespace w) (w.getenv "WEBHOOK_IMAGE")))

-- By default both servers are started; the controller needs the address of the casadm image.
unfoldable pub start_controller : Config → M String Unit
start_controller cfg =
    if cfg.start_controller_server || not cfg.start_node_server
    then (do
      w ← ask
      fail_if (w.getenv "CASADM_IMAGE" == "") "casadm image not configured, check config map"
      setup_protection cfg.driver_name)
    else pure tt

unfoldable pub new_csi_driver : Config → M String CsiDriver
new_csi_driver cfg = do
  fail_if (cfg.driver_name == "") "no driver name provided"
  fail_if (cfg.node_id == "") "no node id provided"
  fail_if (cfg.endpoint == "") "no driver endpoint provided"
  start_controller cfg
  pure (record {
    config = cfg;
    controller_server = cfg.start_controller_server || not cfg.start_node_server;
    node_server = cfg.start_node_server || not cfg.start_controller_server;
  })

-- `csi.PluginCapability_Service_Type`
pub data PluginCapability : Type 0 where
  controller_service volume_accessibility_constraints : PluginCapability

unfoldable pub get_plugin_capabilities : List PluginCapability
get_plugin_capabilities = controller_service ∷ volume_accessibility_constraints ∷ []

-- The driver's name and its version.
unfoldable pub get_plugin_info : Config → M Code (String × String)
get_plugin_info cfg = do
  fail_if (cfg.driver_name == "") unavailable
  fail_if (cfg.vendor_version == "") unavailable
  pure (cfg.driver_name, cfg.vendor_version)

-- The answer says that the plugin is ready.
unfoldable pub probe : M Code Bool
probe = pure true
