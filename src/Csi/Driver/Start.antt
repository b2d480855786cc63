-- ===== src/Csi/Driver/Start.antt =====
-- When the driver starts, and what setting up the protection runs: pkg/csi-driver/csi-driver.go.
use open_cas_csi.Prelude.{
  sym, ◌≢◌, ◌≡◌, refl, ◌⊎◌, inl, String, Bool, true, false, ◌∷◌, ◌==◌, not, ◌&&◌, ◌||◌, arith,
}
use open_cas_csi.World.{World, History, Call, RunResult, exited, not_started}
use open_cas_csi.Effect.{ok, err, panic, ◌>>=◌, Outcome}
use open_cas_csi.K8sUtils.Settings.{protected_namespace}
use open_cas_csi.Utils.{exec_local_command}
use open_cas_csi.OpenCas.Manager.{is_zero}
use open_cas_csi.Csi.Driver.{
  Config, CsiDriver, predeploy_cmd, deploy_cmd, run_script, setup_protection, start_controller,
  new_csi_driver,
}

-- The command ran and its exit status was 0.
abbrev pub succeeded : RunResult → Bool
succeeded (exited o) = is_zero o.exit_code
succeeded not_started = false

run_script-calls :
    (cmd : String) (w : World) (h : History) → (run_script cmd w h).1 ≡ Call.shell cmd ∷ h
unfolding run_script exec_local_command ◌>>=◌
run_script-calls cmd w h = ground arith

-- The calls of setting up the protection: the first script, and the second one only after the first
-- succeeded, with the address of the webhook's image.
abbrev pub RunsScripts : (name : String) → World → History → History → Type 0
RunsScripts name w h after =
    let ns = protected_namespace w in
    let pre = Call.shell (predeploy_cmd name ns) in
    let image = w.getenv "WEBHOOK_IMAGE" in
    (after ≡ pre ∷ h)
    ⊎ ((after ≡ Call.shell (deploy_cmd name ns image) ∷ pre ∷ h)
        × (succeeded (w.answer h pre) ≡ true)
        × ((image == "") ≡ false))

scripts_lem :
    (name : String) (w : World) (h : History) (r : RunResult)
    → w.answer h (Call.shell (predeploy_cmd name (protected_namespace w))) ≡ r
    → RunsScripts name w h (setup_protection {E = String} name w h).1
unfolding setup_protection run_script exec_local_command ◌>>=◌
scripts_lem name w h not_started e = inl (ground arith)
scripts_lem name w h (exited o) e = ground arith

-- Setting up the protection never ends the driver.
setup_protection-RunsScripts :
    (name : String) (w : World) (h : History)
    → ((setup_protection {E = String} name w h).0 ≡ ok tt)
      × RunsScripts name w h (setup_protection {E = String} name w h).1
unfolding setup_protection run_script exec_local_command ◌>>=◌
setup_protection-RunsScripts name w h = (ground arith, scripts_lem name w h _ refl)

-- The controller's server is left out only if the node's server alone was asked for.
abbrev pub runs_controller : Config → Bool
runs_controller cfg = not (cfg.start_node_server && not cfg.start_controller_server)

-- The node's server is left out only if the controller's server alone was asked for.
abbrev pub runs_node : Config → Bool
runs_node cfg = not (cfg.start_controller_server && not cfg.start_node_server)

-- What the driver needs to start: its three settings, and the casadm image if it runs the controller.
abbrev pub is_complete : World → Config → Bool
is_complete w cfg =
    not (cfg.driver_name == "")
    && (not (cfg.node_id == "")
        && (not (cfg.endpoint == "")
            && (not (runs_controller cfg) || not (w.getenv "CASADM_IMAGE" == ""))))

abbrev pub starts : {E A : Type 0} → Outcome E A → Bool
starts (ok _) = true
starts (err _) = false
starts panic = false

start_controller-starts :
    (cfg : Config) (w : World) (h : History)
    → starts (start_controller cfg w h).0
      ≡ (not (runs_controller cfg) || not (w.getenv "CASADM_IMAGE" == ""))
unfolding start_controller ◌>>=◌
start_controller-starts cfg w h = grind (arith, setup_protection-RunsScripts)

new_csi_driver-starts :
    (cfg : Config) (w : World) (h : History) → starts (new_csi_driver cfg w h).0 ≡ is_complete w cfg
unfolding new_csi_driver ◌>>=◌
new_csi_driver-starts cfg w h = grind (arith, start_controller-starts)

new_csi_driver-servers :
    (cfg : Config) (w : World) (h : History) (d : CsiDriver)
    → (new_csi_driver cfg w h).0 ≡ ok d
    → (d.config ≡ cfg)
      × (d.controller_server ≡ runs_controller cfg)
      × (d.node_server ≡ runs_node cfg)
unfolding new_csi_driver ◌>>=◌
new_csi_driver-servers cfg w h d e = ground arith

-- The driver keeps its settings and runs each of its two servers unless only the other one was asked
-- for; without a driver, something that it needs is missing.
abbrev pub IsStart : World → Config → Outcome String CsiDriver → Type 0
IsStart w cfg (ok d) =
    (is_complete w cfg ≡ true)
    × (d.config ≡ cfg)
    × (d.controller_server ≡ runs_controller cfg)
    × (d.node_server ≡ runs_node cfg)
IsStart w cfg (err _) = is_complete w cfg ≡ false
IsStart w cfg panic = ⊥

start_controller-not_panic :
    (cfg : Config) (w : World) (h : History) → (start_controller cfg w h).0 ≢ panic
unfolding start_controller ◌>>=◌
start_controller-not_panic cfg w h e = grind (arith, setup_protection-RunsScripts)

new_csi_driver-not_panic :
    (cfg : Config) (w : World) (h : History) → (new_csi_driver cfg w h).0 ≢ panic
unfolding new_csi_driver ◌>>=◌
new_csi_driver-not_panic cfg w h e = grind (arith, start_controller-not_panic)

start_lem :
    (cfg : Config) (w : World) (h : History) (o : Outcome String CsiDriver)
    → (new_csi_driver cfg w h).0 ≡ o
    → starts o ≡ is_complete w cfg
    → IsStart w cfg o
start_lem cfg w h (ok d) e complete =
    let kept = new_csi_driver-servers cfg w h d e in (sym complete, kept.0, kept.1, kept.2)
start_lem cfg w h (err text) e complete = sym complete
start_lem cfg w h panic e complete = new_csi_driver-not_panic cfg w h e

-- The driver starts exactly when its name, its node and its endpoint are set and, where it runs the
-- controller, the casadm image is configured, whatever the scripts that set up the protection do. It then keeps
-- its settings and runs each of its two servers unless only the other one was asked for.
pub new_csi_driver-IsStart :
    (cfg : Config) (w : World) (h : History) → IsStart w cfg (new_csi_driver cfg w h).0
new_csi_driver-IsStart cfg w h = start_lem cfg w h _ refl (new_csi_driver-starts cfg w h)
