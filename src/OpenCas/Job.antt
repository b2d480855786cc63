-- ===== src/OpenCas/Job.antt =====
-- pkg/opencas/api.go: the Job that runs one `casadm` command on a node.
use Prim.Native.String.{◌++◌ as append}
use open_cas_csi.Prelude.{String, false, true, none, [], ◌∷◌, ◌==◌, if◌then◌else◌}
use open_cas_csi.Prelude.Text.{split}
use open_cas_csi.World.{World, Job, Container, host_path, directory}
use open_cas_csi.K8sUtils.Settings.{kubelet_dir}

unfoldable pub casadm_container : World → Container
casadm_container w = record {
  name = "casadm";
  image = w.getenv "CASADM_IMAGE";
  pull_always = true;
  args = [];
  env = [];
  env_from = [];
  privileged = true;
  ports = [];
  liveness_probe = none;
  volume_mounts =
      record { name = "dev-dir"; mount_path = "/dev"; bidirectional = false }
      ∷ record {
        name = "plugins-dir";
        mount_path = append (kubelet_dir w) "/plugins";
        bidirectional = false;
      }
      ∷ [];
}

-- `NewCasadmJob`
unfoldable pub new_casadm_job : World → Job
unfolding casadm_container
new_casadm_job w = record {
  name = "";
  namespace = "";
  command = [];
  node_name = "";
  completions = 1;
  ttl_seconds_after_finished = 0;
  restart_never = true;
  template = record {
    labels = [];
    node_selector = [];
    anti_affinity = none;
    service_account_name = "";
    containers = casadm_container w ∷ [];
    priority_class_name = "";
    volumes =
        record { name = "dev-dir"; source = host_path "/dev" directory }
        ∷ record {
          name = "plugins-dir";
          source = host_path (append (kubelet_dir w) "/plugins") directory;
        }
        ∷ [];
  };
}

-- The Job that `ExecCasadmCommandAsJob` makes of it.
unfoldable pub casadm_job : World → (cmd node_id job_name namespace : String) → Job
casadm_job w cmd node_id job_name namespace = record (new_casadm_job w) {
  name = job_name;
  namespace = namespace;
  command = split cmd;
  ttl_seconds_after_finished = 60;
  node_name = if node_id == "" then (new_casadm_job w).node_name else node_id;
}
