-- ===== src/Operator/Workloads.antt =====
-- The specs of the controller's Deployment and of the node's DaemonSet:
-- `GetControllerDeploymentConfiguration` and `GetNodeDaemonSetConfiguration` of
-- pkg/csi-operator/internal/helpers/helpers.go.
use Prim.Native.String.{◌++◌ as append}
use open_cas_csi.Prelude.{String, Bool, true, false, none, some, List, [], ◌∷◌, eqb, if◌then◌else◌}
use open_cas_csi.Prelude.Dict.{Dict, lookup}
use open_cas_csi.Prelude.Text.{show}
use open_cas_csi.World.{
  DriverInstance, EnvVar, VolumeMount, Container, Workload, empty_dir, host_path, directory,
  directory_or_create,
}
use open_cas_csi.Operator.Labels.{
  service_account_name, config_map_name, controller_plugin_name, node_plugin_name, component_key,
  labels_for,
}

abbrev pub socket_dir_mount : VolumeMount
socket_dir_mount = record { name = "socket-dir"; mount_path = "/csi"; bidirectional = false }

abbrev node_name_env : EnvVar
node_name_env = record { name = "KUBE_NODE_NAME"; field_path = "spec.nodeName" }

abbrev namespace_env : EnvVar
namespace_env = record { name = "DRIVER_NAMESPACE"; field_path = "metadata.namespace" }

abbrev verbosity : DriverInstance → String
verbosity di = append "--v=" (show di.log_level)

-- The container of the driver itself, which both workloads run with another last argument.
unfoldable pub driver_container :
    DriverInstance → (name server_arg : String) → List VolumeMount → Container
driver_container di name server_arg mounts = record {
  name = name;
  image = di.driver_image;
  pull_always = true;
  args =
      append "--drivername=" di.name
      ∷ verbosity di
      ∷ "--nodeid=$(KUBE_NODE_NAME)"
      ∷ "--endpoint=unix:///csi/csi.sock"
      ∷ server_arg
      ∷ [];
  env = node_name_env ∷ namespace_env ∷ [];
  env_from = config_map_name ∷ [];
  privileged = true;
  ports = record { name = "healthz"; container_port = 9898 } ∷ [];
  liveness_probe = some (record {
    failure_threshold = 5;
    path = "/healthz";
    port = "healthz";
    initial_delay_seconds = 10;
    timeout_seconds = 3;
    period_seconds = 2;
  });
  volume_mounts = mounts;
}

-- A container beside the driver's.
unfoldable pub sidecar :
    (name image : String)
    → (args : List String) → List EnvVar
    → (privileged : Bool) → List VolumeMount
    → Container
sidecar name image args env privileged mounts = record {
  name = name;
  image = image;
  pull_always = false;
  args = args;
  env = env;
  env_from = [];
  privileged = privileged;
  ports = [];
  liveness_probe = none;
  volume_mounts = mounts;
}

unfoldable pub liveness_container : Container
unfolding sidecar
liveness_container =
    sidecar "liveness-probe" "registry.k8s.io/sig-storage/livenessprobe:v2.11.0"
      ("--csi-address=/csi/csi.sock" ∷ "--health-port=9898" ∷ []) [] false (socket_dir_mount ∷ [])

-- `labels[key]`, "" where it is missing
abbrev label : String → Dict String → String
label key labels = elim (lookup key labels) [ none ↦ "" | some v ↦ v ]

abbrev part_of_key : String
part_of_key = "app.kubernetes.io/part-of"

unfoldable pub controller_workload : DriverInstance → Workload
unfolding driver_container sidecar liveness_container
controller_workload di =
    let labels = labels_for di "controller-plugin" in
    record {
      replicas = some (if eqb di.controller_replicas 0 then 1 else di.controller_replicas);
      match_labels = labels;
      template = record {
        labels = labels;
        node_selector = ("node-role.kubernetes.io/control-plane", "") ∷ [];
        anti_affinity = some (record {
          match_expressions =
              record { key = part_of_key; values = label part_of_key labels ∷ [] }
              ∷ record { key = component_key; values = label component_key labels ∷ [] }
              ∷ [];
          topology_key = "kubernetes.io/hostname";
        });
        service_account_name = service_account_name;
        containers =
            driver_container di controller_plugin_name "--controllerserver" (socket_dir_mount ∷ [])
            ∷ liveness_container
            ∷ sidecar "csi-provisioner" "registry.k8s.io/sig-storage/csi-provisioner:v3.6.0"
                (verbosity di ∷ "--csi-address=/csi/csi.sock" ∷ "--leader-election=true" ∷ []) []
                true (socket_dir_mount ∷ [])
            ∷ sidecar "csi-attacher" "registry.k8s.io/sig-storage/csi-attacher:v4.4.0"
                (verbosity di
                  ∷ "--csi-address=/csi/csi.sock"
                  ∷ "--leader-election=true"
                  ∷ "--http-endpoint=:8080"
                  ∷ [])
                [] false (socket_dir_mount ∷ [])
            ∷ [];
        priority_class_name = "system-cluster-critical";
        volumes = record { name = socket_dir_mount.name; source = empty_dir } ∷ [];
      };
    }

abbrev mountpoint_dir_mount : (kubelet_dir : String) → VolumeMount
mountpoint_dir_mount dir = record {
  name = "mountpoint-dir";
  mount_path = append dir "/pods";
  bidirectional = true;
}

abbrev plugins_dir_mount : (kubelet_dir : String) → VolumeMount
plugins_dir_mount dir = record {
  name = "plugins-dir";
  mount_path = append dir "/plugins";
  bidirectional = true;
}

abbrev dev_dir_mount : VolumeMount
dev_dir_mount = record { name = "dev-dir"; mount_path = "/dev"; bidirectional = false }

abbrev registration_dir_mount : VolumeMount
registration_dir_mount = record {
  name = "registration-dir";
  mount_path = "/registration";
  bidirectional = false;
}

unfoldable pub node_workload : (kubelet_dir : String) → DriverInstance → Workload
unfolding driver_container sidecar liveness_container
node_workload dir di =
    let labels = labels_for di "node-plugin" in
    record {
      replicas = none;
      match_labels = labels;
      template = record {
        labels = labels;
        node_selector = di.node_selector;
        anti_affinity = none;
        service_account_name = service_account_name;
        containers =
            driver_container di node_plugin_name "--nodeserver" (
              socket_dir_mount
              ∷ mountpoint_dir_mount dir
              ∷ plugins_dir_mount dir
              ∷ dev_dir_mount
              ∷ [])
            ∷ liveness_container
            ∷ sidecar "node-driver-registrar"
                "registry.k8s.io/sig-storage/csi-node-driver-registrar:v2.9.0"
                (verbosity di
                  ∷ "--csi-address=/csi/csi.sock"
                  ∷ append "--kubelet-registration-path="
                      (append dir (append "/plugins/" (append di.name "/csi.sock")))
                  ∷ [])
                (node_name_env ∷ []) true (socket_dir_mount ∷ registration_dir_mount ∷ [])
            ∷ [];
        priority_class_name = "system-node-critical";
        volumes =
            record {
              name = socket_dir_mount.name;
              source = host_path (append dir (append "/plugins/" di.name)) directory_or_create;
            }
            ∷ record {
              name = "plugins-dir";
              source = host_path (append dir "/plugins") directory_or_create;
            }
            ∷ record {
              name = registration_dir_mount.name;
              source = host_path (append dir "/plugins_registry") directory;
            }
            ∷ record {
              name = "mountpoint-dir";
              source = host_path (append dir "/pods") directory_or_create;
            }
            ∷ record { name = dev_dir_mount.name; source = host_path "/dev" directory }
            ∷ [];
      };
    }
