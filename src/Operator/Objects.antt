-- ===== src/Operator/Objects.antt =====
-- pkg/csi-operator/internal/helpers/helpers.go and `GetDefaultLabels` of
-- pkg/csi-operator/api/v1alpha1/driverinstance_types.go: the objects that make up a driver.
pub mod Mounts
pub mod Rights
pub mod Order
use Prim.Native.String.{◌++◌ as append}
use open_cas_csi.Prelude.{String, true, none, List, [], ◌∷◌, ◌++◌, map}
use open_cas_csi.Prelude.Dict.{Dict, insert}
use open_cas_csi.Operator.Labels.{
  service_account_name, config_map_name, controller_plugin_name, node_plugin_name, labels_for,
}
use open_cas_csi.Operator.Workloads.{controller_workload, node_workload}
use open_cas_csi.World.{
  Kind, namespace, service_account, role, role_binding, cluster_role, cluster_role_binding,
  csi_driver, config_map, deployment, daemon_set, PolicyRule, Payload, plain, rules, binding,
  config, workload, driver_spec, Object, DriverInstance,
}

abbrev object_of : DriverInstance → Kind → (component name ns : String) → Payload → Object
object_of di kind component name ns payload = record {
  kind = kind;
  name = name;
  namespace = ns;
  labels = labels_for di component;
  finalizers = [];
  owner = none;
  resource_version = "";
  payload = payload;
}

unfoldable pub get_namespace_configuration : DriverInstance → Object
get_namespace_configuration di = object_of di namespace "namespace" di.driver_namespace "" plain

unfoldable pub get_service_account_configuration : DriverInstance → Object
get_service_account_configuration di =
    object_of di service_account "service-account" service_account_name di.driver_namespace plain

abbrev core_rule : String → List String → PolicyRule
core_rule resource verbs = record { api_groups = "" ∷ []; resources = resource ∷ []; verbs = verbs }

abbrev group_rule : (group resource : String) → List String → PolicyRule
group_rule group resource verbs = record {
  api_groups = group ∷ [];
  resources = resource ∷ [];
  verbs = verbs;
}

abbrev read_verbs : List String
read_verbs = "get" ∷ "list" ∷ "watch" ∷ []

abbrev write_verbs : List String
write_verbs = "get" ∷ "list" ∷ "watch" ∷ "create" ∷ "delete" ∷ "update" ∷ []

abbrev patch_verbs : List String
patch_verbs = "get" ∷ "list" ∷ "watch" ∷ "patch" ∷ []

unfoldable pub get_roles_configuration : DriverInstance → List Object
get_roles_configuration di =
    object_of di role "role" "pod-executioner" di.driver_namespace
      (rules (core_rule "pods" write_verbs ∷ core_rule "pods/exec" ("create" ∷ []) ∷ []))
    ∷ []

abbrev rbac_group : String
rbac_group = "rbac.authorization.k8s.io"

-- The subject of a namespaced binding leaves the namespace out.
unfoldable pub role_binding_for : DriverInstance → Object → Object
role_binding_for di r =
    object_of di role_binding "role-binding" (append service_account_name (append "-" r.name))
      di.driver_namespace
      (binding rbac_group "Role" r.name
        (record { kind = "ServiceAccount"; name = service_account_name; namespace = "" } ∷ []))

unfoldable pub get_role_bindings_configuration : DriverInstance → List Object
unfolding role_binding_for get_roles_configuration
get_role_bindings_configuration di = map (role_binding_for di) (get_roles_configuration di)

abbrev provisioner_rules : List PolicyRule
provisioner_rules =
    core_rule "persistentvolumes" write_verbs
    ∷ core_rule "persistentvolumeclaims" write_verbs
    ∷ core_rule "nodes" read_verbs
    ∷ core_rule "configmaps" read_verbs
    ∷ group_rule "storage.k8s.io" "storageclasses" read_verbs
    ∷ group_rule "storage.k8s.io" "volumeattachments" read_verbs
    ∷ group_rule "storage.k8s.io" "csinodes" read_verbs
    ∷ core_rule "events" ("list" ∷ "watch" ∷ "create" ∷ "update" ∷ "patch" ∷ [])
    ∷ group_rule "snapshot.storage.k8s.io" "volumesnapshotcontents" ("get" ∷ "list" ∷ [])
    ∷ []

abbrev attacher_rules : List PolicyRule
attacher_rules =
    core_rule "persistentvolumes" patch_verbs
    ∷ group_rule "storage.k8s.io" "volumeattachments" patch_verbs
    ∷ group_rule "storage.k8s.io" "volumeattachments/status" ("patch" ∷ [])
    ∷ group_rule "storage.k8s.io" "csinodes" read_verbs
    ∷ []

unfoldable pub get_cluster_roles_configuration : DriverInstance → List Object
get_cluster_roles_configuration di =
    object_of di cluster_role "cluster-role" "external-provisioner-runner" ""
      (rules provisioner_rules)
    ∷ object_of di cluster_role "cluster-role" "external-attacher-runner" "" (rules attacher_rules)
    ∷ []

unfoldable pub cluster_role_binding_for : DriverInstance → Object → Object
cluster_role_binding_for di r =
    object_of di cluster_role_binding "cluster-role-binding"
      (append service_account_name (append "-" r.name)) ""
      (binding rbac_group "ClusterRole" r.name (
        record {
          kind = "ServiceAccount";
          name = service_account_name;
          namespace = di.driver_namespace;
        }
        ∷ []))

unfoldable pub get_cluster_role_bindings_configuration : DriverInstance → List Object
unfolding cluster_role_binding_for get_cluster_roles_configuration
get_cluster_role_bindings_configuration di =
    map (cluster_role_binding_for di) (get_cluster_roles_configuration di)

unfoldable pub get_csi_driver_configuration : DriverInstance → Object
get_csi_driver_configuration di = object_of di csi_driver "csi-driver" di.name "" (
    driver_spec (record {
      attach_required = true;
      fs_group_policy = "File";
      pod_info_on_mount = true;
      volume_lifecycle_modes = "Persistent" ∷ [];
    }))

unfoldable pub get_config_map_configuration : (kubelet_dir : String) → DriverInstance → Object
get_config_map_configuration kubelet_dir di =
    object_of di config_map "config-map" config_map_name di.driver_namespace (
      config (
        ("CASADM_IMAGE", di.casadm_image)
        ∷ ("KUBELET_DIR", kubelet_dir)
        ∷ ("PROTECTED_NAMESPACE", di.protected_namespace)
        ∷ ("WEBHOOK_IMAGE", di.webhook_image)
        ∷ []))

unfoldable pub get_controller_deployment_configuration : DriverInstance → Object
get_controller_deployment_configuration di =
    object_of di deployment "controller-plugin" controller_plugin_name di.driver_namespace
      (workload (controller_workload di))

unfoldable pub get_node_daemon_set_configuration : (kubelet_dir : String) → DriverInstance → Object
get_node_daemon_set_configuration kubelet_dir di =
    object_of di daemon_set "node-plugin" node_plugin_name di.driver_namespace
      (workload (node_workload kubelet_dir di))

-- pkg/csi-operator/internal/controller/driverinstance_controller.go: `getObjectsList`
unfoldable pub get_objects_list : (kubelet_dir : String) → DriverInstance → List Object
unfolding get_namespace_configuration get_service_account_configuration get_roles_configuration
    get_role_bindings_configuration get_cluster_roles_configuration
    get_cluster_role_bindings_configuration get_csi_driver_configuration
    get_config_map_configuration get_controller_deployment_configuration
    get_node_daemon_set_configuration
get_objects_list kubelet_dir di =
    get_namespace_configuration di
    ∷ get_service_account_configuration di
    ∷ (get_roles_configuration di
        ++ (get_role_bindings_configuration di
            ++ (get_cluster_roles_configuration di
                ++ (get_cluster_role_bindings_configuration di
                    ++ (get_csi_driver_configuration di
                        ∷ get_config_map_configuration kubelet_dir di
                        ∷ get_controller_deployment_configuration di
                        ∷ get_node_daemon_set_configuration kubelet_dir di
                        ∷ [])))))
