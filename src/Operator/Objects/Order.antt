-- ===== src/Operator/Objects/Order.antt =====
-- The order of the objects of a driver, and their labels: `getObjectsList` and `Reconcile` of
-- pkg/csi-operator/internal/controller/driverinstance_controller.go.
use open_cas_csi.Prelude.{
  ◌≡◌, refl, String, Bool, true, false, Option, none, some, List, [], ◌∷◌, ◌==◌, ◌&&◌, All,
  if◌then◌else◌, arith, eq_refl,
}
use open_cas_csi.Prelude.Dict.{Dict, lookup, insert, lookup-insert}
use open_cas_csi.World.{
  Kind, namespace, service_account, role, role_binding, cluster_role, cluster_role_binding,
  csi_driver, config_map, deployment, daemon_set, Payload, binding, workload, Object,
  DriverInstance, Container,
}
use open_cas_csi.Operator.Labels.{component_key, get_default_labels, override, labels_for}
use open_cas_csi.Operator.Workloads.{controller_workload, node_workload}
use open_cas_csi.Operator.Objects.{get_objects_list}

-- A reference to another object, by its kind and its name.
abbrev Reference : Type 0
Reference = Kind × String

abbrev is_kind : Kind → Kind → Bool
is_kind namespace namespace = true
is_kind service_account service_account = true
is_kind role role = true
is_kind cluster_role cluster_role = true
is_kind config_map config_map = true
is_kind _ _ = false

abbrev pub is_there : Reference → List Object → Bool
is_there r [] = false
is_there r (o ∷ os) = if is_kind r.0 o.kind && o.name == r.1 then true else is_there r os

abbrev config_maps_of : List Container → List Reference
config_maps_of [] = []
config_maps_of (c ∷ cs) = elim (c.env_from) [
  | [] ↦ config_maps_of cs
  | ◌∷◌ name _ ↦ (config_map, name) ∷ config_maps_of cs
]

abbrev role_kind : String → Kind
role_kind kind = if kind == "Role" then role else cluster_role

-- What an object needs besides its namespace.
abbrev references : Payload → List Reference
references (binding _ kind name subjects) =
    (role_kind kind, name) ∷ (elim subjects [ [] ↦ [] | ◌∷◌ s _ ↦ (service_account, s.name) ∷ [] ])
references (workload w) =
    (service_account, w.template.service_account_name) ∷ config_maps_of w.template.containers
references _ = []

-- The namespace of a namespaced object is there.
abbrev has_home : List Object → (ns : String) → Bool
has_home seen ns = if ns == "" then true else is_there (namespace, ns) seen

-- Everything that an object refers to stands before it; `seen` is what stands before the list.
abbrev pub InOrder : (seen : List Object) → List Object → Type 0
InOrder seen [] = Unit
InOrder seen (o ∷ os) =
    (has_home seen o.namespace ≡ true)
    × All (λ r. is_there r seen ≡ true) (references o.payload)
    × InOrder (o ∷ seen) os

-- In the list of a driver's objects, the namespace of an object, the role and the account of a binding,
-- and the account and the ConfigMaps of a Deployment or DaemonSet stand before it.
pub get_objects_list-InOrder :
    (dir : String) (di : DriverInstance) → InOrder [] (get_objects_list dir di)
unfolding get_objects_list controller_workload node_workload
get_objects_list-InOrder dir di = ground (arith, eq_refl di.driver_namespace)

-- The value that a user's labels end up with.
abbrev pub last_value : String → Dict String → Option String
last_value k [] = none
last_value k ((j, v) ∷ more) = elim (last_value k more) [
  | some u ↦ some u
  | none ↦ if j == k then some v else none
]

abbrev or_else : Option String → Option String → Option String
or_else (some v) o = some v
or_else none o = o

lookup-override :
    (k : String) (labels more : Dict String)
    → lookup k (override labels more) ≡ or_else (last_value k more) (lookup k labels)
unfolding override
lookup-override k labels [] = refl
lookup-override k labels ((j, v) ∷ more) =
    ground (arith, lookup-override k (insert j v labels) more, lookup-insert j k v labels)

abbrev pub component_of : Kind → String
component_of namespace = "namespace"
component_of service_account = "service-account"
component_of role = "role"
component_of role_binding = "role-binding"
component_of cluster_role = "cluster-role"
component_of cluster_role_binding = "cluster-role-binding"
component_of csi_driver = "csi-driver"
component_of config_map = "config-map"
component_of deployment = "controller-plugin"
component_of daemon_set = "node-plugin"

-- The labels of an object: the user's, and under them the component and the defaults.
abbrev pub IsLabelled : (key : String) → DriverInstance → Object → Type 0
IsLabelled key di o =
    lookup key o.labels
    ≡ or_else (last_value key di.labels)
        (lookup key (insert component_key (component_of o.kind) (get_default_labels di)))

-- Whatever the key, every object of a driver has under it the value that the user's labels give last
-- or, where they do not name the key, that of the default labels with the component's name.
pub get_objects_list-IsLabelled :
    (key dir : String) (di : DriverInstance) → All (IsLabelled key di) (get_objects_list dir di)
unfolding get_objects_list labels_for
get_objects_list-IsLabelled key dir di =
    let l = λ (c : String).
      lookup-override key (insert component_key c (get_default_labels di)) di.labels in
    (l _, (l _, (l _, (l _, (l _, (l _, (l _, (l _, (l _, (l _, (l _, (l _, tt))))))))))))
