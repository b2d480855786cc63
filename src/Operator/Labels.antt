-- ===== src/Operator/Labels.antt =====
-- The names and labels of the objects of a driver: pkg/csi-operator/internal/helpers/helpers.go and
-- `GetDefaultLabels` of pkg/csi-operator/api/v1alpha1/driverinstance_types.go.
use open_cas_csi.Prelude.{String, [], ◌∷◌}
use open_cas_csi.Prelude.Dict.{Dict, insert}
use open_cas_csi.World.{DriverInstance}

abbrev pub service_account_name : String
service_account_name = "opencas-csi-driver-sa"

abbrev pub config_map_name : String
config_map_name = "opencas-csi-driver-config-map"

abbrev pub controller_plugin_name : String
controller_plugin_name = "opencas-csi-controller-plugin"

abbrev pub node_plugin_name : String
node_plugin_name = "opencas-csi-node-plugin"

abbrev pub component_key : String
component_key = "app.kubernetes.io/component"

unfoldable pub get_default_labels : DriverInstance → Dict String
get_default_labels di =
    ("app.kubernetes.io/name", di.name)
    ∷ ("app.kubernetes.io/part-of", "opencas-csi-driver")
    ∷ ("app.kubernetes.io/managed-by", "opencas-csi-operator")
    ∷ []

-- `for k, v := range di.Spec.Labels { labels[k] = v }`
unfoldable pub override : Dict String → Dict String → Dict String
override labels [] = labels
override labels ((k, v) ∷ more) = override (insert k v labels) more

-- The labels of one component: the defaults, the component's name, then what the user adds.
unfoldable pub labels_for : DriverInstance → (component : String) → Dict String
unfolding get_default_labels override
labels_for di component =
    override (insert component_key component (get_default_labels di)) di.labels
