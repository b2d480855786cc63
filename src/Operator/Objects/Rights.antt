-- ===== src/Operator/Objects/Rights.antt =====
-- Which rights the objects of a driver give to its service account:
-- pkg/csi-operator/internal/helpers/helpers.go, read by the rules of Kubernetes' RBAC.
use open_cas_csi.Prelude.{
  ◌≡◌, String, Bool, true, false, List, [], ◌∷◌, ◌==◌, ◌&&◌, ◌||◌, All, if◌then◌else◌, arith,
  eq_refl,
}
use open_cas_csi.World.{
  Kind, role, role_binding, cluster_role, cluster_role_binding, PolicyRule, Subject, Payload, rules,
  binding, Object, DriverInstance,
}
use open_cas_csi.Operator.Labels.{service_account_name}
use open_cas_csi.Operator.Objects.{get_objects_list}

abbrev any {ℓ} : {A : Type ℓ} → (A → Bool) → List A → Bool
any p [] = false
any p (x ∷ xs) = p x || any p xs

abbrev is_in : String → List String → Bool
is_in s = any (λ t. t == s)

abbrev pub rule_allows : (group resource verb : String) → PolicyRule → Bool
rule_allows group resource verb r =
    is_in group r.api_groups && (is_in resource r.resources && is_in verb r.verbs)

abbrev payload_allows : (group resource verb : String) → Payload → Bool
payload_allows group resource verb (rules rs) = any (rule_allows group resource verb) rs
payload_allows group resource verb _ = false

-- The kind by which a binding refers to a role.
abbrev is_role_of_kind : (kind : String) → Kind → Bool
is_role_of_kind kind role = kind == "Role"
is_role_of_kind kind cluster_role = kind == "ClusterRole"
is_role_of_kind kind _ = false

-- A role of the binding's own namespace; a cluster role has none.
abbrev role_allows : (kind name ns : String) → (group resource verb : String) → Object → Bool
role_allows kind name ns group resource verb o =
    is_role_of_kind kind o.kind
    && (o.name == name && (o.namespace == ns && payload_allows group resource verb o.payload))

-- A subject without a namespace is one of the binding's namespace.
abbrev is_account : (account_ns binding_ns : String) → Subject → Bool
is_account account_ns binding_ns s =
    s.kind == "ServiceAccount"
    && (s.name == service_account_name
        && (if s.namespace == "" then binding_ns == account_ns else s.namespace == account_ns))

-- What a binding gives in the namespace `ns`.
abbrev binding_allows :
    List Object
    → (account_ns ns : String) → (group resource verb : String) → Kind
    → (binding_ns : String) → Payload
    → Bool
binding_allows objs account_ns ns group resource verb role_binding b
      (binding _ kind name subjects) =
    b == ns
    && (any (is_account account_ns b) subjects
        && any (role_allows kind name b group resource verb) objs)
binding_allows objs account_ns ns group resource verb cluster_role_binding b
      (binding _ kind name subjects) =
    any (is_account account_ns b) subjects
    && any (role_allows kind name "" group resource verb) objs
binding_allows objs account_ns ns group resource verb _ b _ = false

-- The driver's account may do this in the namespace `ns`.
abbrev pub allowed : List Object → (account_ns ns : String) → (group resource verb : String) → Bool
allowed objs account_ns ns group resource verb =
    any (λ o. binding_allows objs account_ns ns group resource verb o.kind o.namespace o.payload)
      objs

abbrev pub pod_verbs : List String
pod_verbs = "get" ∷ "watch" ∷ "list" ∷ "create" ∷ "update" ∷ "delete" ∷ []

abbrev pub pvc_verbs : List String
pvc_verbs = "get" ∷ "create" ∷ "update" ∷ "delete" ∷ []

pub account-rights :
    (dir ns : String) (di : DriverInstance)
    → (di.driver_namespace == "") ≡ false
    → All
        (λ verb.
          allowed (get_objects_list dir di) di.driver_namespace ns "" "persistentvolumeclaims" verb
          ≡ true)
        pvc_verbs
      × All
          (λ verb.
            allowed (get_objects_list dir di) di.driver_namespace ns "" "pods" verb
            ≡ (di.driver_namespace == ns))
          pod_verbs
unfolding get_objects_list
account-rights dir ns di named = ground (arith, eq_refl di.driver_namespace)

-- The objects of a driver allow its account nothing at all on Jobs, in no namespace.
pub account-jobs :
    (dir ns verb : String) (di : DriverInstance)
    → allowed (get_objects_list dir di) di.driver_namespace ns "batch" "jobs" verb ≡ false
unfolding get_objects_list
account-jobs dir ns verb di = ground arith
