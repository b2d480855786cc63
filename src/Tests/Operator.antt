-- ===== src/Tests/Operator.antt =====
-- The theorems about pkg/csi-operator, applied.
use open_cas_csi.Prelude.{◌≡◌, refl, ◌==◌, String, true, false, none, some, List, [], ◌∷◌, All}
use open_cas_csi.Prelude.Int.{pos}
use open_cas_csi.Effect.{ok, ◌>>=◌}
use open_cas_csi.World.{CacheDef, DriverInstance}
use open_cas_csi.OpenCas.CacheList.{Cache}
use open_cas_csi.OpenCas.Manager.{OpenCas}
use open_cas_csi.Operator.Cache.{Plan, with_node, reconcile}
use open_cas_csi.Operator.Cache.Reached.{refreshed}
use open_cas_csi.Operator.Cache.Jobs.{JobsIn, Permitted, with_node-Permitted}
use open_cas_csi.Operator.Cache.Release.{PatchesByDeletion, reconcile-PatchesByDeletion}
use open_cas_csi.Operator.Instance.{reconcile_instance}
use open_cas_csi.Operator.Instance.Refreshed
use open_cas_csi.Operator.Instance.Release.{FollowsDeletion, reconcile_instance-FollowsDeletion}
use open_cas_csi.OpenCas.Job.{new_casadm_job}
use open_cas_csi.Operator.Workloads.{controller_workload, node_workload}
use open_cas_csi.Operator.Objects.{get_objects_list}
use open_cas_csi.Operator.Objects.Mounts.{
  IsHostMounted, IsWellMounted, SelectsOwn, templates-IsWellMounted,
}
use open_cas_csi.Operator.Objects.Rights.{
  allowed, pvc_verbs, pod_verbs, account-rights, account-jobs,
}
use open_cas_csi.Operator.Objects.Order.{
  InOrder, get_objects_list-InOrder, IsLabelled, get_objects_list-IsLabelled,
}
use open_cas_csi.Operator.Trigger.{Condition, update_func}
use open_cas_csi.Operator.Trigger.Ready.{became_ready, ready_status, update_func-became_ready}
use open_cas_csi.Operator.Start.{main, driver_events, created}
use open_cas_csi.Operator.Start.Steps.{StartsBy, steps, main-StartsBy}
use open_cas_csi.Tests.Worlds.{world, cache_def, node, instance_of}

abbrev deleted_def : CacheDef
deleted_def = record cache_def { deleted = true }

abbrev cas : OpenCas
cas = record { node_id = "node"; namespace = "kube-system" }

abbrev cache : Cache
cache = record {
  cache_id = pos 1;
  device_path = "/dev/sda";
  status = "Running";
  cache_mode = "wt";
  volumes = [];
}

abbrev empty_plan : Plan
empty_plan = record { remove_instances = []; modify_instance = none }

abbrev ready : String → Condition
ready status = record { type = "Ready"; status = status }

with_node-Permitted_example :
    JobsIn (Permitted (refreshed cache_def world [])) world (with_node cache_def node world []).1
with_node-Permitted_example = with_node-Permitted cache_def node world [] tt

reconcile-PatchesByDeletion_example : PatchesByDeletion world (reconcile "node" world []).1
reconcile-PatchesByDeletion_example = reconcile-PatchesByDeletion "node" world [] tt

abbrev other_cache : Cache
other_cache = record cache { device_path = "/dev/sdx" }

abbrev keeping : List Cache → Plan
keeping cs = record { remove_instances = cs; modify_instance = some cache }

reconcile_instance-FollowsDeletion_example :
    FollowsDeletion
      (Refreshed.refreshed (instance_of true) world [])
      world
      (reconcile_instance (instance_of true) world []).1
reconcile_instance-FollowsDeletion_example =
    reconcile_instance-FollowsDeletion (instance_of true) world [] tt

update_func-became_ready_example :
    update_func (ready "True" ∷ []) (ready "False" ∷ [])
    ≡ became_ready (ready_status (ready "True" ∷ [])) (ready_status (ready "False" ∷ []))
update_func-became_ready_example = update_func-became_ready (ready "True" ∷ []) (ready "False" ∷ [])

abbrev instance_there : DriverInstance
instance_there = instance_of false

templates-IsWellMounted_example :
    IsWellMounted (controller_workload instance_there).template
    × SelectsOwn (controller_workload instance_there)
    × IsWellMounted (node_workload "/var/lib/kubelet" instance_there).template
    × SelectsOwn (node_workload "/var/lib/kubelet" instance_there)
    × IsHostMounted (new_casadm_job world).template
templates-IsWellMounted_example = templates-IsWellMounted world "/var/lib/kubelet" instance_there

account-rights_example :
    All
      (λ verb.
        allowed
          (get_objects_list "/var/lib/kubelet" instance_there)
          "kube-system"
          "other"
          ""
          "persistentvolumeclaims"
          verb
        ≡ true)
      pvc_verbs
    × All
        (λ verb.
          allowed
            (get_objects_list "/var/lib/kubelet" instance_there)
            "kube-system"
            "other"
            ""
            "pods"
            verb
          ≡ ("kube-system" == "other"))
        pod_verbs
account-rights_example = account-rights "/var/lib/kubelet" "other" instance_there refl

account-jobs_example :
    allowed
      (get_objects_list "/var/lib/kubelet" instance_there)
      "kube-system"
      "kube-system"
      "batch"
      "jobs"
      "create"
    ≡ false
account-jobs_example = account-jobs "/var/lib/kubelet" "kube-system" "create" instance_there

get_objects_list-InOrder_example : InOrder [] (get_objects_list "/var/lib/kubelet" instance_there)
get_objects_list-InOrder_example = get_objects_list-InOrder "/var/lib/kubelet" instance_there

get_objects_list-IsLabelled_example :
    All
      (IsLabelled "app.kubernetes.io/component" instance_there)
      (get_objects_list "/var/lib/kubelet" instance_there)
get_objects_list-IsLabelled_example =
    get_objects_list-IsLabelled "app.kubernetes.io/component" "/var/lib/kubelet" instance_there

main-StartsBy_example :
    StartsBy world (steps ":8080" ":8081" false) [] (main ":8080" ":8081" false world [])
main-StartsBy_example = main-StartsBy ":8080" ":8081" false world []

exit_code : (main ":8080" ":8081" true world []).0 ≡ ok 0
unfolding main ◌>>=◌
exit_code = refl

-- A new owned object starts no reconciliation.
quiet : driver_events (λ _. true) (λ _. true) (created false) ≡ false
unfolding driver_events
quiet = refl
