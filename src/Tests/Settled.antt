-- ===== src/Tests/Settled.antt =====
-- A reconciliation that stops a cache on another device and starts the one of its definition.
use open_cas_csi.Prelude.{refl, ℕ, ◌+◌, String, true, eqb, if◌then◌else◌, none, [], ◌∷◌}
use open_cas_csi.World.{World, History, Call, Response}
use open_cas_csi.Effect.{◌>>=◌}
use open_cas_csi.Prelude.Dict.{insert, lookup}
use open_cas_csi.Prelude.Text.{atoi_value}
use open_cas_csi.K8sUtils.Objects.{new_k8s_utils}
use open_cas_csi.K8sUtils.Create.{exec_command_job, job_output}
use open_cas_csi.OpenCas.Csv.{read_rows}
use open_cas_csi.OpenCas.CacheList.{parse_cache_list}
use open_cas_csi.OpenCas.Manager.{
  new_open_cas_manager, get_cache_instances, list_caches, exec, exec_casadm_command_as_job,
  job_name, or_crash, stop_cache, start_cache, check_exit, find_by_device,
}
use open_cas_csi.Operator.Common.{has_finalizer, finalizer}
use open_cas_csi.Operator.Cache
use open_cas_csi.Operator.Cache.{
  with_node, set_up, plan, plan_instance, remove_all, remove_instance, unset_label,
  set_operating_cache_label, modify_or_start, release, delete_operating_cache_label,
}
use open_cas_csi.Operator.Cache.Reached.{manager_of}
use open_cas_csi.Operator.Cache.Settled.{EndsSettled, with_node-EndsSettled}
use open_cas_csi.Operator.Cache.Cleared.{EndsCleared, with_node-EndsCleared}
use open_cas_csi.World.{CacheDef}
use open_cas_csi.Tests.Worlds.{world_with, answers, listing, cache_def, node}

abbrev jobs : History → ℕ
jobs [] = 0
jobs (Call.create_job _ ∷ h) = 1 + jobs h
jobs (_ ∷ h) = jobs h

-- The first Job lists a cache on another device; after the next one there is none, and after the fourth the
-- cache that it starts.
abbrev log_after : ℕ → String
log_after n =
    if eqb n 1
    then "type,id,disk,status,write policy,device\ncache,7,/dev/sdx,Running,wt,-\n"
    else if eqb n 5
    then listing
    else "type,id,disk,status,write policy,device\n"

abbrev answer : History → (c : Call) → Response c
answer h (Call.pod_logs _ _) = (log_after (jobs h), none, none)
answer h c = answers true c

abbrev node_world : World
node_world = record (world_with true) { answer = answer }

with_node-EndsSettled_example :
    EndsSettled
      (manager_of cache_def "value")
      cache_def
      []
      node_world
      (with_node cache_def node node_world []).1
unfolding with_node ◌>>=◌ Cache.add_finalizer has_finalizer new_open_cas_manager new_k8s_utils
    set_up get_cache_instances list_caches exec exec_casadm_command_as_job exec_command_job
    job_output or_crash parse_cache_list read_rows plan plan_instance remove_all remove_instance
    unset_label stop_cache start_cache check_exit find_by_device set_operating_cache_label
    modify_or_start release insert atoi_value job_name lookup
with_node-EndsSettled_example = with_node-EndsSettled cache_def node node_world [] refl refl

abbrev leaving : CacheDef
leaving = record cache_def { deleted = true; finalizers = finalizer ∷ [] }

with_node-EndsCleared_example :
    EndsCleared
      (manager_of leaving "value")
      leaving
      node
      node_world
      []
      (with_node leaving node node_world []).1
unfolding with_node ◌>>=◌ Cache.remove_finalizer delete_operating_cache_label has_finalizer
    new_open_cas_manager new_k8s_utils set_up get_cache_instances list_caches exec
    exec_casadm_command_as_job exec_command_job job_output or_crash parse_cache_list read_rows plan
    plan_instance remove_all remove_instance unset_label stop_cache check_exit find_by_device
    modify_or_start release insert atoi_value job_name lookup
with_node-EndsCleared_example = with_node-EndsCleared leaving node node_world [] refl refl
