-- ===== src/Tests/Steady.antt =====
-- A reconciliation that finds the cache of its definition running as asked for.
use open_cas_csi.Prelude.{◌≡◌, refl, ℕ, ◌+◌, String, true, eqb, if◌then◌else◌, none, [], ◌∷◌}
use open_cas_csi.Prelude.Int.{pos}
use open_cas_csi.World.{World, History, Call, Response, CacheDef, found}
use open_cas_csi.Effect.{ok, ◌>>=◌}
use open_cas_csi.Prelude.Dict.{insert, lookup}
use open_cas_csi.Prelude.Text.{atoi_value, parse_uint8}
use open_cas_csi.K8sUtils.Objects.{new_k8s_utils}
use open_cas_csi.K8sUtils.Create.{exec_command_job, job_output}
use open_cas_csi.OpenCas.Csv.{read_rows}
use open_cas_csi.OpenCas.CacheList.{Cache, parse_cache_list, parse_stats}
use open_cas_csi.OpenCas.Manager.{
  new_open_cas_manager, get_cache_instances, list_caches, exec, exec_casadm_command_as_job,
  job_name, or_crash, get_cache_line_size, get_statistics,
}
use open_cas_csi.Operator.Common.{done, has_finalizer, finalizer}
use open_cas_csi.Operator.Cache.{reconcile}
use open_cas_csi.Operator.Cache.Steady.{after_listed, after_looks, manager, reconcile-leaves}
use open_cas_csi.Tests.Worlds.{world_with, answers, listing, cache_def, node}

abbrev staying : CacheDef
staying = record cache_def { finalizers = finalizer ∷ [] }

abbrev jobs : History → ℕ
jobs [] = 0
jobs (Call.create_job _ ∷ h) = 1 + jobs h
jobs (_ ∷ h) = jobs h

-- The first Job lists the cache, and the second one prints its statistics.
abbrev log_after : ℕ → String
log_after n = if eqb n 1 then listing else "Cache Id,Cache line size [KiB]\n1,4\n"

abbrev answer : History → (c : Call) → Response c
answer h (Call.pod_logs _ _) = (log_after (jobs h), none, none)
answer h (Call.read_cache _) = found staying
answer h c = answers true c

abbrev node_world : World
node_world = record (world_with true) { answer = answer }

abbrev running : Cache
running = record {
  cache_id = pos 1;
  device_path = "/dev/sda";
  status = "Running";
  cache_mode = "wt";
  volumes =
      insert "/dev/sdb"
        (record {
          core_id = pos 1;
          backend_path = "/dev/sdb";
          status = "Active";
          path = "/dev/cas1-1";
          cache_id = pos 1;
        })
        [];
}

reconcile-leaves_example : reconcile "node" node_world [] ≡ (
  ok done,
  Call.unlock "node"
      ∷ after_looks
          (manager "node" staying node node_world [])
          (running ∷ [])
          node_world
          (after_listed "node" staying node node_world []),
)
unfolding has_finalizer new_open_cas_manager new_k8s_utils get_cache_instances list_caches exec
    exec_casadm_command_as_job exec_command_job job_output or_crash parse_cache_list read_rows
    insert atoi_value job_name lookup ◌>>=◌ get_cache_line_size get_statistics parse_stats
    parse_uint8
reconcile-leaves_example =
    reconcile-leaves "node" staying node node_world [] running [] (refl, refl, refl, refl)
      (refl, refl) refl (refl, refl, refl, tt)
