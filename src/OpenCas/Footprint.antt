-- ===== src/OpenCas/Footprint.antt =====
-- Which calls the manager of pkg/opencas makes: rules by which an invariant of the calls is carried
-- through its methods. Reading calls are allowed once and for all, a Job by its command.
use open_cas_csi.Prelude.{◌≡◌, ℕ, String, Bool, true, false, Option, none, some, ◌∷◌, List, []}
use open_cas_csi.Prelude.Int.{minus_one}
use open_cas_csi.World.{World, History, Call, Pod, Job, Output}
use open_cas_csi.Effect.{or_fail}
use open_cas_csi.Keeps.{Keeps, Allows, keeps_rules, Keeps-or_fail, Keeps-pure, Keeps-crash}
use open_cas_csi.K8sUtils.Objects.{
  new_k8s_utils, get_subprovider_pvc_by_name, get_pv_by_name, get_sc_by_name,
  get_intermediate_pod_by_name,
}
use open_cas_csi.K8sUtils.Create.{job_output, exec_command_job}
use open_cas_csi.Utils.{exec_local_command}
use open_cas_csi.OpenCas.Job.{casadm_job}
use open_cas_csi.OpenCas.Casadm.{
  start_cache_cmd, stop_cache_cmd, add_core_cmd, remove_core_cmd, list_caches_cmd, stats_cmd,
  set_cache_mode_cmd,
}
use open_cas_csi.OpenCas.CacheList.{Cache, CachedVolume}
use open_cas_csi.OpenCas.Manager.{
  OpenCas, exec, or_crash, list_caches, check_exit, start_cache, stop_cache,
  get_volume_from_cache_list, is_device_in_system, add_core, remove_core, set_cache_mode,
  get_statistics, get_cache_line_size, get_cache_instances, provide_by_id_link_for_pv,
  new_open_cas_manager,
}

-- Calls that look at the cluster or the node, and those that surround every command Job.
abbrev pub is_read : Call → Bool
is_read Call.load_config = true
is_read Call.new_client = true
is_read (Call.get_pvc _ _) = true
is_read (Call.get_pv _) = true
is_read (Call.get_sc _) = true
is_read (Call.get_node _) = true
is_read (Call.get_pod _ _) = true
is_read (Call.watch_pod _ _) = true
is_read (Call.list_pods _ _) = true
is_read (Call.pod_logs _ _) = true
is_read (Call.watch_job _ _) = true
is_read (Call.delete_job _ _) = true
is_read (Call.shell _) = true
is_read (Call.lsblk_fs_type _) = true
is_read (Call.os_stat _) = true
is_read (Call.lsblk_size _) = true
is_read (Call.list_pods_of _ _) = true
is_read (Call.read_cache _) = true
is_read (Call.read_node _) = true
is_read _ = false

-- An invariant that no reading call breaks.
pub record AllowsReads (P : World → History → Type 0) : Type 0 where
  pub read : (c : Call) → is_read c ≡ true → Allows P c

-- Every Job with this command is allowed.
pub record AllowsCmd (P : World → History → Type 0) (cmd : String) : Type 0 where
  pub job :
      (w : World) (node_id job_name namespace : String)
      → Allows P (Call.create_job (casadm_job w cmd node_id job_name namespace))

module _ {P : World → History → Type 0} (reads : AllowsReads P) where
  pub Allows-read : (c : Call) → is_read c ≡ true → Allows P c
  Allows-read = reads.read

  pub new_k8s_utils-Keeps : Keeps P new_k8s_utils
  unfolding new_k8s_utils
  new_k8s_utils-Keeps = search (keeps_rules, Allows-read)

  pub connect-Keeps : {F : Type 0} (e : F) → Keeps P (or_fail new_k8s_utils e)
  connect-Keeps e = Keeps-or_fail new_k8s_utils e new_k8s_utils-Keeps

  job_output-Keeps : (ns name : String) (pods : List Pod) → Keeps P (job_output ns name pods)
  unfolding job_output
  job_output-Keeps ns name [] = search keeps_rules
  job_output-Keeps ns name (pod ∷ _) = search (keeps_rules, Allows-read)

  exec_command_job-Keeps :
      (job : Job) → Allows P (Call.create_job job) → Keeps P (exec_command_job job)
  unfolding exec_command_job
  exec_command_job-Keeps job a = search (keeps_rules, Allows-read, job_output-Keeps) depth 9

  exec_local_command-Keeps : (cmd : String) → Keeps P (exec_local_command cmd)
  unfolding exec_local_command
  exec_local_command-Keeps cmd = search (keeps_rules, Allows-read)

  pub exec-Keeps : (cas : OpenCas) (cmd : String) → AllowsCmd P cmd → Keeps P (exec cas cmd)
  unfolding exec
  exec-Keeps cas cmd a = search (keeps_rules, exec_command_job-Keeps, a.job)

  check_exit-Keeps :
      (cmd : String) (output : Output) (tolerated : Bool)
      → Keeps P (check_exit cmd output tolerated)
  unfolding check_exit
  check_exit-Keeps cmd output tolerated = search keeps_rules

  or_crash-Keeps : {A : Type 0} (o : Option A) → Keeps P (or_crash o)
  unfolding or_crash
  or_crash-Keeps none = Keeps-crash
  or_crash-Keeps (some a) = Keeps-pure a

  pub new_open_cas_manager-Keeps : (node_id ns : String) → Keeps P (new_open_cas_manager node_id ns)
  unfolding new_open_cas_manager
  new_open_cas_manager-Keeps node_id ns = search (keeps_rules, new_k8s_utils-Keeps)

  pub is_device_in_system-Keeps : (path : String) → Keeps P (is_device_in_system path)
  unfolding is_device_in_system
  is_device_in_system-Keeps path = search (keeps_rules, exec_local_command-Keeps)

  pub provide_by_id_link_for_pv-Keeps :
      (cas : OpenCas) (source link : String) → Keeps P (provide_by_id_link_for_pv cas source link)
  unfolding provide_by_id_link_for_pv
  provide_by_id_link_for_pv-Keeps cas source link = search (keeps_rules, exec_local_command-Keeps)

  pub get_subprovider_pvc_by_name-Keeps :
      {E : Type 0} (name : String) → Keeps P (get_subprovider_pvc_by_name {E = E} name)
  unfolding get_subprovider_pvc_by_name
  get_subprovider_pvc_by_name-Keeps name = search (keeps_rules, Allows-read)

  pub get_pv_by_name-Keeps : {E : Type 0} (name : String) → Keeps P (get_pv_by_name {E = E} name)
  unfolding get_pv_by_name
  get_pv_by_name-Keeps name = search (keeps_rules, Allows-read)

  pub get_sc_by_name-Keeps : {E : Type 0} (name : String) → Keeps P (get_sc_by_name {E = E} name)
  unfolding get_sc_by_name
  get_sc_by_name-Keeps name = search (keeps_rules, Allows-read)

  pub get_intermediate_pod_by_name-Keeps :
      {E : Type 0} (name ns : String) → Keeps P (get_intermediate_pod_by_name {E = E} name ns)
  unfolding get_intermediate_pod_by_name
  get_intermediate_pod_by_name-Keeps name ns = search (keeps_rules, Allows-read)

  module _ (lists : AllowsCmd P list_caches_cmd) where
    pub list_caches-Keeps : (cas : OpenCas) → Keeps P (list_caches cas)
    unfolding list_caches
    list_caches-Keeps cas = search (keeps_rules, exec-Keeps cas, lists, or_crash-Keeps)

    pub get_cache_instances-Keeps : (cas : OpenCas) → Keeps P (get_cache_instances cas)
    unfolding get_cache_instances
    get_cache_instances-Keeps cas = list_caches-Keeps cas

    pub get_volume_from_cache_list-Keeps :
        (cas : OpenCas) (backend : String) → Keeps P (get_volume_from_cache_list cas backend)
    unfolding get_volume_from_cache_list
    get_volume_from_cache_list-Keeps cas backend = search (keeps_rules, list_caches-Keeps)

    pub start_cache-Keeps :
        (cas : OpenCas) (path mode : String) (cls : ℕ)
        → AllowsCmd P (start_cache_cmd path mode cls minus_one)
        → Keeps P (start_cache cas path mode cls)
    unfolding start_cache
    start_cache-Keeps cas path mode cls a =
        search (keeps_rules, exec-Keeps cas, check_exit-Keeps, list_caches-Keeps)

    pub stop_cache-Keeps :
        (cas : OpenCas) (c : Cache)
        → AllowsCmd P (stop_cache_cmd c.cache_id)
        → Keeps P (stop_cache cas c)
    unfolding stop_cache
    stop_cache-Keeps cas c a =
        search (keeps_rules, exec-Keeps cas, check_exit-Keeps, list_caches-Keeps)

    pub add_core-Keeps :
        (cas : OpenCas) (c : Cache) (path : String)
        → AllowsCmd P (add_core_cmd c.cache_id path minus_one)
        → Keeps P (add_core cas c path)
    unfolding add_core
    add_core-Keeps cas c path a =
        search
          (
            keeps_rules,
            exec-Keeps cas,
            check_exit-Keeps,
            get_volume_from_cache_list-Keeps,
            is_device_in_system-Keeps,
          )
          depth 7

    pub remove_core-Keeps :
        (cas : OpenCas) (v : CachedVolume)
        → AllowsCmd P (remove_core_cmd v.cache_id v.core_id)
        → Keeps P (remove_core cas v)
    unfolding remove_core
    remove_core-Keeps cas v a =
        search
          (
            keeps_rules,
            exec-Keeps cas,
            check_exit-Keeps,
            get_volume_from_cache_list-Keeps,
            is_device_in_system-Keeps,
          )
          depth 7

    pub set_cache_mode-Keeps :
        (cas : OpenCas) (c : Cache) (mode : String)
        → AllowsCmd P (set_cache_mode_cmd c.cache_id mode)
        → Keeps P (set_cache_mode cas c mode)
    unfolding set_cache_mode
    set_cache_mode-Keeps cas c mode a =
        search (keeps_rules, exec-Keeps cas, check_exit-Keeps, list_caches-Keeps) depth 7

  pub get_cache_line_size-Keeps :
      (cas : OpenCas) (c : Cache)
      → AllowsCmd P (stats_cmd c.cache_id minus_one)
      → Keeps P (get_cache_line_size cas c)
  unfolding get_cache_line_size get_statistics
  get_cache_line_size-Keeps cas c a = search (keeps_rules, exec-Keeps cas) depth 7
