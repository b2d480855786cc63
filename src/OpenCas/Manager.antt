-- ===== src/OpenCas/Manager.antt =====
-- pkg/opencas/api.go: the methods of `OpenCAS`. Each runs `casadm` in a Job on the node and checks
-- the list of caches that the node reports afterwards.
pub mod Results
pub mod Cores
pub mod Listed
use Prim.Native.String.{◌++◌ as append}
use open_cas_csi.Prelude.{
  ℕ, String, Bool, false, Option, none, some, List, [], ◌∷◌, ◌==◌, not, ◌&&◌, ◌||◌, if◌then◌else◌,
}
use open_cas_csi.Prelude.Int.{ℤ, pos, eq_int, minus_one}
use open_cas_csi.Prelude.Dict.{lookup}
use open_cas_csi.Prelude.Text.{contains, split, first_line, trim_space, parse_uint8}
use open_cas_csi.World.{Output}
use open_cas_csi.Effect.{on_option, M, pure, fail, crash, ask, range_over, relay, ◌>>=◌, ◌>>◌}
use open_cas_csi.K8sUtils.Settings.{kubelet_dir}
use open_cas_csi.K8sUtils.Objects.{new_k8s_utils}
use open_cas_csi.K8sUtils.Create.{exec_command_job}
use open_cas_csi.Utils.{output_string, exec_local_command}
use open_cas_csi.OpenCas.Casadm.{
  csi_driver_by_id_dir, replace, start_cache_cmd, stop_cache_cmd, add_core_cmd, remove_core_cmd,
  list_caches_cmd, stats_cmd, set_cache_mode_cmd,
}
use open_cas_csi.OpenCas.Csv.{read_rows}
use open_cas_csi.OpenCas.CacheList.{Cache, CachedVolume, StatsMap, parse_cache_list, parse_stats}
use open_cas_csi.OpenCas.Job.{casadm_job}
use open_cas_csi.OpenCas.JobName.{get_job_name}

pub record OpenCas : Type 0 where
  pub node_id : String
  pub namespace : String

-- One constructor for each `fmt.Errorf`, and `passed_on` for the error of a callee.
pub data Error : Type 0 where
  passed_on : String → Error
  unexpected_exit : (cmd : String) → ℤ → Error
  not_in_list : (cmd : String) → Error
  still_in_list : (cmd : String) → Error
  not_in_system : (cmd : String) → Error
  still_in_system : (cmd : String) → Error
  mode_not_changed : (cmd : String) → Error
  bad_stats : Error
  bad_number : Error
  no_link : Error

unfoldable pub new_open_cas_manager : (node_id namespace : String) → M Error OpenCas
new_open_cas_manager node_id namespace = do
  relay passed_on new_k8s_utils
  pure (record { node_id = node_id; namespace = namespace })

-- `cas.getJobName(cmd)`
unfoldable pub job_name : {E : Type 0} → OpenCas → String → M E String
job_name cas cmd = do order ← range_over replace; pure (get_job_name order cas.node_id cmd)

unfoldable pub exec_casadm_command_as_job :
    (cmd node_id job_name namespace : String) → M Error Output
exec_casadm_command_as_job cmd node_id name namespace = do
  w ← ask
  relay passed_on (exec_command_job (casadm_job w cmd node_id name namespace))

-- How each method runs its command.
unfoldable pub exec : OpenCas → String → M Error Output
unfolding job_name exec_casadm_command_as_job
exec cas cmd = do
  name ← job_name cas cmd
  exec_casadm_command_as_job cmd cas.node_id name cas.namespace

abbrev pub is_zero : ℤ → Bool
is_zero code = eq_int code (pos 0)

unfoldable pub or_crash : {A : Type 0} → Option A → M Error A
or_crash none = crash
or_crash (some a) = pure a

-- `ListCaches` does not read the exit code.
unfoldable pub list_caches : OpenCas → M Error (List Cache)
list_caches cas = do
  output ← exec cas list_caches_cmd
  or_crash (parse_cache_list (read_rows output.std_out))

-- The loops `for _, cache := range caches` with a test and a `return`.
unfoldable pub find_by_device : String → List Cache → Option Cache
find_by_device path [] = none
find_by_device path (c ∷ cs) = if c.device_path == path then some c else find_by_device path cs

unfoldable pub find_by_id : ℤ → List Cache → Option Cache
find_by_id id [] = none
find_by_id id (c ∷ cs) = if eq_int c.cache_id id then some c else find_by_id id cs

unfoldable pub find_volume : String → List Cache → Option CachedVolume
find_volume backend [] = none
find_volume backend (c ∷ cs) = elim (lookup backend c.volumes) [
  | some core ↦ some core
  | none ↦ find_volume backend cs
]

-- `if output.ExitCode != 0 && !tolerated { return … }`
unfoldable pub check_exit : (cmd : String) → Output → (tolerated : Bool) → M Error Unit
check_exit cmd output tolerated =
    if not (is_zero output.exit_code) && not tolerated
    then fail (unexpected_exit cmd output.exit_code)
    else pure tt

unfoldable pub start_cache : OpenCas → (path mode : String) → (cls : ℕ) → M Error Cache
start_cache cas path mode cls = do
  let cmd = start_cache_cmd path mode cls minus_one
  output ← exec cas cmd
  check_exit cmd output false
  caches ← list_caches cas
  on_option (find_by_device path caches) (fail (not_in_list cmd)) (λ cache. pure cache)

unfoldable pub stop_cache : OpenCas → Cache → M Error Unit
stop_cache cas c = do
  let cmd = stop_cache_cmd c.cache_id
  output ← exec cas cmd
  check_exit cmd output (contains (output_string output) "Cache ID does not exist")
  caches ← list_caches cas
  on_option (find_by_device c.device_path caches) (pure tt) (λ _. fail (still_in_list cmd))

unfoldable pub get_volume_from_cache_list : OpenCas → String → M Error (Option CachedVolume)
get_volume_from_cache_list cas backend = do
  caches ← list_caches cas
  pure (find_volume backend caches)

unfoldable pub is_device_in_system : String → M Error Bool
is_device_in_system path = do
  output ← relay passed_on (exec_local_command (append "ls -1 " path))
  pure (is_zero output.exit_code)

unfoldable pub add_core : OpenCas → Cache → String → M Error CachedVolume
add_core cas c path = do
  let cmd = add_core_cmd c.cache_id path minus_one
  output ← exec cas cmd
  check_exit cmd output false
  listed ← get_volume_from_cache_list cas path
  on_option listed (fail (not_in_list cmd)) (λ core. do
    exists ← is_device_in_system core.path
    if exists then pure core else fail (not_in_system cmd))

unfoldable pub remove_core : OpenCas → CachedVolume → M Error Unit
remove_core cas v = do
  let cmd = remove_core_cmd v.cache_id v.core_id
  output ← exec cas cmd
  check_exit cmd output (
      contains (output_string output) "Cache ID does not exist"
      || contains (output_string output) "Core ID does not exist")
  listed ← get_volume_from_cache_list cas v.backend_path
  on_option listed
      (do
        exists ← is_device_in_system v.path
        if exists then fail (still_in_system cmd) else pure tt)
      (λ _. fail (still_in_list cmd))

unfoldable pub set_cache_mode : OpenCas → Cache → (mode : String) → M Error Unit
set_cache_mode cas c mode = do
  let cmd = set_cache_mode_cmd c.cache_id mode
  output ← exec cas cmd
  check_exit cmd output false
  caches ← list_caches cas
  on_option (find_by_id c.cache_id caches) (fail (not_in_list cmd))
      (λ cache. if cache.cache_mode == mode then pure tt else fail (mode_not_changed cmd))

-- `GetStatistics` does not read the exit code either.
unfoldable pub get_statistics : OpenCas → (cache_id core_id : ℤ) → M Error StatsMap
get_statistics cas cache_id core_id = do
  output ← exec cas (stats_cmd cache_id core_id)
  on_option (parse_stats (read_rows output.std_out)) (fail bad_stats) (λ stats. pure stats)

abbrev stat : String → StatsMap → String
stat key stats = elim (lookup key stats) [ none ↦ "" | some v ↦ v ]

unfoldable pub get_cache_line_size : OpenCas → Cache → M Error ℕ
get_cache_line_size cas c = do
  stats ← get_statistics cas c.cache_id minus_one
  on_option (parse_uint8 (stat "Cache line size [KiB]" stats)) (fail bad_number) (λ n. pure n)

-- A `CacheInstance` is its cache.
unfoldable pub get_cache_instances : OpenCas → M Error (List Cache)
get_cache_instances cas = list_caches cas

unfoldable pub get_by_id_link_path_for_pv : String → String
get_by_id_link_path_for_pv pv_name = append csi_driver_by_id_dir (append "/" pv_name)

unfoldable pub remove_by_id_link : String → M Error Unit
remove_by_id_link link_name = do
  relay passed_on
      (exec_local_command (append "rm -f " (append csi_driver_by_id_dir (append "/" link_name))))
  pure tt

unfoldable pub find_device_cmd : (kubelet_dir pv_source_name : String) → String
find_device_cmd dir pv_source_name = append "find -L " (
    append dir (
      append "/ -type b -path '*/"
        (append pv_source_name "/*' -not -path '*/publish/*' -not -path '*/staging/*'")))

unfoldable pub link_cmd : (dev_path by_id_path : String) → String
link_cmd dev_path by_id_path =
    append "mkdir -p " (
      append csi_driver_by_id_dir
        (append " && ln -f -s " (append dev_path (append " " by_id_path))))

-- The exit code of `find` is not read; that of `ln` is.
unfoldable pub provide_by_id_link_for_pv :
    OpenCas → (pv_source_name pv_link_name : String) → M Error String
provide_by_id_link_for_pv cas pv_source_name pv_link_name = do
  w ← ask
  found ← relay passed_on (exec_local_command (find_device_cmd (kubelet_dir w) pv_source_name))
  let dev_path = trim_space (first_line found.std_out)
  let by_id_path = get_by_id_link_path_for_pv pv_link_name
  output ← relay passed_on (exec_local_command (link_cmd dev_path by_id_path))
  if is_zero output.exit_code then pure by_id_path else fail no_link
