-- ===== src/Tests/OpenCas.antt =====
-- The theorems about pkg/opencas, applied.
use open_cas_csi.Prelude.{◌≡◌, refl, ◌≤◌, String, true, false, List, [], ◌∷◌, All, length}
use open_cas_csi.Prelude.Int.{pos}
use open_cas_csi.Prelude.Dict.{insert, lookup}
use open_cas_csi.Prelude.Text.{split, show, show_int, atoi_value}
use open_cas_csi.World.{World, Call, Response, exited}
use open_cas_csi.Utils.{exec_local_command}
use open_cas_csi.Effect.{◌>>=◌}
use open_cas_csi.K8sUtils.Create.{exec_command_job, job_output}
use open_cas_csi.OpenCas.Casadm.{
  replace, start_cache_cmd, add_core_cmd, remove_core_cmd, stop_cache_cmd,
}
use open_cas_csi.OpenCas.Casadm.Arguments.{split-casadm_cmds}
use open_cas_csi.Prelude.Words.{IsWord-is_word}
use open_cas_csi.OpenCas.Csv.{Row, read_rows}
use open_cas_csi.OpenCas.JobName.{job_name_chars}
use open_cas_csi.OpenCas.JobName.Alphabet.{IsNamed, IsLabel, job_name_chars-IsLabel}
use open_cas_csi.OpenCas.Csv.{chars}
use open_cas_csi.OpenCas.CacheList.{Cache, CachedVolume, parse_cache_list}
use open_cas_csi.OpenCas.CacheList.Owners.{OwnsVolumes, parse_cache_list-OwnsVolumes}
use open_cas_csi.OpenCas.Manager.{
  OpenCas, exec, job_name, exec_casadm_command_as_job, check_exit, list_caches, or_crash,
  find_by_device, find_volume, get_volume_from_cache_list, is_device_in_system, add_core,
  remove_core, start_cache,
}
use open_cas_csi.OpenCas.Manager.Cores.{
  HasVolume, NoVolume, EndsWithDevice, add_core-HasVolume, remove_core-NoVolume,
}
use open_cas_csi.OpenCas.Manager.Results.{start_cache-device_path}
use open_cas_csi.Tests.Worlds.{world, answers}

abbrev cas : OpenCas
cas = record { node_id = "node"; namespace = "kube-system" }

abbrev cache_on : String → Cache
cache_on path = record {
  cache_id = pos 1;
  device_path = path;
  status = "Running";
  cache_mode = "wt";
  volumes = [];
}

split-casadm_cmds_example :
    (split (start_cache_cmd "/dev/sda" "wb" 4 (pos 2))
      ≡ "casadm" ∷ "--start-cache" ∷ "--force" ∷ "--cache-device" ∷ "/dev/sda" ∷ "--cache-id" ∷ "2"
        ∷ "--cache-mode" ∷ "wb" ∷ "--cache-line-size" ∷ "4" ∷ [])
    × (split (add_core_cmd (pos 2) "/dev/sda" (pos 1))
        ≡ "casadm" ∷ "--add-core" ∷ "--cache-id" ∷ "2" ∷ "--core-device" ∷ "/dev/sda" ∷ "--core-id"
          ∷ "1" ∷ [])
    × (split (remove_core_cmd (pos 2) (pos 1))
        ≡ "casadm" ∷ "--remove-core" ∷ "--cache-id" ∷ "2" ∷ "--core-id" ∷ "1" ∷ [])
    × (split (stop_cache_cmd (pos 2)) ≡ "casadm" ∷ "--stop-cache" ∷ "--cache-id" ∷ "2" ∷ [])
unfolding show_int show
split-casadm_cmds_example =
    split-casadm_cmds "/dev/sda" "wb" 4 (pos 2) (pos 1) (IsWord-is_word "/dev/sda" refl)
      (IsWord-is_word "wb" refl)

node_id-IsNamed : IsNamed (chars "Node-1.example")
node_id-IsNamed = (
  refl,
  (
    refl,
    (
      refl,
      (refl, (refl, (refl, (refl, (refl, (refl, (refl, (refl, (refl, (refl, (refl, tt))))))))))),
    ),
  ),
)

job_name_chars-IsLabel_example :
    length (job_name_chars replace "Node-1.example" "casadm --stop-cache --cache-id 1") ≤ 63
    × IsLabel (job_name_chars replace "Node-1.example" "casadm --stop-cache --cache-id 1")
job_name_chars-IsLabel_example =
    job_name_chars-IsLabel replace "Node-1.example" "casadm --stop-cache --cache-id 1"
      node_id-IsNamed

abbrev rows : List Row
rows =
    record { fields = "cache" ∷ "1" ∷ "/dev/sda" ∷ "Running" ∷ "wt" ∷ "-" ∷ []; bad = false }
    ∷ record {
      fields = "core" ∷ "2" ∷ "/dev/sdb" ∷ "Active" ∷ "-" ∷ "/dev/cas1-2" ∷ [];
      bad = false;
    }
    ∷ []

abbrev parsed : Cache
parsed = record (cache_on "/dev/sda") {
  volumes =
      (
        "/dev/sdb",
        record {
          core_id = pos 2;
          backend_path = "/dev/sdb";
          status = "Active";
          path = "/dev/cas1-2";
          cache_id = pos 1;
        },
      )
      ∷ [];
}

-- The cache of `listing`.
abbrev started : Cache
started = record (cache_on "/dev/sda") {
  volumes =
      (
        "/dev/sdb",
        record {
          core_id = pos 1;
          backend_path = "/dev/sdb";
          status = "Active";
          path = "/dev/cas1-1";
          cache_id = pos 1;
        },
      )
      ∷ [];
}

parse_cache_list-OwnsVolumes_example : All OwnsVolumes (parsed ∷ [])
unfolding parse_cache_list atoi_value insert
parse_cache_list-OwnsVolumes_example = parse_cache_list-OwnsVolumes rows (parsed ∷ []) refl

start_cache-device_path_example : started.device_path ≡ "/dev/sda"
unfolding start_cache exec exec_casadm_command_as_job exec_command_job job_output check_exit
    list_caches job_name or_crash parse_cache_list read_rows find_by_device ◌>>=◌ atoi_value insert
start_cache-device_path_example =
    start_cache-device_path cas "/dev/sda" "wt" 4 world [] started refl

-- The volume of `listing`.
abbrev core : CachedVolume
core = record {
  core_id = pos 1;
  backend_path = "/dev/sdb";
  status = "Active";
  path = "/dev/cas1-1";
  cache_id = pos 1;
}

add_core-HasVolume_example :
    EndsWithDevice
      (HasVolume "/dev/sdb" core)
      "/dev/cas1-1"
      true
      cas
      world
      (add_core cas (cache_on "/dev/sda") "/dev/sdb" world []).1
unfolding add_core exec exec_casadm_command_as_job exec_command_job job_output check_exit
    list_caches job_name or_crash parse_cache_list read_rows find_volume get_volume_from_cache_list
    is_device_in_system exec_local_command ◌>>=◌ atoi_value insert lookup
add_core-HasVolume_example =
    add_core-HasVolume cas (cache_on "/dev/sda") "/dev/sdb" world [] core refl

-- The volume on another backend, which the listing does not have; `ls` does not find its device.
abbrev gone : CachedVolume
gone = record core { backend_path = "/dev/sdq"; path = "/dev/cas1-7" }

abbrev gone_answers : (c : Call) → Response c
gone_answers (Call.shell _) = exited (record { std_out = ""; exit_code = pos 2 })
gone_answers c = answers true c

abbrev gone_world : World
gone_world = record world { answer = λ _ c. gone_answers c }

remove_core-NoVolume_example :
    EndsWithDevice
      (NoVolume "/dev/sdq")
      "/dev/cas1-7"
      false
      cas
      gone_world
      (remove_core cas gone gone_world []).1
unfolding remove_core exec exec_casadm_command_as_job exec_command_job job_output check_exit
    list_caches job_name or_crash parse_cache_list read_rows find_volume get_volume_from_cache_list
    is_device_in_system exec_local_command ◌>>=◌ atoi_value insert lookup
remove_core-NoVolume_example = remove_core-NoVolume cas gone gone_world [] refl
