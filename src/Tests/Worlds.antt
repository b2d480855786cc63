-- ===== src/Tests/Worlds.antt =====
-- A cluster in which every request succeeds, with one node that has one cache.
use open_cas_csi.Prelude.{String, Bool, true, false, none, some, [], ◌∷◌}
use open_cas_csi.Prelude.Int.{pos}
use open_cas_csi.World.{
  World, Call, Response, Pvc, Pod, running, exited, no_error, found, CacheDef, Node, DriverInstance,
  Kind, Object, plain,
}

abbrev pub pvc : Pvc
pvc = record {
  name = "opencas-csi-vol";
  labels = ("csi.open-cas.com/protected", "") ∷ [];
  volume_name = "pv-backend";
  spec = record {
    access_modes = "ReadWriteOnce" ∷ [];
    storage_class_name = "backend";
    volume_mode = "Block";
    request = none;
    limit = none;
  };
}

abbrev pub pod : Pod
pod = record {
  name = "node-vol";
  namespace = "kube-system";
  labels = ("csi.open-cas.com/protected", "") ∷ [];
  spec = record {
    container = "casadm";
    image = "alpine";
    image_pull_policy = "IfNotPresent";
    command = [];
    privileged = true;
    node_selector = [];
    volume_devices = [];
    volumes = [];
  };
  phase = running;
  containers = some (pos 0) ∷ [];
}

abbrev pub listing : String
listing =
    "type,id,disk,status,write policy,device\ncache,1,/dev/sda,Running,wt,-\ncore,1,/dev/sdb,Active,-,/dev/cas1-1\n"

abbrev pub cache_def : CacheDef
cache_def = record {
  name = "node";
  deleted = false;
  finalizers = [];
  device_by_id = "/dev/sda";
  cache_line_size = 4;
  cache_mode = "wt";
}

abbrev pub node : Node
node = record { name = "node"; labels = some [] }

abbrev pub instance_of : (deleted : Bool) → DriverInstance
instance_of deleted = record {
  name = "driver";
  deleted = deleted;
  finalizers = "csi.open-cas.com/operator" ∷ [];
  labels = [];
  log_level = 5;
  node_selector = [];
  driver_image = "driver";
  controller_replicas = 0;
  driver_namespace = "kube-system";
  casadm_image = "casadm";
  webhook_image = "webhook";
  protected_namespace = "kube-system";
}

abbrev object_there : Kind → (namespace name : String) → Object
object_there kind ns name = record {
  kind = kind;
  name = name;
  namespace = ns;
  labels = [];
  finalizers = "csi.open-cas.com/operator" ∷ [];
  owner = some "driver";
  resource_version = "7";
  payload = plain;
}

abbrev pub answers : (pvc_there : Bool) → (c : Call) → Response c
answers true (Call.get_pvc _ _) = (pvc, none)
answers false (Call.get_pvc _ _) = (record pvc { name = "" }, some "not found")
answers _ (Call.get_pv name) = (name, none)
answers _ (Call.get_sc name) = (name, none)
answers _ (Call.get_node _) = some []
answers _ (Call.get_pod _ _) = (pod, none)
answers _ (Call.create_pod _ _) = (pod, none)
answers _ (Call.watch_pod _ _) = ([], none)
answers _ (Call.list_pods _ _) = (pod ∷ [], none)
answers _ (Call.pod_logs _ _) = (listing, none, none)
answers _ (Call.create_job _) = ("job", "uid", none)
answers _ (Call.watch_job _ _) = ([], none)
answers _ (Call.shell _) = exited (record { std_out = "/dev/sdc\n"; exit_code = pos 0 })
answers _ (Call.lsblk_fs_type _) = ("\n", none)
answers _ (Call.os_stat _) = no_error
answers _ (Call.os_remove _) = no_error
answers _ (Call.lsblk_size _) = ("1024\n", none)
answers _ (Call.list_pods_of _ _) = (pod ∷ [], none)
answers _ (Call.os_mkdir _) = no_error
answers _ (Call.os_create _) = no_error
answers _ (Call.is_likely_not_mount_point _) = (true, no_error)
answers _ (Call.is_mount_point _) = (false, no_error)
answers _ Call.list_mounts = ([], none)
answers _ (Call.device_of_mount _) = ("", none)
answers _ (Call.read_cache _) = found cache_def
answers _ (Call.patch_cache _ new) = (new, none)
answers _ (Call.patch_node _ new) = (new, none)
answers _ (Call.patch_instance _ new) = (new, none)
answers _ (Call.read_node _) = found node
answers _ (Call.read_instance _) = found (instance_of false)
answers _ (Call.read_object kind ns name) = found (object_there kind ns name)
answers _ _ = none

abbrev pub world_with : (pvc_there : Bool) → World
world_with there = record {
  getenv = λ _. "value";
  range = λ _ m. m;
  answer = λ _ c. answers there c;
}

abbrev pub world : World
world = world_with true
