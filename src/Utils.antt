-- ===== src/Utils.antt =====
-- pkg/utils/utils.go: local commands, file systems and mounts.
use Prim.Native.String.{◌++◌ as append}
use open_cas_csi.Prelude.{String, Bool, true, false, List, ◌==◌, not, if◌then◌else◌}
use open_cas_csi.Prelude.Text.{show_int, trim_space, atoi}
use open_cas_csi.Prelude.Int.{ℤ}
use open_cas_csi.World.{Call, Output, OsError, no_error, not_exist, exist, other_error}
use open_cas_csi.Effect.{on_run, on_option, M, pure, fail, call, ◌>>=◌, ◌>>◌, return_error}

-- `Output.String`
unfoldable pub output_string : Output → String
output_string o =
    append "result: " (append o.std_out (append "\n" (append "exit_code: " (show_int o.exit_code))))

-- `ExecLocalCommand`: an exit status other than 0 is no error.
unfoldable pub exec_local_command : String → M String Output
exec_local_command cmd = do
  r ← call (Call.shell cmd)
  on_run r (λ output. pure output) (fail "failed to run command")

-- `strconv.ParseInt(…, 10, 64)`, whose error is the caller's.
unfoldable pub get_device_size_from_path : String → M String ℤ
get_device_size_from_path path = do
  r ← call (Call.lsblk_size path)
  return_error (r.1)
  on_option (atoi (trim_space r.0)) (fail "invalid size") (λ size. pure size)

unfoldable pub get_device_fs_type : String → M String String
get_device_fs_type path = do
  r ← call (Call.lsblk_fs_type path)
  return_error (r.1)
  pure (trim_space r.0)

-- `CreateFs`, with no parameters as its one caller has it
unfoldable pub create_fs : (path fs_type : String) → M String Unit
create_fs path fs_type = do refused ← call (Call.mkfs fs_type path); return_error refused

unfoldable pub prepare_fs : (path fs_type : String) → M String Unit
unfolding get_device_fs_type create_fs
prepare_fs path fs_type = if fs_type == "" then fail "no file system specified for device" else do
  existing ← get_device_fs_type path
  if existing == ""
      then create_fs path fs_type
      else if existing == fs_type
      then pure tt
      else fail "file system found, another requested"

-- `err != nil && !os.IsNotExist(err)`
abbrev pub is_real : OsError → Bool
is_real no_error = false
is_real not_exist = false
is_real exist = true
is_real other_error = true

-- `err != nil && !os.IsExist(err)`
abbrev pub is_not_created : OsError → Bool
is_not_created no_error = false
is_not_created exist = false
is_not_created not_exist = true
is_not_created other_error = true

-- The target of a raw block volume is a file, of any other a directory.
unfoldable pub make_target : (target : String) → (raw_block : Bool) → M String Unit
make_target target true = do
  e ← call (Call.os_create target)
  if is_not_created e then fail "create target device file" else pure tt
make_target target false = do
  e ← call (Call.os_mkdir target)
  if is_not_created e then fail "cannot create target directory" else pure tt

-- `Mount`: what is a mount point already is left alone.
unfoldable pub mount :
    (source target fs_type : String) → List String → (raw_block : Bool) → M String Unit
unfolding make_target
mount source target fs_type options raw_block = do
  r ← call (Call.is_likely_not_mount_point target)
  if is_real (r.1)
      then fail "cannot determine if target is a valid mount point"
      else if not (r.0)
      then pure tt
      else do
        make_target target raw_block
        refused ← call (Call.mount source target fs_type options)
        return_error refused
