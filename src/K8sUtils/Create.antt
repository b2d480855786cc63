-- ===== src/K8sUtils/Create.antt =====
-- pkg/k8sutils/k8sutils.go: the operations that create a PVC, the intermediate Pod and a command
-- Job, with the loops that wait on a watch channel.
use open_cas_csi.Prelude.{
  if◌then◌else◌, String, Bool, true, false, Option, none, some, List, [], ◌∷◌,
}
use open_cas_csi.Prelude.Int.{ℤ, minus_one}
use open_cas_csi.World.{
  Call, Pvc, Pod, Phase, running, other_phase, Job, Event, object, status, timeout, JobStatus,
  Output,
}
use open_cas_csi.Effect.{
  on_option, on_list, M, pure, fail, call, ask, ◌>>=◌, ◌>>◌, return_error, deferring,
}
use open_cas_csi.K8sUtils.Settings.{protected_namespace}
use open_cas_csi.K8sUtils.Specs.{
  PvcConfig, PodConfig, get_sub_provider_pvc_spec, get_intermediate_pod_spec,
}
use open_cas_csi.K8sUtils.Objects.{protected_label}

-- The object that `CreateSubproviderPvc` sends.
unfoldable pub subprovider_pvc : PvcConfig → Pvc
unfolding get_sub_provider_pvc_spec
subprovider_pvc config = record {
  name = config.name;
  labels = (protected_label, "") ∷ [];
  volume_name = "";
  spec = get_sub_provider_pvc_spec config;
}

unfoldable pub create_subprovider_pvc : PvcConfig → M String Unit
unfolding subprovider_pvc
create_subprovider_pvc config = do
  w ← ask
  refused ← call (Call.create_pvc (protected_namespace w) (subprovider_pvc config))
  return_error refused

unfoldable pub intermediate_pod : PodConfig → Pod
unfolding get_intermediate_pod_spec
intermediate_pod config = record {
  name = config.name;
  namespace = config.namespace;
  labels = (protected_label, "") ∷ [];
  spec = get_intermediate_pod_spec config;
  phase = other_phase;
  containers = [];
}

-- The loop over the watch channel: the last phase seen, and the timeout error. The loop ends only
-- when the channel is closed; `watch.Stop()` asks for that.
unfoldable pub await_pod : List (Event Pod) → Phase → Option String → Phase × Option String
await_pod [] phase e = (phase, e)
await_pod (object pod ∷ events) phase e = await_pod events pod.phase e
await_pod (status ∷ events) phase e = await_pod events phase e
await_pod (timeout ∷ events) phase e =
    await_pod events phase (some "timeout waiting for intermediate Pod")

abbrev is_running : Phase → Bool
is_running running = true
is_running other_phase = false

-- `CreateIntermediatePod`: the Pod and the error, side by side. A Pod that is not running when the
-- channel closes is deleted, and the answer of the delete is not read.
unfoldable pub create_intermediate_pod : {E : Type 0} → PodConfig → M E (Option Pod × Option String)
create_intermediate_pod config = do
  created ← call (Call.create_pod config.namespace (intermediate_pod config))
  on_option (created.1)
      (do
        watched ← call (Call.watch_pod config.namespace created.0.name)
        on_option (watched.1)
            (do
              let waited = await_pod watched.0 created.0.phase none
              if is_running waited.0
                  then (pure (some created.0, none))
                  else (call (Call.delete_pod config.namespace config.name) >>= λ _.
                      pure (some created.0, waited.1)))
            (λ e. pure (some created.0, some e)))
      (λ e. pure (none, some e))

-- The loop of `ExecCommandJob`, with the error that it leaves.
unfoldable pub await_job : List (Event JobStatus) → Option String → Option String
await_job [] e = e
await_job (timeout ∷ events) e =
    await_job events (some "timeout waiting for command job completion")
await_job (_ ∷ events) e = await_job events e

abbrev exit_code_of : Option ℤ → ℤ
exit_code_of none = minus_one
exit_code_of (some code) = code

-- The output of the first Pod of the Job, from its container's status and its log.
unfoldable pub job_output : (namespace name : String) → List Pod → M String Output
job_output ns name [] = fail "pod for command job not found"
job_output ns name (pod ∷ _) =
    on_list (pod.containers) (fail "cannot read pod status for command job") (λ terminated _. do
      logs ← call (Call.pod_logs pod.namespace pod.name)
      return_error (logs.1)
      return_error (logs.2)
      pure (record { std_out = logs.0; exit_code = exit_code_of terminated }))

-- `ExecCommandJob`: the Job is deleted however the function ends, once it has been created.
-- The error that the loop leaves is overwritten by the one of `List`.
unfoldable pub exec_command_job : Job → M String Output
unfolding job_output await_job
exec_command_job job = do
  created ← call (Call.create_job job)
  return_error (created.2)
  deferring (Call.delete_job job.namespace created.0) (do
    watched ← call (Call.watch_job job.namespace created.0)
    return_error (watched.1)
    let overwritten = await_job watched.0 none
    pods ← call (Call.list_pods job.namespace created.1)
    return_error (pods.1)
    job_output job.namespace job.name pods.0)
