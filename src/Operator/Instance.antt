-- ===== src/Operator/Instance.antt =====
-- pkg/csi-operator/internal/controller/driverinstance_controller.go: `DriverInstanceReconciler`.
pub mod Release
pub mod Refreshed
pub mod Handled
pub mod Applied
pub mod Freed
pub mod Carried
use mathlib.Core.List.{reverse}
use open_cas_csi.Prelude.{String, Bool, true, false, some, List, [], ◌∷◌, if◌then◌else◌}
use open_cas_csi.World.{
  Call, found, not_found, failed, Kind, deployment, daemon_set, Object, DriverInstance,
}
use open_cas_csi.Effect.{
  on_found, M, pure, fail, call, ◌>>=◌, ◌>>◌, or_fail, return_error, ignoring, locked, ask,
  returning,
}
use open_cas_csi.K8sUtils.Settings.{kubelet_dir}
use open_cas_csi.Operator.Common.{
  no_requeue, requeue, default_requeue_after, Result, done, failed_with, has_finalizer, after_patch,
  add_finalizer_to, remove_finalizer_from,
}
use open_cas_csi.Operator.Objects.{get_objects_list}

-- `case *appsv1.DaemonSet, *appsv1.Deployment`
abbrev pub is_workload : Kind → Bool
is_workload deployment = true
is_workload daemon_set = true
is_workload _ = false

-- The object as `handleObject` sends it: owned by the instance, with the finalizer if it is no
-- workload.
unfoldable pub prepared : DriverInstance → Object → Object
prepared di obj =
    let owned = record obj { owner = some di.name } in
    if is_workload obj.kind
    then owned
    else record owned { finalizers = add_finalizer_to obj.finalizers }

-- A found object of a deleted instance: workloads are left to the garbage collector.
unfoldable pub release_object : Object → M String Unit
release_object there =
    if is_workload there.kind
    then pure tt
    else if has_finalizer there.finalizers
    then (do
      refused ← call (
          Call.update_object (record there { finalizers = remove_finalizer_from there.finalizers }))
      return_error refused)
    else pure tt

-- `there.kind` is the kind that was asked for.
unfoldable pub apply_object : DriverInstance → (obj there : Object) → M String Unit
apply_object di obj there =
    if di.deleted then release_object (record there { kind = obj.kind }) else do
      refused ←
          call (Call.patch_object there (record obj { resource_version = there.resource_version }))
      return_error refused

unfoldable pub create_unless_deleted : DriverInstance → Object → M String Unit
create_unless_deleted di obj =
    if di.deleted then pure tt else do refused ← call (Call.create_object obj); return_error refused

unfoldable pub handle_object : DriverInstance → Object → M String Unit
handle_object di obj = do
  refused ← call (Call.set_owner di obj)
  return_error refused
  read ← call (Call.read_object obj.kind obj.namespace obj.name)
  on_found read (λ there. apply_object di (prepared di obj) there)
      (create_unless_deleted di (prepared di obj)) (λ text. fail text)

-- The loop stops at the first error.
unfoldable pub handle_all : DriverInstance → List Object → M String Unit
handle_all di [] = pure tt
handle_all di (obj ∷ objs) = do handle_object di obj; handle_all di objs

abbrev pub with_finalizer : DriverInstance → DriverInstance
with_finalizer di = record di { finalizers = add_finalizer_to di.finalizers }

-- The error is only logged by the caller; what is left is the instance as it is then.
unfoldable pub add_finalizer : DriverInstance → M Result DriverInstance
add_finalizer di = if has_finalizer di.finalizers then pure di else do
  answered ← call (Call.patch_instance di (with_finalizer di))
  pure (after_patch (with_finalizer di) answered)

unfoldable pub remove_finalizer : DriverInstance → M String Unit
remove_finalizer di =
    if has_finalizer di.finalizers
    then (do
      answered ←
          call (
            Call.patch_instance di (record di { finalizers = remove_finalizer_from di.finalizers }))
      return_error answered.1)
    else pure tt

-- Deletion handles the objects in the opposite order; `deleted` is `isDeleted`, as the instance was read.
unfoldable pub objects_in_order :
    (deleted : Bool) → (kubelet_dir : String) → DriverInstance → List Object
objects_in_order deleted dir di =
    if deleted then reverse (get_objects_list dir di) else get_objects_list dir di

unfoldable pub reconcile_instance : DriverInstance → M Result Result
reconcile_instance di = do
  w ← ask
  di' ← if di.deleted then pure di else add_finalizer di
  or_fail (handle_all di' (objects_in_order di.deleted (kubelet_dir w) di')) (failed_with requeue)
  if di.deleted then or_fail (remove_finalizer di') (failed_with default_requeue_after) else pure tt
  pure done

-- One lock for all instances.
unfoldable pub reconcile : (name : String) → M Result Result
reconcile name = locked "" (
    returning (do
      read ← call (Call.read_instance name)
      on_found read (λ di. reconcile_instance di) (pure done) (λ _. fail (failed_with no_requeue))))
