-- ===== src/Tests/Carried.antt =====
-- A reconciliation that applies the objects of a driver.
use open_cas_csi.Prelude.{refl, false, []}
use open_cas_csi.Effect.{◌>>=◌}
use open_cas_csi.Operator.Common.{has_finalizer}
use open_cas_csi.Operator.Objects.{get_objects_list}
use open_cas_csi.Operator.Instance
use open_cas_csi.Operator.Instance.{
  reconcile_instance, handle_all, handle_object, objects_in_order, apply_object,
}
use open_cas_csi.Operator.Instance.Refreshed.{refreshed, after_finalizer}
use open_cas_csi.Operator.Instance.Carried.{CarriedOut, reconcile_instance-CarriedOut}
use open_cas_csi.Tests.Worlds.{world, instance_of}

reconcile_instance-CarriedOut_example :
    CarriedOut false
      (refreshed (instance_of false) world []).deleted
      (refreshed (instance_of false) world [])
      world
      (after_finalizer (instance_of false) [])
      (reconcile_instance (instance_of false) world []).1
unfolding reconcile_instance handle_all handle_object objects_in_order apply_object ◌>>=◌
    has_finalizer Instance.add_finalizer get_objects_list
reconcile_instance-CarriedOut_example =
    reconcile_instance-CarriedOut (instance_of false) world [] refl
