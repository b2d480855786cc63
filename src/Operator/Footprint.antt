-- ===== src/Operator/Footprint.antt =====
-- Which calls the reconcilers of pkg/csi-operator/internal/controller make under their locks: rules by
-- which an invariant that only the locking calls break is carried through them.
use open_cas_csi.Prelude.{String, Option, none, some, List, [], ◌∷◌}
use open_cas_csi.World.{World, History, CacheDef, Node, Object, DriverInstance}
use open_cas_csi.Keeps.{Keeps, keeps_rules, Keeps-bind}
use open_cas_csi.OpenCas.CacheList.{Cache}
use open_cas_csi.OpenCas.Manager.{OpenCas}
use open_cas_csi.OpenCas.Footprint.{
  new_open_cas_manager-Keeps, get_cache_instances-Keeps, get_cache_line_size-Keeps,
  start_cache-Keeps, stop_cache-Keeps, set_cache_mode-Keeps,
}
use open_cas_csi.Locks.{AllowsWork, Allows-work, reads, any_cmd}
use open_cas_csi.Operator.Cache
use open_cas_csi.Operator.Cache.{
  set_operating_cache_label, delete_operating_cache_label, plan_instance, plan, Plan, Progress,
  unset_label, remove_instance, remove_all, modify_or_start, release, set_up, with_node,
}
use open_cas_csi.Operator.Instance
use open_cas_csi.Operator.Instance.{
  release_object, apply_object, create_unless_deleted, handle_object, handle_all,
  reconcile_instance,
}

module _ {P : World → History → Type 0} (a : AllowsWork P) where
  module _ (def : CacheDef) where
    pub patch-Keeps : (n : Node) (text : String) → Keeps P (set_operating_cache_label n text)
    unfolding set_operating_cache_label
    patch-Keeps n text = search (keeps_rules, Allows-work a) depth 8

    pub release-Keeps : (s : Progress) → Keeps P (release def s)
    unfolding release Cache.remove_finalizer delete_operating_cache_label
    release-Keeps s = search (keeps_rules, Allows-work a) depth 12

    pub plan_instance-Keeps :
        (cas : OpenCas) (c : Cache) (p : Plan) → Keeps P (plan_instance cas def c p)
    unfolding plan_instance
    plan_instance-Keeps cas c p =
        search (keeps_rules, get_cache_line_size-Keeps (reads a), any_cmd a) depth 8

    pub plan-Keeps : (cas : OpenCas) (cs : List Cache) (p : Plan) → Keeps P (plan cas def cs p)
    unfolding plan
    plan-Keeps cas [] p = search keeps_rules
    plan-Keeps cas (c ∷ cs) p = search (keeps_rules, plan_instance-Keeps, plan-Keeps cas cs)

    pub remove_instance-Keeps :
        (cas : OpenCas) (label : Option String) (c : Cache) (s : Progress)
        → Keeps P (remove_instance cas def label c s)
    unfolding remove_instance unset_label
    remove_instance-Keeps cas label c s =
        search (keeps_rules, stop_cache-Keeps (reads a), any_cmd a, patch-Keeps) depth 10

    pub remove_all-Keeps :
        (cas : OpenCas) (label : Option String) (cs : List Cache) (s : Progress)
        → Keeps P (remove_all cas def label cs s)
    unfolding remove_all
    remove_all-Keeps cas label [] s = search keeps_rules
    remove_all-Keeps cas label (c ∷ cs) s =
        search (keeps_rules, remove_instance-Keeps, remove_all-Keeps cas label cs)

    pub modify_or_start-Keeps :
        (cas : OpenCas) (c : Option Cache) (s : Progress) → Keeps P (modify_or_start cas def c s)
    unfolding modify_or_start
    modify_or_start-Keeps cas none s =
        search (keeps_rules, start_cache-Keeps (reads a), any_cmd a, patch-Keeps) depth 10
    modify_or_start-Keeps cas (some c) s =
        search (keeps_rules, set_cache_mode-Keeps (reads a), any_cmd a) depth 10

    pub set_up-Keeps : (cas : OpenCas) (n : Node) → Keeps P (set_up cas def n)
    unfolding set_up
    set_up-Keeps cas n =
        search
          (
            keeps_rules,
            get_cache_instances-Keeps (reads a),
            any_cmd a,
            plan-Keeps,
            remove_all-Keeps,
            modify_or_start-Keeps,
            release-Keeps,
          )
          depth 12

  add_finalizer-Keeps : (def : CacheDef) → Keeps P (Cache.add_finalizer def)
  unfolding Cache.add_finalizer
  add_finalizer-Keeps def = search (keeps_rules, Allows-work a) depth 8

  pub with_node-Keeps : (def : CacheDef) (n : Node) → Keeps P (with_node def n)
  unfolding with_node
  with_node-Keeps def n =
      search (keeps_rules, add_finalizer-Keeps, new_open_cas_manager-Keeps (reads a), set_up-Keeps)
        depth 12

  module _ (di : DriverInstance) where
    pub handle_object-Keeps : (obj : Object) → Keeps P (handle_object di obj)
    unfolding handle_object apply_object create_unless_deleted release_object
    handle_object-Keeps obj = search (keeps_rules, Allows-work a) depth 14

    pub handle_all-Keeps : (objs : List Object) → Keeps P (handle_all di objs)
    unfolding handle_all
    handle_all-Keeps [] = search keeps_rules
    handle_all-Keeps (obj ∷ objs) =
        Keeps-bind _ _ (handle_object-Keeps obj) (λ _. handle_all-Keeps objs)

    remove_instance_finalizer-Keeps : Keeps P (Instance.remove_finalizer di)
    unfolding Instance.remove_finalizer
    remove_instance_finalizer-Keeps = search (keeps_rules, Allows-work a) depth 8

    add_instance_finalizer-Keeps : Keeps P (Instance.add_finalizer di)
    unfolding Instance.add_finalizer
    add_instance_finalizer-Keeps = search (keeps_rules, Allows-work a) depth 8

  pub reconcile_instance-Keeps : (di : DriverInstance) → Keeps P (reconcile_instance di)
  unfolding reconcile_instance
  reconcile_instance-Keeps di =
      search
        (
          keeps_rules, add_instance_finalizer-Keeps, remove_instance_finalizer-Keeps,
          handle_all-Keeps,
        )
        depth 12
