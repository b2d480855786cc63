-- ===== src/Operator/Cache/Planning.antt =====
-- What the loop over the instances in `CacheReconciler.Reconcile` decides.
use open_cas_csi.Prelude.{
  ◌≡◌, true, false, Option, none, some, List, [], ◌∷◌, ◌++◌, ◌==◌, append_assoc, arith, append-nil,
}
use open_cas_csi.World.{World, History, CacheDef}
use open_cas_csi.Effect.{◌>>=◌, ok, pure}
use open_cas_csi.Operator.Common.{Result}
use open_cas_csi.Success.{bind-ok}
use open_cas_csi.OpenCas.CacheList.{Cache}
use open_cas_csi.OpenCas.Manager.{OpenCas}
use open_cas_csi.Operator.Cache.{Plan, plan_instance, plan}

-- With a definition that is being deleted, all instances are added to those to remove, in their
-- order, none is kept, and nothing is called.
pub plan-deleted :
    (cas : OpenCas) (def : CacheDef) (cs : List Cache) (p : Plan) (w : World) (h : History)
    → def.deleted ≡ true
    → plan cas def cs p w h ≡ (ok (record p { remove_instances = p.remove_instances ++ cs }), h)
unfolding plan plan_instance ◌>>=◌
plan-deleted cas def [] p w h e = simp append-nil
plan-deleted cas def (c ∷ cs) p w h e = ground (
  arith,
  append_assoc p.remove_instances (c ∷ []) cs,
  plan-deleted cas def cs (record p { remove_instances = p.remove_instances ++ (c ∷ []) }) w h e,
)

-- The instance that is kept is on the definition's device, and the definition stays.
abbrev pub KeepsOwn : CacheDef → Option Cache → Type 0
KeepsOwn def none = Unit
KeepsOwn def (some c) = ((c.device_path == def.device_by_id) ≡ true) × (def.deleted ≡ false)

plan_instance-KeepsOwn :
    (cas : OpenCas) (def : CacheDef) (c : Cache) (p : Plan) (w : World) (h : History) (q : Plan)
    → KeepsOwn def p.modify_instance
    → (plan_instance cas def c p w h).0 ≡ ok q
    → KeepsOwn def q.modify_instance
unfolding plan_instance ◌>>=◌
plan_instance-KeepsOwn cas def c p w h q k e = grind arith

nil-KeepsOwn :
    (def : CacheDef) (p : Plan) (w : World) (h : History) (q : Plan)
    → KeepsOwn def p.modify_instance
    → (pure {E = Result} p w h).0 ≡ ok q
    → KeepsOwn def q.modify_instance
unfolding ◌>>=◌
nil-KeepsOwn def p w h q k e = grind arith

-- Whatever the statistics say, the instance that the loop keeps to modify is on the definition's
-- device, and no instance is kept for a definition that is being deleted, if this held at the start.
plan-KeepsOwn :
    (cas : OpenCas) (def : CacheDef) (cs : List Cache) (p : Plan) (w : World) (h : History)
    (q : Plan)
    → KeepsOwn def p.modify_instance
    → (plan cas def cs p w h).0 ≡ ok q
    → KeepsOwn def q.modify_instance
unfolding plan
plan-KeepsOwn cas def [] p w h q k e = nil-KeepsOwn def p w h q k e
plan-KeepsOwn cas def (c ∷ cs) p w h q k e =
    let first = bind-ok _ _ w h q e in
    plan-KeepsOwn cas def cs first.0 w _ q
      (plan_instance-KeepsOwn cas def c p w h first.0 k first.1) first.2
