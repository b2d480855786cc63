-- ===== src/Operator/Cache/Reached.antt =====
-- From what `CacheReconciler.Reconcile` does to the caches of a node to all that it does with the node.
use open_cas_csi.Prelude.{
  ◌≡◌, refl, inl, inr, Bool-cases, [], ◌∷◌, ◌||◌, arith, Bool, true, false, String, ◌==◌,
  if◌then◌else◌,
}
use mathlib.Core.Path.{subst, subst⁻¹}
use open_cas_csi.Keeps.{Keeps-or_fail}
use open_cas_csi.Locks.{reads}
use open_cas_csi.OpenCas.Footprint.{new_open_cas_manager-Keeps}
use open_cas_csi.World.{World, History, Call, CacheDef, Node}
use open_cas_csi.Effect.{M, ok, ◌>>=◌, pure, fail, ask, or_fail}
use open_cas_csi.Success.{bind-ok, or_fail-ok}
use open_cas_csi.OpenCas.Manager.{OpenCas, new_open_cas_manager}
use open_cas_csi.Operator.Common.{
  after_patch, has_finalizer, Result, done, long_requeue_after, failed_with, requeue,
}
use open_cas_csi.Operator.Cache.{set_up, add_finalizer, with_finalizer, with_node}
use open_cas_csi.OpenCas.Manager.Results.{new_open_cas_manager-same}
use open_cas_csi.Operator.Cache.Removal.{Extends, Extends-refl, Extends-trans, work-Extends}

-- The rest of `with_node`, after the definition has its finalizer.
abbrev pub managed : CacheDef → Node → (unset : Bool) → (namespace : String) → M Result Result
managed def n unset namespace = if unset then fail (failed_with long_requeue_after) else do
  cas ← or_fail (new_open_cas_manager def.name namespace) (failed_with requeue)
  set_up cas def n

-- The definition after it was patched to have the finalizer, unless it has it or is being deleted: as
-- the server answers it, or as it was sent.
abbrev pub refreshed : CacheDef → World → History → CacheDef
refreshed def w h =
    if def.deleted || has_finalizer def.finalizers
    then def
    else after_patch (with_finalizer def) (w.answer h (Call.patch_cache def (with_finalizer def)))

abbrev pub after_finalizer : CacheDef → History → History
after_finalizer def h =
    if def.deleted || has_finalizer def.finalizers
    then h
    else Call.patch_cache def (with_finalizer def) ∷ h

finalizer-refreshed :
    (def : CacheDef) (w : World) (h : History)
    → (if def.deleted then pure def else add_finalizer def) w h
      ≡ (ok (refreshed def w h), after_finalizer def h)
unfolding add_finalizer pure ◌>>=◌
finalizer-refreshed def w h = ground arith

pub with_node-managed :
    (def : CacheDef) (n : Node) (w : World) (h : History)
    → with_node def n w h
      ≡ managed
          (refreshed def w h)
          n
          (w.getenv "CASADM_IMAGE" == "")
          (w.getenv "OPERATOR_NAMESPACE")
          w
          (after_finalizer def h)
unfolding with_node ask ◌>>=◌
with_node-managed def n w h = rw (finalizer-refreshed def w h) refl

pub after_finalizer-Extends :
    (def : CacheDef) (w : World) (h : History) → Extends h w (after_finalizer def h)
after_finalizer-Extends def w h = elim (Bool-cases (def.deleted || has_finalizer def.finalizers)) [
  | inl there ↦ rw there (Extends-refl h w)
  | inr missing ↦ rw missing (Call.patch_cache def (with_finalizer def) ∷ [], refl)
]

abbrev pub manager_of : CacheDef → (namespace : String) → OpenCas
manager_of def namespace = record { node_id = def.name; namespace = namespace }

-- What a `set_up` that asks for no other reconciliation reaches, `with_node` reaches.
module _ (def : CacheDef) (n : Node) (w : World) (P : OpenCas → (start end : History) → Type 0)
    (reached : (cas : OpenCas) (h : History)
      → (set_up cas def n w h).0 ≡ ok done
      → P cas h (set_up cas def n w h).1) where
  -- The calls `end`, after `h`, end with those that reached it.
  abbrev pub EndsIn : OpenCas → (h end : History) → Type 0
  EndsIn cas h end = (start : History) × Extends h w start × P cas start end

  managed-EndsIn :
      (namespace : String) (unset : Bool) (h : History)
      → (managed def n unset namespace w h).0 ≡ ok done
      → EndsIn (manager_of def namespace) h (managed def n unset namespace w h).1
  unfolding fail
  managed-EndsIn namespace true h e = cc
  managed-EndsIn namespace false h e =
      let made = bind-ok _ _ w h done e in
      let start =
        (or_fail {F = Result} (new_open_cas_manager def.name namespace) (failed_with requeue) w
          h).1 in
      let same =
        new_open_cas_manager-same def.name namespace w h made.0
          (or_fail-ok (new_open_cas_manager def.name namespace) (failed_with requeue) w h made.0
            made.1).0 in
      (
        start,
        (Keeps-or_fail (new_open_cas_manager def.name namespace) (failed_with requeue)
              (new_open_cas_manager-Keeps (reads (work-Extends h)) def.name namespace)).at
            w h (Extends-refl h w),
        subst⁻¹ (λ cas. P cas start (managed def n false namespace w h).1) same
            (subst⁻¹ (P made.0 start) made.3 (reached made.0 start made.2)),
      )

-- What a `set_up` of the refreshed definition that asks for no other reconciliation reaches, `with_node`
-- reaches.
pub with_node-EndsIn :
    (def : CacheDef) (n : Node) (w : World) (h : History)
    (P : OpenCas → (start end : History) → Type 0)
    (reached : (cas : OpenCas) (start : History)
      → (set_up cas (refreshed def w h) n w start).0 ≡ ok done
      → P cas start (set_up cas (refreshed def w h) n w start).1)
    → (with_node def n w h).0 ≡ ok done
    → EndsIn
        (refreshed def w h)
        n
        w
        P
        reached
        (manager_of (refreshed def w h) (w.getenv "OPERATOR_NAMESPACE"))
        h
        (with_node def n w h).1
with_node-EndsIn def n w h P reached e =
    let step = with_node-managed def n w h in
    let ended =
      managed-EndsIn (refreshed def w h) n w P reached (w.getenv "OPERATOR_NAMESPACE")
        (w.getenv "CASADM_IMAGE" == "") (after_finalizer def h)
        (subst (λ out. out.0 ≡ ok done) step e) in
    (
      ended.0,
      Extends-trans h (after_finalizer def h) ended.0 w (after_finalizer-Extends def w h) ended.1,
      subst⁻¹
          (λ out. P (manager_of (refreshed def w h) (w.getenv "OPERATOR_NAMESPACE")) ended.0 out.1)
          step ended.2,
    )
