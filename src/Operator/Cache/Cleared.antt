-- ===== src/Operator/Cache/Cleared.antt =====
-- What a reconciliation of a definition that is being deleted leaves when it asks for no other one:
-- `CacheReconciler.Reconcile`.
use open_cas_csi.Prelude.{
  ◌≡◌, sym, ◌∙◌, ap, true, false, String, Option, none, List, [], ◌∷◌, arith, All, if◌then◌else◌,
}
use mathlib.Core.Path.{subst, subst⁻¹}
use open_cas_csi.World.{World, History, CacheDef, Node}
use open_cas_csi.Effect.{M, Outcome, ok, ◌>>=◌, pure, or_fail}
use open_cas_csi.Success.{bind-ok, or_fail-ok}
use open_cas_csi.Keeps.{Keeps-or_fail}
use open_cas_csi.Locks.{reads, any_cmd}
use open_cas_csi.OpenCas.Footprint.{get_cache_instances-Keeps}
use open_cas_csi.OpenCas.CacheList.{Cache}
use open_cas_csi.OpenCas.Manager.{OpenCas, get_cache_instances}
use open_cas_csi.Operator.Common.{Result, done, again, default_requeue_after, failed_with, requeue}
use open_cas_csi.Operator.Cache.{
  Progress, Plan, plan, unset_label, remove_instance, remove_all, modify_or_start, release, set_up,
  with_node, label_of,
}
use open_cas_csi.Operator.Footprint.{release-Keeps}
use open_cas_csi.Operator.Cache.Reached.{manager_of, refreshed, with_node-EndsIn}
use open_cas_csi.Operator.Cache.Settled.{ends_done}
use open_cas_csi.Operator.Cache.Planning.{plan-deleted}
use open_cas_csi.Operator.Cache.Removal.{
  Extends, Extends-refl, work-Extends, All-map, Removed, Removed-widen, remove_all-Removed,
}
use open_cas_csi.Operator.Cache.Dismissed.{Dismissed, release-Dismissed}

module _ (cas : OpenCas) (def : CacheDef) (label : Option String) (w : World)
    (gone : def.deleted ≡ true) where
  remove_instance-node :
      (c : Cache) (s : Progress) (h : History) (s' : Progress)
      → (remove_instance cas def label c s w h).0 ≡ ok s'
      → s'.node ≡ s.node
  unfolding remove_instance unset_label ◌>>=◌
  remove_instance-node c s h s' e = ground arith

  remove_all-node :
      (cs : List Cache) (s : Progress) (h : History) (s' : Progress)
      → (remove_all cas def label cs s w h).0 ≡ ok s'
      → s'.node ≡ s.node
  unfolding remove_all pure
  remove_all-node [] s h s' e = ground arith
  remove_all-node (c ∷ cs) s h s' e =
      let first = bind-ok _ _ w h s' e in
      remove_all-node cs first.0 _ s' first.2 ∙ remove_instance-node c s h first.0 first.1

modify-gone :
    (cas : OpenCas) (def : CacheDef) (s : Progress) (w : World) (h : History) (s' : Progress)
    → def.deleted ≡ true
    → (modify_or_start cas def none s w h).0 ≡ ok s'
    → (s ≡ s') × ((modify_or_start cas def none s w h).1 ≡ h)
unfolding modify_or_start pure
modify-gone cas def s w h s' gone e = ground arith

abbrev begun : Node → Progress
begun n = record { node = n; errors = false }

abbrev all_of : List Cache → Plan
all_of cs = record { remove_instances = cs; modify_instance = none }

-- The end of `set_up`, with the plan.
abbrev carry_out : OpenCas → CacheDef → Node → Plan → M Result Result
carry_out cas def n p = do
  s ← remove_all cas def (label_of n) p.remove_instances (begun n)
  s' ← modify_or_start cas def p.modify_instance s
  s'' ← release def s'
  pure (if s''.errors then again default_requeue_after else done)

-- Every listed instance was stopped or has volumes, and the definition and its node were released last.
abbrev pub Cleared : OpenCas → CacheDef → Node → World → (h end : History) → Type 0
Cleared cas def n w h end =
    (cs : List Cache) × ((get_cache_instances cas w h).0 ≡ ok cs)
    × All (λ c. Removed cas def c h w end) cs
    × Dismissed def n w end

same_plan : (p q : Plan) → ◌≡◌ {A = Outcome Result Plan} (ok p) (ok q) → p ≡ q
same_plan p q e = cc

module _ (cas : OpenCas) (def : CacheDef) (n : Node) (w : World) (gone : def.deleted ≡ true) where
  carry_out-Cleared :
      (cs : List Cache) (h : History)
      → (carry_out cas def n (all_of cs) w h).0 ≡ ok done
      → All (λ c. Removed cas def c h w (carry_out cas def n (all_of cs) w h).1) cs
        × Dismissed def n w (carry_out cas def n (all_of cs) w h).1
  unfolding pure
  carry_out-Cleared cs h e =
      let removed = bind-ok _ _ w h done e in
      let modified = bind-ok _ _ w _ done removed.2 in
      let released = bind-ok _ _ w _ done modified.2 in
      let clean = ends_done released.0 released.2 in
      let same = modify-gone cas def removed.0 w _ modified.0 gone modified.1 in
      let dismissed = release-Dismissed def modified.0 w _ released.0 gone released.1 clean in
      let no_errors = ap (λ s. s.errors) same.0 ∙ dismissed.0 in
      let all =
        remove_all-Removed cas def (label_of n) w cs (begun n) h removed.0 removed.1 no_errors in
      let node =
        sym (ap (λ s. s.node) same.0)
        ∙ remove_all-node cas def (label_of n) w gone cs (begun n) h removed.0 removed.1 in
      let end : History =
        (release def modified.0 w
          (modify_or_start cas def none removed.0 w
            (remove_all cas def (label_of n) cs (begun n) w h).1).1).1 in
      let after =
        subst (λ middle. Extends middle w end) same.1
          ((release-Keeps (work-Extends _) def modified.0).at w _ (Extends-refl _ w)) in
      subst⁻¹ (λ last. All (λ c. Removed cas def c h w last) cs × Dismissed def n w last)
        (removed.3 ∙ modified.3 ∙ released.3)
        (
          All-map (λ c. Removed-widen cas def c h h w _ end (Extends-refl h w) after) cs all.1,
          subst (λ m. Dismissed def m w end) node dismissed.1,
        )

  planned-all :
      (cs : List Cache) (h : History) (p : Plan)
      → (plan cas def cs (all_of []) w h).0 ≡ ok p
      → (p ≡ all_of cs) × ((plan cas def cs (all_of []) w h).1 ≡ h)
  planned-all cs h p e =
      let all = plan-deleted cas def cs (all_of []) w h gone in
      (same_plan p (all_of cs) (sym e ∙ ap (λ r. r.0) all), ap (λ r. r.1) all)

  set_up-Cleared :
      (h : History)
      → (set_up cas def n w h).0 ≡ ok done
      → Cleared cas def n w h (set_up cas def n w h).1
  unfolding set_up
  set_up-Cleared h e =
      let listed = bind-ok _ _ w h done e in
      let instances =
        or_fail-ok (get_cache_instances cas) (failed_with requeue) w h listed.0 listed.1 in
      let planned = bind-ok _ _ w _ done listed.2 in
      let all = planned-all listed.0 _ planned.0 planned.1 in
      let start = (or_fail {F = Result} (get_cache_instances cas) (failed_with requeue) w h).1 in
      let at_plan = (plan cas def listed.0 (all_of []) w start).1 in
      let did =
        subst (λ h'. (carry_out cas def n (all_of listed.0) w h').0 ≡ ok done) all.1
          (subst (λ p. (carry_out cas def n p w at_plan).0 ≡ ok done) all.0 planned.2) in
      let from =
        (Keeps-or_fail (get_cache_instances cas) (failed_with requeue) (
            get_cache_instances-Keeps (reads (work-Extends h)) (any_cmd (work-Extends h) _) cas)).at
          w h (Extends-refl h w) in
      let cleared = carry_out-Cleared listed.0 start did in
      subst⁻¹ (Cleared cas def n w h)
        (listed.3
          ∙ planned.3
          ∙ ap (λ p. (carry_out cas def n p w at_plan).1) all.0
          ∙ ap (λ h'. (carry_out cas def n (all_of listed.0) w h').1) all.1)
        (
          listed.0,
          instances.0,
          All-map (λ c. Removed-widen cas def c h start w _ _ from (Extends-refl _ w)) listed.0
              cleared.0,
          cleared.1,
        )

-- The calls `end`, after `h`, end with those after which the definition is cleared.
abbrev pub EndsCleared : OpenCas → CacheDef → Node → World → (h end : History) → Type 0
EndsCleared cas def n w h end =
    (start : History) × Extends h w start × Cleared cas def n w start end

-- When reconciling a definition asks for no other reconciliation, and the definition is being deleted,
-- as it was read or as the patch with its finalizer answered it, the calls
-- end with a listing of the caches and what followed. Each cache of this listing had no volumes and
-- a later listing has none on its device, or it has volumes. The last call takes the label off the
-- node and is not refused, and just before it the finalizer was taken off the definition, which was
-- not refused either, unless the definition had none.
pub with_node-EndsCleared :
    (def : CacheDef) (n : Node) (w : World) (h : History)
    → (refreshed def w h).deleted ≡ true
    → (with_node def n w h).0 ≡ ok done
    → EndsCleared
        (manager_of (refreshed def w h) (w.getenv "OPERATOR_NAMESPACE"))
        (refreshed def w h)
        n
        w
        h
        (with_node def n w h).1
with_node-EndsCleared def n w h gone e =
    with_node-EndsIn def n w h (λ cas start end. Cleared cas (refreshed def w h) n w start end)
      (λ cas start did. set_up-Cleared cas (refreshed def w h) n w gone start did) e
