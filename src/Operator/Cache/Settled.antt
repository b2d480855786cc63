-- ===== src/Operator/Cache/Settled.antt =====
-- What a reconciliation that asks for no other one has reached: `CacheReconciler.Reconcile`.
use open_cas_csi.Prelude.{
  ◌≡◌, refl, ◌∙◌, ap, false, String, Option, none, some, List, [], ◌⊎◌, inl, inr, arith, All,
  if◌then◌else◌,
}
use mathlib.Core.Path.{subst⁻¹}
use open_cas_csi.Keeps.{Keeps-or_fail}
use open_cas_csi.Locks.{reads, any_cmd}
use open_cas_csi.OpenCas.Footprint.{get_cache_instances-Keeps}
use open_cas_csi.World.{World, History, CacheDef, Node}
use open_cas_csi.Effect.{Outcome, ok, pure, or_fail}
use open_cas_csi.Success.{bind-ok, or_fail-ok}
use open_cas_csi.OpenCas.CacheList.{Cache}
use open_cas_csi.OpenCas.Manager.{OpenCas, get_cache_instances}
use open_cas_csi.Operator.Common.{Result, done, again, default_requeue_after, failed_with, requeue}
use open_cas_csi.Operator.Cache.{
  Progress, Plan, plan, remove_all, modify_or_start, release, set_up, label_of, with_node,
}
use open_cas_csi.Operator.Footprint.{plan-Keeps, remove_all-Keeps, modify_or_start-Keeps}
use open_cas_csi.Operator.Cache.Removal.{
  Extends, Extends-refl, Extends-trans, work-Extends, All-map, Stopped, Stopped-widen,
  remove_all-Removed, Removed-stays,
}
use open_cas_csi.Operator.Cache.Fitting.{
  Fits, Fits-widen, Each, plan-Sorted, Among, plan-Among, only_listed, plan-AllRemoved,
}
use open_cas_csi.Operator.Cache.Reached.{manager_of, refreshed, with_node-EndsIn}
use open_cas_csi.Operator.Cache.Running.{Runs, Runs-widen, modify_or_start-Runs}

-- The instance that is kept was listed and fits; if there is none, every instance was stopped.
abbrev pub Kept :
    OpenCas
    → CacheDef
    → List Cache
    → Option Cache
    → (h : History) → World
    → (end : History) → Type 0
Kept cas def cs none h w end = All (λ c. Stopped cas c h w end) cs
Kept cas def cs (some c) h w end = Fits cas def c h w end × Among c cs

-- Every instance that was listed was stopped or fits. One that fits is kept and has its mode, or all were
-- stopped and the cache was started.
abbrev pub Settled : OpenCas → CacheDef → (h : History) → World → (end : History) → Type 0
Settled cas def h w end =
    (cs : List Cache) × ((get_cache_instances cas w h).0 ≡ ok cs)
    × All (λ c. Stopped cas c h w end ⊎ Fits cas def c h w end) cs
    × (o : Option Cache) × Kept cas def cs o h w end
    × Runs cas def o h w end

release-stays :
    (def : CacheDef) (s : Progress) (w : World) (h : History) (s' : Progress)
    → def.deleted ≡ false
    → (release def s w h).0 ≡ ok s'
    → (s ≡ s') × ((release def s w h).1 ≡ h)
unfolding release pure
release-stays def s w h s' stays e = ground arith

pub ends_done :
    (s : Progress)
    → ◌≡◌ {A = Outcome Result Result}
        (ok (if s.errors then again default_requeue_after else done))
        (ok done)
    → s.errors ≡ false
ends_done s e = ground arith

Each-map :
    {P Q : Cache → Type 0} → ((c : Cache) → P c → Q c) → (o : Option Cache) → Each P o → Each Q o
Each-map f none p = tt
Each-map f (some c) p = f c p

abbrev no_plan : Plan
no_plan = record { remove_instances = []; modify_instance = none }

-- What the loops over the instances and the start leave, once the caches are listed.
module _ (cas : OpenCas) (def : CacheDef) (stays : def.deleted ≡ false) (label : Option String)
    (w : World) (h start : History) (cs : List Cache) (p : Plan) (s s' : Progress) where
  abbrev planned : History
  planned = (plan cas def cs no_plan w start).1

  abbrev removed : History
  removed = (remove_all cas def label p.remove_instances s w planned).1

  abbrev ended : History
  ended = (modify_or_start cas def p.modify_instance s' w removed).1

  start-planned : Extends start w planned
  start-planned =
      (plan-Keeps (work-Extends start) def cas cs no_plan).at w start (Extends-refl start w)

  planned-removed : Extends planned w removed
  planned-removed =
      (remove_all-Keeps (work-Extends planned) def cas label p.remove_instances s).at w planned
        (Extends-refl planned w)

  removed-ended : Extends removed w ended
  removed-ended =
      (modify_or_start-Keeps (work-Extends removed) def cas p.modify_instance s').at w removed
        (Extends-refl removed w)

  settled_by :
      (s'' : Progress)
      → Extends h w start
      → (plan cas def cs no_plan w start).0 ≡ ok p
      → (remove_all cas def label p.remove_instances s w planned).0 ≡ ok s'
      → (modify_or_start cas def p.modify_instance s' w removed).0 ≡ ok s''
      → s''.errors ≡ false
      → All (λ c. Stopped cas c h w ended ⊎ Fits cas def c h w ended) cs
        × Kept cas def cs p.modify_instance h w ended
        × Runs cas def p.modify_instance h w ended
  settled_by s'' from made did ran clean =
      let runs = modify_or_start-Runs cas def w stays p.modify_instance s' removed s'' ran clean in
      let left = remove_all-Removed cas def label w p.remove_instances s planned s' did runs.0 in
      let to_planned = Extends-trans h start planned w from start-planned in
      let to_removed = Extends-trans h planned removed w to_planned planned-removed in
      let to_end = Extends-trans planned removed ended w planned-removed removed-ended in
      let gone =
        All-map
          (λ c gone.
            Stopped-widen cas c h planned w removed ended to_planned removed-ended
              (Removed-stays cas def c planned w removed stays gone))
          p.remove_instances left.1 in
      let sorted =
        plan-Sorted cas def w (λ c. Stopped cas c h w ended) h cs no_plan start p made from gone in
      (
        All-map (λ c sort. widened c sort to_end) cs sorted.1,
        chosen p.modify_instance
            (Each-map (λ c. Fits-widen cas def c h h w planned ended (Extends-refl h w) to_end)
              p.modify_instance (sorted.2 tt))
            (λ c is. only_listed c cs (plan-Among cas def w cs no_plan start p c made is))
            (λ is.
              plan-AllRemoved cas def w (λ c. Stopped cas c h w ended) h cs no_plan start p made
                from is gone),
        Runs-widen cas def p.modify_instance h removed w ended to_removed runs.1,
      )
    where
      chosen :
          (o : Option Cache)
          → Each (λ c. Fits cas def c h w ended) o
          → ((c : Cache) → o ≡ some c → Among c cs)
          → (o ≡ none → All (λ c. Stopped cas c h w ended) cs)
          → Kept cas def cs o h w ended
      chosen none fits among gone = gone refl
      chosen (some c) fits among gone = (fits, among c refl)

      widened :
          (c : Cache)
          → Stopped cas c h w ended ⊎ Fits cas def c h w planned
          → Extends planned w ended
          → Stopped cas c h w ended ⊎ Fits cas def c h w ended
      widened c (inl gone) to_end = inl gone
      widened c (inr fits) to_end =
          inr (Fits-widen cas def c h h w planned ended (Extends-refl h w) to_end fits)

set_up-Settled :
    (cas : OpenCas) (def : CacheDef) (n : Node) (w : World) (h : History)
    → def.deleted ≡ false
    → (set_up cas def n w h).0 ≡ ok done
    → Settled cas def h w (set_up cas def n w h).1
unfolding set_up pure
set_up-Settled cas def n w h stays e =
    let listed = bind-ok _ _ w h done e in
    let instances = or_fail-ok (get_cache_instances cas) _ w h listed.0 listed.1 in
    let planned = bind-ok _ _ w _ done listed.2 in
    let removed = bind-ok _ _ w _ done planned.2 in
    let modified = bind-ok _ _ w _ done removed.2 in
    let released = bind-ok _ _ w _ done modified.2 in
    let same = release-stays def modified.0 w _ released.0 stays released.1 in
    let clean = ap (λ s. s.errors) same.0 ∙ ends_done released.0 released.2 in
    let from =
      (Keeps-or_fail (get_cache_instances cas) (failed_with requeue)
          (get_cache_instances-Keeps (reads (work-Extends h)) (any_cmd (work-Extends h) _) cas)).at
        w h (Extends-refl h w) in
    let settled =
      settled_by cas def stays (label_of n) w h
        (or_fail (get_cache_instances cas) (failed_with requeue) w h).1 listed.0 planned.0
        (record { node = n; errors = false }) removed.0 modified.0 from planned.1 removed.1
        modified.1 clean in
    subst⁻¹ (Settled cas def h w)
      (listed.3 ∙ planned.3 ∙ removed.3 ∙ modified.3 ∙ released.3 ∙ same.1)
      (listed.0, instances.0, settled.0, planned.0.modify_instance, settled.1, settled.2)

-- The calls `end`, after `h`, end with those after which the node is settled.
abbrev pub EndsSettled : OpenCas → CacheDef → (h : History) → World → (end : History) → Type 0
EndsSettled cas def h w end = (start : History) × Extends h w start × Settled cas def start w end

-- When reconciling a definition asks for no other reconciliation, and the definition stays, as it is
-- after the patch with its finalizer where that was missing, the calls end with a
-- listing of the caches and what followed. Each cache of this listing is on the definition's device
-- and its statistics gave the line size asked for, or it had no volumes and a later listing has none
-- on its device. Either a cache of the first kind had the mode asked for or a later listing has it with
-- this mode, or every cache of the listing is of the second kind, and the last calls listed a cache on
-- the definition's device and asked for a patch that writes its id into the label of the node.
pub with_node-EndsSettled :
    (def : CacheDef) (n : Node) (w : World) (h : History)
    → (refreshed def w h).deleted ≡ false
    → (with_node def n w h).0 ≡ ok done
    → EndsSettled
        (manager_of (refreshed def w h) (w.getenv "OPERATOR_NAMESPACE"))
        (refreshed def w h)
        h
        w
        (with_node def n w h).1
with_node-EndsSettled def n w h stays e =
    with_node-EndsIn def n w h (λ cas start end. Settled cas (refreshed def w h) start w end)
      (λ cas start did. set_up-Settled cas (refreshed def w h) n w start stays did) e
