-- ===== src/Operator/Cache/Fitting.antt =====
-- Which instances the loop of `CacheReconciler.Reconcile` removes and which it keeps.
use open_cas_csi.Prelude.{
  ◌≡◌, refl, sym, ◌∙◌, ap, true, Option, none, some, List, [], ◌∷◌, ◌++◌, ◌⊎◌, inl, inr, arith, All,
  All-append, ◌==◌, eqb_iff,
}
use mathlib.Core.Path.{subst, subst⁻¹}
use open_cas_csi.World.{World, History, CacheDef}
use open_cas_csi.Effect.{ok, ◌>>=◌, pure}
use open_cas_csi.Success.{bind-ok}
use open_cas_csi.OpenCas.CacheList.{Cache}
use open_cas_csi.OpenCas.Manager.{OpenCas, get_cache_line_size}
use open_cas_csi.Operator.Cache.{Plan, plan_instance, plan, target_cls}
use open_cas_csi.Operator.Footprint.{plan_instance-Keeps, plan-Keeps}
use open_cas_csi.Operator.Cache.Removal.{Extends, Extends-refl, Extends-trans, work-Extends}

-- The cache is on the definition's device, and in the course of the calls `end`, after `h`, its statistics gave
-- the line size that the definition asks for.
abbrev pub Fits : OpenCas → CacheDef → Cache → (h : History) → World → (end : History) → Type 0
Fits cas def c h w end =
    ((c.device_path == def.device_by_id) ≡ true)
    × (middle : History) × Extends h w middle
    × ((get_cache_line_size cas c w middle).0 ≡ ok (target_cls def))
    × Extends middle w end

pub Fits-widen :
    (cas : OpenCas) (def : CacheDef) (c : Cache) (h h' : History) (w : World) (end end' : History)
    → Extends h w h'
    → Extends end w end'
    → Fits cas def c h' w end
    → Fits cas def c h w end'
Fits-widen cas def c h h' w end end' before after (on, middle, from, size, to) = (
  on,
  middle,
  Extends-trans h h' middle w before from,
  size,
  Extends-trans middle end end' w to after,
)

-- The two ways in which an instance is filed.
Filed : CacheDef → Cache → (p q : Plan) → (fits : Type 0) → Type 0
Filed def c p q fits =
    (q ≡ record p { remove_instances = p.remove_instances ++ (c ∷ []) })
    ⊎ ((q ≡ record p { modify_instance = some c }) × fits)

plan_instance-Filed :
    (cas : OpenCas) (def : CacheDef) (c : Cache) (p : Plan) (w : World) (h : History) (q : Plan)
    → (plan_instance cas def c p w h).0 ≡ ok q
    → Filed def c p q (
        ((c.device_path == def.device_by_id) ≡ true)
        × ((get_cache_line_size cas c w h).0 ≡ ok (target_cls def)))
unfolding Filed plan_instance ◌>>=◌
plan_instance-Filed cas def c p w h q e = grind (arith, eqb_iff)

abbrev pub Each : (Cache → Type 0) → Option Cache → Type 0
Each P none = Unit
Each P (some c) = P c

All-front :
    (P : Cache → Type 0) (front back : List Cache)
    → All P (front ++ back)
    → All P front × All P back
All-front P [] back all = (tt, all)
All-front P (x ∷ front) back all =
    let others = All-front P front back all.1 in ((all.0, others.0), others.1)

module _ (cas : OpenCas) (def : CacheDef) (w : World) (Good : Cache → Type 0)
    (start : History) where
  -- What the loop's last plan says about the plan before it and about the instances in between.
  abbrev pub Sorted : (cs : List Cache) (p q : Plan) (end : History) → Type 0
  Sorted cs p q end =
      All Good p.remove_instances
      × All (λ c. Good c ⊎ Fits cas def c start w end) cs
      × (Each (λ c. Fits cas def c start w end) p.modify_instance
          → Each (λ c. Fits cas def c start w end) q.modify_instance)

  filed-Sorted :
      (c : Cache) (cs : List Cache) (p p' q : Plan) (end : History) (fits : Type 0)
      → (fits → Fits cas def c start w end)
      → Filed def c p p' fits
      → Sorted cs p' q end
      → Sorted (c ∷ cs) p q end
  unfolding Filed
  filed-Sorted c cs p p' q end fits give (inl e) (removed, others, kept) =
      let front =
        All-front Good p.remove_instances (c ∷ [])
          (subst (All Good) (ap (λ r. r.remove_instances) e) removed) in
      (
        front.0,
        (inl front.1.0, others),
        λ own.
            kept (
              subst⁻¹ (Each (λ d. Fits cas def d start w end)) (ap (λ r. r.modify_instance) e) own),
      )
  filed-Sorted c cs p p' q end fits give (inr (e, fit)) (removed, others, kept) = (
    subst (All Good) (ap (λ r. r.remove_instances) e) removed,
    (inr (give fit), others),
    λ own. kept (
        subst⁻¹ (Each (λ d. Fits cas def d start w end)) (ap (λ r. r.modify_instance) e)
          (give fit)),
  )

  pub plan-Sorted :
      (cs : List Cache) (p : Plan) (h : History) (q : Plan)
      → (plan cas def cs p w h).0 ≡ ok q
      → Extends start w h
      → All Good q.remove_instances
      → Sorted cs p q (plan cas def cs p w h).1
  unfolding plan pure
  plan-Sorted [] p h q e from removed =
      let same : p ≡ q = cc in
      (
        subst⁻¹ (λ r. All Good r.remove_instances) same removed,
        tt,
        λ own. subst (λ r. Each (λ d. Fits cas def d start w h) r.modify_instance) same own,
      )
  plan-Sorted (c ∷ cs) p h q e from removed =
      let first = bind-ok _ _ w h q e in
      let after_first =
        Extends-trans start h _ w from
          ((plan_instance-Keeps (work-Extends h) def cas c p).at w h (Extends-refl h w)) in
      let to_end = (plan-Keeps (work-Extends _) def cas cs first.0).at w _ (Extends-refl _ w) in
      let to_end' =
        Extends-trans h _ _ w
          ((plan_instance-Keeps (work-Extends h) def cas c p).at w h (Extends-refl h w)) to_end in
      subst⁻¹ (Sorted (c ∷ cs) p q) first.3 (
        filed-Sorted c cs p first.0 q _ _ (λ fit. (fit.0, h, from, fit.1, to_end'))
          (plan_instance-Filed cas def c p w h first.0 first.1)
          (plan-Sorted cs first.0 _ q first.2 after_first removed))

  -- An instance that is kept is followed by one that is kept.
  plan-none :
      (cs : List Cache) (p : Plan) (h : History) (q : Plan)
      → (plan cas def cs p w h).0 ≡ ok q
      → q.modify_instance ≡ none
      → p.modify_instance ≡ none
  unfolding plan pure Filed
  plan-none [] p h q e is = let same : p ≡ q = cc in ap (λ r. r.modify_instance) same ∙ is
  plan-none (c ∷ cs) p h q e is =
      let first = bind-ok _ _ w h q e in
      let later = plan-none cs first.0 _ q first.2 is in
      elim (plan_instance-Filed cas def c p w h first.0 first.1) [
        | inl removed ↦ sym (ap (λ r. r.modify_instance) removed) ∙ later
        | inr (kept, fit) ↦
            (let other : some c ≡ none = sym (ap (λ r. r.modify_instance) kept) ∙ later in cc)
      ]

  -- If none is kept, all are removed.
  pub plan-AllRemoved :
      (cs : List Cache) (p : Plan) (h : History) (q : Plan)
      → (plan cas def cs p w h).0 ≡ ok q
      → Extends start w h
      → q.modify_instance ≡ none
      → All Good q.remove_instances
      → All Good cs
  unfolding plan pure Filed
  plan-AllRemoved [] p h q e from is removed = tt
  plan-AllRemoved (c ∷ cs) p h q e from is removed =
      let first = bind-ok _ _ w h q e in
      let after_first =
        Extends-trans start h _ w from
          ((plan_instance-Keeps (work-Extends h) def cas c p).at w h (Extends-refl h w)) in
      let sorted = plan-Sorted cs first.0 _ q first.2 after_first removed in
      let later = plan-none cs first.0 _ q first.2 is in
      elim (plan_instance-Filed cas def c p w h first.0 first.1) [
        | inl filed ↦ (
          (All-front Good p.remove_instances (c ∷ [])
              (subst (All Good) (ap (λ r. r.remove_instances) filed) sorted.0)).1.0,
          plan-AllRemoved cs first.0 _ q first.2 after_first is removed,
        )
        | inr (kept, fit) ↦
            (let other : some c ≡ none = sym (ap (λ r. r.modify_instance) kept) ∙ later in cc)
      ]

abbrev pub Among : Cache → List Cache → Type 0
Among c [] = ⊥
Among c (x ∷ xs) = (x ≡ c) ⊎ Among c xs

same_kept : (d c : Cache) → some d ≡ some c → d ≡ c
same_kept d c e = cc

filed-Among :
    (def : CacheDef) (d c : Cache) (cs : List Cache) (p q : Plan) (fits : Type 0)
    → Filed def d p q fits
    → (q.modify_instance ≡ some c) ⊎ Among c cs
    → (p.modify_instance ≡ some c) ⊎ Among c (d ∷ cs)
unfolding Filed
filed-Among def d c cs p q fits filed (inr later) = inr (inr later)
filed-Among def d c cs p q fits (inl e) (inl is) = inl (sym (ap (λ r. r.modify_instance) e) ∙ is)
filed-Among def d c cs p q fits (inr (e, fit)) (inl is) =
    inr (inl (same_kept d c (sym (ap (λ r. r.modify_instance) e) ∙ is)))

-- The instance that is kept was kept before or is one of the loop's.
pub plan-Among :
    (cas : OpenCas) (def : CacheDef) (w : World) (cs : List Cache) (p : Plan) (h : History)
    (q : Plan) (c : Cache)
    → (plan cas def cs p w h).0 ≡ ok q
    → q.modify_instance ≡ some c
    → (p.modify_instance ≡ some c) ⊎ Among c cs
unfolding plan pure
plan-Among cas def w [] p h q c e is =
    let same : p ≡ q = cc in inl (ap (λ r. r.modify_instance) same ∙ is)
plan-Among cas def w (d ∷ cs) p h q c e is =
    let first = bind-ok _ _ w h q e in
    filed-Among def d c cs p first.0 _ (plan_instance-Filed cas def d p w h first.0 first.1)
      (plan-Among cas def w cs first.0 _ q c first.2 is)

pub plan-removes :
    (cas : OpenCas) (def : CacheDef) (w : World) (Good : Cache → Type 0) (cs : List Cache)
    (p : Plan) (h : History) (q : Plan)
    → (plan cas def cs p w h).0 ≡ ok q
    → All Good p.remove_instances
    → All Good cs
    → All Good q.remove_instances
unfolding plan pure Filed
plan-removes cas def w Good [] p h q e before here =
    let same : p ≡ q = cc in subst (λ r. All Good r.remove_instances) same before
plan-removes cas def w Good (c ∷ cs) p h q e before here =
    let first = bind-ok _ _ w h q e in
    plan-removes cas def w Good cs first.0 _ q first.2
      (elim (plan_instance-Filed cas def c p w h first.0 first.1) [
        | inl filed ↦
            subst⁻¹ (All Good) (ap (λ r. r.remove_instances) filed)
              (All-append Good p.remove_instances (c ∷ []) before (here.0, tt))
        | inr kept ↦ subst⁻¹ (All Good) (ap (λ r. r.remove_instances) kept.0) before
      ])
      here.1

pub All-Among :
    (Good : Cache → Type 0) (cs : List Cache) → ((c : Cache) → Among c cs → Good c) → All Good cs
All-Among Good [] good = tt
All-Among Good (c ∷ cs) good =
    (good c (inl refl), All-Among Good cs (λ d among. good d (inr among)))

pub only_listed : (c : Cache) (cs : List Cache) → (none ≡ some c) ⊎ Among c cs → Among c cs
only_listed c cs (inl e) = cc
only_listed c cs (inr among) = among
