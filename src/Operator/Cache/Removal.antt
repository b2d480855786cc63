-- ===== src/Operator/Cache/Removal.antt =====
-- What the loop over the instances to remove leaves, in `CacheReconciler.Reconcile`.
use open_cas_csi.Prelude.{
  ◌≡◌, refl, sym, ◌∙◌, ap, Bool, true, false, String, Option, List, [], ◌∷◌, ◌++◌, is_empty, arith,
  All, append_assoc, if◌then◌else◌, ◌⊎◌, inl, inr, ◌≢◌,
}
use mathlib.Core.Path.{subst⁻¹}
use open_cas_csi.World.{World, History, Call, CacheDef}
use open_cas_csi.Effect.{M, ok, ◌>>=◌, pure, attempt}
use open_cas_csi.Locks.{AllowsWork}
use open_cas_csi.Success.{bind-ok}
use open_cas_csi.OpenCas.CacheList.{Cache}
use open_cas_csi.OpenCas.Manager.{OpenCas, stop_cache}
use open_cas_csi.OpenCas.Manager.Results.{NoneOn, EndsWithList, stop_cache-NoneOn}
use open_cas_csi.Operator.Common.{Result}
use open_cas_csi.Operator.Cache.{
  Progress, note, unset_label, set_operating_cache_label, remove_instance, remove_all,
}
use open_cas_csi.Operator.Footprint.{remove_instance-Keeps, remove_all-Keeps}

-- The calls `end` go on from those of `h`.
abbrev pub Extends : (h : History) → World → (end : History) → Type 0
Extends h w end = (cs : List Call) × (end ≡ cs ++ h)

pub Extends-refl : (h : History) (w : World) → Extends h w h
Extends-refl h w = ([], refl)

pub Extends-trans :
    (h middle end : History) (w : World)
    → Extends h w middle
    → Extends middle w end
    → Extends h w end
Extends-trans h middle end w (cs, e) (ds, d) =
    (ds ++ cs, d ∙ ap (λ m. ds ++ m) e ∙ sym (append_assoc ds cs h))

pub work-Extends : (h : History) → AllowsWork (Extends h)
work-Extends h = record {
  work = λ c e. record { step = λ w end p. (c ∷ p.0, ap (λ l. c ∷ l) p.1) };
}

-- The note that is taken of an action shows no error only if the action succeeded.
pub attempt-note :
    {E : Type 0} (m : M E Unit) (s : Progress) (w : World) (h : History) (s' : Progress)
    → ((attempt {F = Result} m >>= λ r. pure (note r s)) w h).0 ≡ ok s'
    → s'.errors ≡ false
    → ((m w h).0 ≡ ok tt)
      × (s.errors ≡ false)
      × (((attempt {F = Result} m >>= λ r. pure (note r s)) w h).1 ≡ (m w h).1)
unfolding ◌>>=◌
attempt-note m s w h s' e clean = ground arith

unset_label-errors :
    (def : CacheDef) (label : Option String) (c : Cache) (s : Progress) (w : World) (h : History)
    (s' : Progress)
    → (unset_label def label c s w h).0 ≡ ok s'
    → s'.errors ≡ s.errors
unfolding unset_label set_operating_cache_label ◌>>=◌
unset_label-errors def label c s w h s' e = ground arith

-- In the course of the calls `end`, after `h`, the cache was stopped: it had no volumes, and the caches were
-- listed with none of them on its device.
abbrev pub Stopped : OpenCas → Cache → (h : History) → World → (end : History) → Type 0
Stopped cas c h w end =
    (is_empty c.volumes ≡ true)
    × (middle : History) × Extends h w middle
    × EndsWithList (NoneOn c.device_path) cas w middle
    × Extends middle w end

pub Stopped-widen :
    (cas : OpenCas) (c : Cache) (h h' : History) (w : World) (end end' : History)
    → Extends h w h'
    → Extends end w end'
    → Stopped cas c h' w end
    → Stopped cas c h w end'
Stopped-widen cas c h h' w end end' before after (e, middle, from, listed, to) = (
  e,
  middle,
  Extends-trans h h' middle w before from,
  listed,
  Extends-trans middle end end' w to after,
)

pub All-map {ℓ κ λ'} :
    {A : Type ℓ} {P : A → Type κ} {Q : A → Type λ'}
    → ((a : A) → P a → Q a)
    → (l : List A) → All P l
    → All Q l
All-map f [] all = tt
All-map f (x ∷ xs) all = (f x all.0, All-map f xs all.1)

false-ne-true : false ≢ true
false-ne-true e = cc

-- The end of `remove_instance`.
abbrev stop_if : OpenCas → Cache → (empty deleted : Bool) → Progress → M Result Progress
stop_if cas c empty deleted s =
    if empty
    then (do stopped ← attempt (stop_cache cas c); pure (note stopped s))
    else pure (if deleted then s else record s { errors = true })

stop_if-Stopped :
    (cas : OpenCas) (c : Cache) (empty deleted : Bool) (s : Progress) (w : World) (h : History)
    (s' : Progress)
    → is_empty c.volumes ≡ empty
    → (stop_if cas c empty deleted s w h).0 ≡ ok s'
    → s'.errors ≡ false
    → (s.errors ≡ false)
      × (((is_empty c.volumes ≡ true)
            × EndsWithList (NoneOn c.device_path) cas w (stop_if cas c empty deleted s w h).1)
          ⊎ ((is_empty c.volumes ≡ false) × (deleted ≡ true)))
unfolding pure
stop_if-Stopped cas c false true s w h s' is e clean = (ground arith, inr (is, refl))
stop_if-Stopped cas c false false s w h s' is e clean = ground arith
stop_if-Stopped cas c true deleted s w h s' is e clean =
    let stopped = attempt-note (stop_cache cas c) s w h s' e clean in
    (
      stopped.1,
      inl (
        is,
        subst⁻¹ (EndsWithList (NoneOn c.device_path) cas w) stopped.2
            (stop_cache-NoneOn cas c w h stopped.0),
      ),
    )

-- It was stopped, or it has volumes and the definition is being deleted.
abbrev pub Removed : OpenCas → CacheDef → Cache → (h : History) → World → (end : History) → Type 0
Removed cas def c h w end =
    Stopped cas c h w end ⊎ ((is_empty c.volumes ≡ false) × (def.deleted ≡ true))

pub Removed-widen :
    (cas : OpenCas) (def : CacheDef) (c : Cache) (h h' : History) (w : World) (end end' : History)
    → Extends h w h'
    → Extends end w end'
    → Removed cas def c h' w end
    → Removed cas def c h w end'
Removed-widen cas def c h h' w end end' before after (inl stopped) =
    inl (Stopped-widen cas c h h' w end end' before after stopped)
Removed-widen cas def c h h' w end end' before after (inr left) = inr left

module _ (cas : OpenCas) (def : CacheDef) (label : Option String) (w : World) where
  remove_instance-Removed :
      (c : Cache) (s : Progress) (h : History) (s' : Progress)
      → (remove_instance cas def label c s w h).0 ≡ ok s'
      → s'.errors ≡ false
      → (s.errors ≡ false) × Removed cas def c h w (remove_instance cas def label c s w h).1
  unfolding remove_instance
  remove_instance-Removed c s h s' e clean =
      let unset = bind-ok _ _ w h s' e in
      let stopped =
        stop_if-Stopped cas c (is_empty c.volumes) def.deleted unset.0 w _ s' refl unset.2 clean in
      (
        sym (unset_label-errors def label c s w h unset.0 unset.1) ∙ stopped.0,
        elim stopped.1 [
          | inl there ↦ inl (
            there.0,
            _,
            (remove_instance-Keeps (work-Extends h) def cas label c s).at w h (Extends-refl h w),
            subst⁻¹ (EndsWithList (NoneOn c.device_path) cas w) unset.3 there.1,
            Extends-refl _ w,
          )
          | inr left ↦ inr left
        ],
      )

  pub remove_all-Removed :
      (cs : List Cache) (s : Progress) (h : History) (s' : Progress)
      → (remove_all cas def label cs s w h).0 ≡ ok s'
      → s'.errors ≡ false
      → (s.errors ≡ false)
        × All (λ c. Removed cas def c h w (remove_all cas def label cs s w h).1) cs
  unfolding remove_all pure
  remove_all-Removed [] s h s' e clean = (ground arith, tt)
  remove_all-Removed (c ∷ cs) s h s' e clean =
      let first = bind-ok _ _ w h s' e in
      let others = remove_all-Removed cs first.0 _ s' first.2 clean in
      let one = remove_instance-Removed c s h first.0 first.1 others.0 in
      let before =
        (remove_instance-Keeps (work-Extends h) def cas label c s).at w h (Extends-refl h w) in
      let after =
        (remove_all-Keeps (work-Extends _) def cas label cs first.0).at w _ (Extends-refl _ w) in
      (
        one.0,
        subst⁻¹ (λ end. All (λ d. Removed cas def d h w end) (c ∷ cs)) first.3
            (
              Removed-widen cas def c h h w _ _ (Extends-refl h w) after one.1,
              All-map (λ d. Removed-widen cas def d h _ w _ _ before (Extends-refl _ w)) cs
                  others.1,
            ),
      )

-- Where the definition stays, every instance was stopped.
pub Removed-stays :
    (cas : OpenCas) (def : CacheDef) (c : Cache) (h : History) (w : World) (end : History)
    → def.deleted ≡ false
    → Removed cas def c h w end
    → Stopped cas c h w end
Removed-stays cas def c h w end stays (inl stopped) = stopped
Removed-stays cas def c h w end stays (inr left) = absurd (false-ne-true (sym stays ∙ left.1))
