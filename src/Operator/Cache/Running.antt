-- ===== src/Operator/Cache/Running.antt =====
-- Whether the cache runs when `CacheReconciler.Reconcile` has changed or started it.
use open_cas_csi.Prelude.{
  ◌≡◌, refl, sym, ◌∙◌, String, Bool, true, false, ◌%◌, Option, none, some, List, ◌∷◌, ◌⊎◌, inl, inr,
  arith, ◌==◌, if◌then◌else◌,
}
use mathlib.Core.Path.{subst⁻¹}
use text.Mathlib.TextEquality.{eq_iff}
use open_cas_csi.Prelude.Text.{show_int}
use open_cas_csi.Prelude.Dict.{Dict, insert}
use open_cas_csi.Locks.{reads, any_cmd}
use open_cas_csi.OpenCas.Casadm.{list_caches_cmd}
use open_cas_csi.OpenCas.Footprint.{start_cache-Keeps}
use open_cas_csi.World.{World, History, Call, CacheDef, Node}
use open_cas_csi.Effect.{M, ok, ◌>>=◌, pure, or_fail, attempt}
use open_cas_csi.Success.{bind-ok, or_fail-ok}
use open_cas_csi.OpenCas.CacheList.{Cache}
use open_cas_csi.OpenCas.Manager.{OpenCas, start_cache, set_cache_mode}
use open_cas_csi.OpenCas.Manager.Results.{
  EndsWithList, HasMode, FoundOn, set_cache_mode-HasMode, start_cache-FoundOn,
}
use open_cas_csi.Operator.Common.{Result, again, default_requeue_after}
use open_cas_csi.Operator.Cache.{
  Progress, note, modify_or_start, target_mode, set_operating_cache_label,
}
use open_cas_csi.Operator.Footprint.{modify_or_start-Keeps}
use open_cas_csi.Operator.Cache.Removal.{
  Extends, Extends-refl, Extends-trans, work-Extends, attempt-note,
}

-- The calls `end`, after `h`, include a listing of the caches that satisfies `P`.
abbrev pub Lists :
    (List Cache → Type 0) → OpenCas → (h : History) → World → (end : History) → Type 0
Lists P cas h w end =
    (middle : History) × Extends h w middle × EndsWithList P cas w middle × Extends middle w end

-- The last call writes the id of the cache into the label of a node.
abbrev pub Labels : Cache → (h end : History) → Type 0
Labels c h end =
    (n : Node) × (labels : Dict String) × (n.labels ≡ some labels)
    × (end
        ≡ Call.patch_node n (record n {
          labels = some (insert "csi.open-cas.com/operating-cache-id" (show_int c.cache_id) labels);
        })
          ∷ h)

-- An instance that fits has the mode that is asked for, or it was changed and then listed with it; or the
-- last calls listed a cache on the device and wrote its id into the label of the node.
abbrev pub Runs :
    OpenCas → CacheDef → Option Cache → (h : History) → World → (end : History) → Type 0
Runs cas def (some c) h w end =
    (c.cache_mode ≡ target_mode def) ⊎ Lists (HasMode c.cache_id (target_mode def)) cas h w end
Runs cas def none h w end =
    (c : Cache) × (middle : History) × Extends h w middle
    × EndsWithList (FoundOn def.device_by_id c) cas w middle
    × Labels c middle end

-- The two branches of `modify_or_start`.
abbrev keep_or_change : OpenCas → CacheDef → Cache → (same : Bool) → Progress → M Result Progress
keep_or_change cas def c same s =
    if same
    then pure s
    else do changed ← attempt (set_cache_mode cas c (target_mode def)); pure (note changed s)

abbrev label_started : Progress → Cache → M Result Progress
label_started s c = do
  node' ← set_operating_cache_label s.node (show_int c.cache_id)
  pure (record s { node = node' })

abbrev start_unless : OpenCas → CacheDef → (deleted : Bool) → Progress → M Result Progress
start_unless cas def deleted s = if deleted then pure s else do
  started ←
      or_fail (start_cache cas def.device_by_id def.cache_mode (def.cache_line_size % 256))
        (again default_requeue_after)
  label_started s started

label_started-errors :
    (s : Progress) (c : Cache) (w : World) (h : History) (s' : Progress)
    → (label_started s c w h).0 ≡ ok s'
    → s'.errors ≡ s.errors
unfolding set_operating_cache_label ◌>>=◌
label_started-errors s c w h s' e = ground arith

set_operating_cache_label-patches :
    (n : Node) (c : Cache) (o : Option (Dict String)) (w : World) (h : History) (n' : Node)
    → n.labels ≡ o
    → (set_operating_cache_label n (show_int c.cache_id) w h).0 ≡ ok n'
    → Labels c h (set_operating_cache_label n (show_int c.cache_id) w h).1
unfolding set_operating_cache_label ◌>>=◌
set_operating_cache_label-patches n c none w h n' is e = ground arith
set_operating_cache_label-patches n c (some labels) w h n' is e = (n, labels, is, ground arith)

label_started-Labels :
    (s : Progress) (c : Cache) (w : World) (h : History) (s' : Progress)
    → (label_started s c w h).0 ≡ ok s'
    → Labels c h (label_started s c w h).1
unfolding pure
label_started-Labels s c w h s' e =
    let patched = bind-ok _ _ w h s' e in
    subst⁻¹ (Labels c h) patched.3
      (set_operating_cache_label-patches s.node c _ w h patched.0 refl patched.1)

module _ (cas : OpenCas) (def : CacheDef) (w : World) where
  keep_mode :
      (c : Cache) (same : Bool) (s : Progress) (h : History) (s' : Progress)
      → (c.cache_mode == target_mode def) ≡ same
      → (keep_or_change cas def c same s w h).0 ≡ ok s'
      → s'.errors ≡ false
      → (s.errors ≡ false)
        × ((c.cache_mode ≡ target_mode def)
            ⊎ EndsWithList
                (HasMode c.cache_id (target_mode def))
                cas
                w
                (keep_or_change cas def c same s w h).1)
  unfolding pure
  keep_mode c true s h s' is e clean =
      (ground arith, inl ((eq_iff c.cache_mode (target_mode def)).0 is))
  keep_mode c false s h s' is e clean =
      let changed = attempt-note (set_cache_mode cas c (target_mode def)) s w h s' e clean in
      (
        changed.1,
        inr (
            subst⁻¹ (EndsWithList (HasMode c.cache_id (target_mode def)) cas w) changed.2
              (set_cache_mode-HasMode cas c (target_mode def) w h changed.0)),
      )

  start_cache-Extends :
      (h : History)
      → Extends h w
          (start_cache cas def.device_by_id def.cache_mode (def.cache_line_size % 256) w h).1
  start_cache-Extends h =
      (start_cache-Keeps (reads (work-Extends h)) (any_cmd (work-Extends h) list_caches_cmd) cas
          def.device_by_id def.cache_mode (def.cache_line_size % 256)
          (any_cmd (work-Extends h) _)).at
        w h (Extends-refl h w)

  start_unless-Runs :
      (deleted : Bool) (s : Progress) (h : History) (s' : Progress)
      → deleted ≡ false
      → (start_unless cas def deleted s w h).0 ≡ ok s'
      → s'.errors ≡ false
      → (s.errors ≡ false) × Runs cas def none h w (start_unless cas def deleted s w h).1
  unfolding or_fail
  start_unless-Runs true s h s' stays e clean = cc
  start_unless-Runs false s h s' stays e clean =
      let begun = bind-ok _ _ w h s' e in
      let started =
        or_fail-ok (start_cache cas def.device_by_id def.cache_mode (def.cache_line_size % 256))
          (again default_requeue_after) w h begun.0 begun.1 in
      (
        sym (label_started-errors s begun.0 w _ s' begun.2) ∙ clean,
        (
          begun.0,
          _,
          start_cache-Extends h,
          start_cache-FoundOn cas def.device_by_id def.cache_mode _ w h begun.0 started.0,
          subst⁻¹ (Labels begun.0 _) begun.3 (label_started-Labels s begun.0 w _ s' begun.2),
        ),
      )

  pub modify_or_start-Runs :
      def.deleted ≡ false
      → (o : Option Cache) (s : Progress) (h : History) (s' : Progress)
      → (modify_or_start cas def o s w h).0 ≡ ok s'
      → s'.errors ≡ false
      → (s.errors ≡ false) × Runs cas def o h w (modify_or_start cas def o s w h).1
  unfolding modify_or_start
  modify_or_start-Runs stays (some c) s h s' e clean =
      let kept = keep_mode c (c.cache_mode == target_mode def) s h s' refl e clean in
      (
        kept.0,
        elim kept.1 [
          | inl same ↦ inl same
          | inr listed ↦ inr (
            _,
            (modify_or_start-Keeps (work-Extends h) def cas (some c) s).at w h (Extends-refl h w),
            listed,
            Extends-refl _ w,
          )
        ],
      )
  modify_or_start-Runs stays none s h s' e clean =
      start_unless-Runs def.deleted s h s' stays e clean

pub Runs-widen :
    (cas : OpenCas) (def : CacheDef) (o : Option Cache) (h h' : History) (w : World) (end : History)
    → Extends h w h'
    → Runs cas def o h' w end
    → Runs cas def o h w end
Runs-widen cas def none h h' w end before (c, middle, from, listed, labelled) =
    (c, middle, Extends-trans h h' middle w before from, listed, labelled)
Runs-widen cas def (some c) h h' w end before (inl same) = inl same
Runs-widen cas def (some c) h h' w end before (inr (middle, from, listed, to)) =
    inr (middle, Extends-trans h h' middle w before from, listed, to)
