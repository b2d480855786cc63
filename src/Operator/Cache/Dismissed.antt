-- ===== src/Operator/Cache/Dismissed.antt =====
-- The release of a definition that is being deleted: the end of `CacheReconciler.Reconcile`.
use open_cas_csi.Prelude.{
  ◌≡◌, refl, ◌∙◌, ap, Bool, true, false, String, none, ◌∷◌, ◌⊎◌, inl, inr, arith, not, ◌&&◌,
  if◌then◌else◌, Bool-cases,
}
use open_cas_csi.World.{World, History, Call, CacheDef, Node}
use open_cas_csi.Effect.{M, Try, value, error, ok, ◌>>=◌, pure, attempt, on_try}
use open_cas_csi.Success.{bind-ok}
use open_cas_csi.Operator.Common.{Result, has_finalizer, remove_finalizer_from}
use open_cas_csi.Operator.Cache.{
  Progress, note, release, remove_finalizer, delete_operating_cache_label, without_label,
}
use open_cas_csi.Operator.Cache.Removal.{attempt-note}

abbrev pub unfinalized : CacheDef → CacheDef
unfinalized def = record def { finalizers = remove_finalizer_from def.finalizers }

-- The definition had no finalizer, or it was patched to be without it as the latest call.
abbrev pub Unfinalized : CacheDef → World → (end : History) → Type 0
Unfinalized def w end =
    (has_finalizer def.finalizers ≡ false)
    ⊎ ((h : History) × (end ≡ Call.patch_cache def (unfinalized def) ∷ h)
        × ((w.answer h (Call.patch_cache def (unfinalized def))).1 ≡ none))

-- The latest call took the label off the node, after the finalizer was off.
abbrev pub Dismissed : CacheDef → Node → World → (end : History) → Type 0
Dismissed def n w end =
    (h : History) × (end ≡ Call.patch_node n (without_label n) ∷ h)
    × ((w.answer h (Call.patch_node n (without_label n))).1 ≡ none)
    × Unfinalized def w h

remove_finalizer-Unfinalized :
    (def : CacheDef) (w : World) (h : History)
    → (remove_finalizer def w h).0 ≡ ok tt
    → Unfinalized def w (remove_finalizer def w h).1
unfolding remove_finalizer ◌>>=◌
remove_finalizer-Unfinalized def w h e = elim (Bool-cases (has_finalizer def.finalizers)) [
  | inl there ↦ inr (h, ground arith, ground arith)
  | inr bare ↦ inl bare
]

delete_label-Patched :
    (n : Node) (w : World) (h : History)
    → (delete_operating_cache_label n w h).0 ≡ ok tt
    → ((w.answer h (Call.patch_node n (without_label n))).1 ≡ none)
      × ((delete_operating_cache_label n w h).1 ≡ Call.patch_node n (without_label n) ∷ h)
unfolding delete_operating_cache_label ◌>>=◌
delete_label-Patched n w h e = ground arith

-- The end of `release`, once the finalizer was asked to be off.
abbrev unlabel : Progress → Try String Unit → M Result Progress
unlabel s removed =
    on_try removed
      (λ _. do deleted ← attempt (delete_operating_cache_label s.node); pure (note deleted s))
      (λ _. pure (record s { errors = true }))

unlabel-Patched :
    (s : Progress) (r : Try String Unit) (w : World) (h : History) (s' : Progress)
    → (unlabel s r w h).0 ≡ ok s'
    → s'.errors ≡ false
    → (r ≡ value tt)
      × ((w.answer h (Call.patch_node s.node (without_label s.node))).1 ≡ none)
      × ((unlabel s r w h).1 ≡ Call.patch_node s.node (without_label s.node) ∷ h)
unfolding delete_operating_cache_label ◌>>=◌
unlabel-Patched s (value nothing) w h s' e clean =
    let noted = attempt-note (delete_operating_cache_label s.node) s w h s' e clean in
    let patched = delete_label-Patched s.node w h noted.0 in (refl, patched.0, noted.2 ∙ patched.1)
unlabel-Patched s (error text) w h s' e clean = ground arith

attempt-value :
    {A : Type 0} (m : M String A) (w : World) (h : History) (a : A)
    → (attempt {F = Result} m w h).0 ≡ ok (value a)
    → ((m w h).0 ≡ ok a)
unfolding attempt
attempt-value m w h a e = ground arith

release_if-Dismissed :
    (def : CacheDef) (s : Progress) (w : World) (h : History) (s' : Progress)
    → ((attempt (remove_finalizer def) >>= unlabel s) w h).0 ≡ ok s'
    → s'.errors ≡ false
    → Dismissed def s.node w ((attempt (remove_finalizer def) >>= unlabel s) w h).1
unfolding attempt
release_if-Dismissed def s w h s' e clean =
    let first = bind-ok _ _ w h s' e in
    let patched = unlabel-Patched s first.0 w _ s' first.2 clean in
    (
      _,
      first.3 ∙ patched.2,
      patched.1,
      remove_finalizer-Unfinalized def w h
          (attempt-value (remove_finalizer def) w h tt (first.1 ∙ ap (λ r. ok r) patched.0)),
    )

abbrev release_when : CacheDef → (test : Bool) → Progress → M Result Progress
release_when def test s =
    if test then (do removed ← attempt (remove_finalizer def); unlabel s removed) else pure s

release_when-Dismissed :
    (def : CacheDef) (test : Bool) (s : Progress) (w : World) (h : History) (s' : Progress)
    → (def.deleted && not s.errors) ≡ test
    → def.deleted ≡ true
    → (release_when def test s w h).0 ≡ ok s'
    → s'.errors ≡ false
    → (s.errors ≡ false) × Dismissed def s.node w (release_when def test s w h).1
unfolding pure
release_when-Dismissed def false s w h s' is gone e clean = ground arith
release_when-Dismissed def true s w h s' is gone e clean =
    (ground arith, release_if-Dismissed def s w h s' e clean)

pub release-Dismissed :
    (def : CacheDef) (s : Progress) (w : World) (h : History) (s' : Progress)
    → def.deleted ≡ true
    → (release def s w h).0 ≡ ok s'
    → s'.errors ≡ false
    → (s.errors ≡ false) × Dismissed def s.node w (release def s w h).1
unfolding release
release-Dismissed def s w h s' gone e clean =
    release_when-Dismissed def (def.deleted && not s.errors) s w h s' refl gone e clean
