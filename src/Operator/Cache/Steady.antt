-- ===== src/Operator/Cache/Steady.antt =====
-- A reconciliation that finds what its definition asks for: `CacheReconciler.Reconcile`.
use open_cas_csi.Prelude.{
  ◌≡◌, refl, ℕ, String, false, true, none, some, List, [], ◌∷◌, arith, ◌==◌, eqb, eqb_iff,
  if◌then◌else◌,
}
use open_cas_csi.World.{World, History, CacheDef, Node, Call, found}
use open_cas_csi.Effect.{ok, M, pure, ◌>>=◌, or_fail, ask, locked, returning, call, on_found}
use open_cas_csi.Operator.Cache.Reached.{manager_of}
use open_cas_csi.OpenCas.CacheList.{Cache}
use open_cas_csi.OpenCas.Manager.{
  OpenCas, get_cache_instances, get_cache_line_size, new_open_cas_manager,
}
use open_cas_csi.Operator.Common.{done, has_finalizer}
use open_cas_csi.Operator.Cache.{
  Plan, plan_instance, plan, target_cls, target_mode, remove_all, modify_or_start, release, set_up,
  with_node, reconcile, add_finalizer,
}

-- The calls after the statistics of each cache were read, one after another.
abbrev pub after_looks : OpenCas → List Cache → World → History → History
after_looks cas [] w h = h
after_looks cas (c ∷ cs) w h = after_looks cas cs w (get_cache_line_size cas c w h).1

-- Each cache is on the definition's device and in the mode asked for, and its statistics, read one after
-- another, give the line size asked for.
abbrev pub AllFit : OpenCas → CacheDef → List Cache → World → History → Type 0
AllFit cas def [] w h = Unit
AllFit cas def (c ∷ cs) w h =
    ((c.device_path == def.device_by_id) ≡ true)
    × ((c.cache_mode == target_mode def) ≡ true)
    × ((get_cache_line_size cas c w h).0 ≡ ok (target_cls def))
    × AllFit cas def cs w (get_cache_line_size cas c w h).1

abbrev last_or : Cache → List Cache → Cache
last_or c [] = c
last_or c (d ∷ cs) = last_or d cs

bind-is :
    {E A B : Type 0} (m : M E A) (f : A → M E B) (w : World) (h : History) (a : A)
    → (m w h).0 ≡ ok a
    → (m >>= f) w h ≡ f a w (m w h).1
unfolding ◌>>=◌
bind-is m f w h a e = rw e refl

or_fail-is :
    {E F A : Type 0} (m : M E A) (e : F) (w : World) (h : History) (a : A)
    → (m w h).0 ≡ ok a
    → (or_fail m e w h).0 ≡ ok a
unfolding or_fail
or_fail-is m e w h a is = rw is refl

eqb_self : (n : ℕ) → eqb n n ≡ true
eqb_self n = grind (arith, eqb_iff)

plan_instance-keeps :
    (cas : OpenCas) (def : CacheDef) (c : Cache) (p : Plan) (w : World) (h : History)
    → def.deleted ≡ false
    → (c.device_path == def.device_by_id) ≡ true
    → (get_cache_line_size cas c w h).0 ≡ ok (target_cls def)
    → plan_instance cas def c p w h
      ≡ (ok (record p { modify_instance = some c }), (get_cache_line_size cas c w h).1)
unfolding plan_instance ◌>>=◌ or_fail pure
plan_instance-keeps cas def c p w h stays on size =
    rw stays (rw on (rw size (rw (eqb_self (target_cls def)) refl)))

plan-keeps :
    (cas : OpenCas) (def : CacheDef) (c : Cache) (cs : List Cache) (p : Plan) (w : World)
    (h : History)
    → def.deleted ≡ false
    → AllFit cas def (c ∷ cs) w h
    → plan cas def (c ∷ cs) p w h
      ≡ (ok (record p { modify_instance = some (last_or c cs) }), after_looks cas (c ∷ cs) w h)
unfolding plan pure ◌>>=◌
plan-keeps cas def c [] p w h stays (on, mode, size, rest) =
    rw (plan_instance-keeps cas def c p w h stays on size) refl
plan-keeps cas def c (d ∷ cs) p w h stays (on, mode, size, rest) =
    rw (plan_instance-keeps cas def c p w h stays on size) (
      plan-keeps cas def d cs (record p { modify_instance = some c }) w
        (get_cache_line_size cas c w h).1 stays rest)

last-fits :
    (cas : OpenCas) (def : CacheDef) (c : Cache) (cs : List Cache) (w : World) (h : History)
    → AllFit cas def (c ∷ cs) w h
    → ((last_or c cs).cache_mode == target_mode def) ≡ true
last-fits cas def c [] w h (on, mode, size, rest) = mode
last-fits cas def c (d ∷ cs) w h (on, mode, size, rest) =
    last-fits cas def d cs w (get_cache_line_size cas c w h).1 rest

set_up-leaves :
    (cas : OpenCas) (def : CacheDef) (n : Node) (w : World) (h : History) (c : Cache)
    (cs : List Cache)
    → def.deleted ≡ false
    → (get_cache_instances cas w h).0 ≡ ok (c ∷ cs)
    → AllFit cas def (c ∷ cs) w (get_cache_instances cas w h).1
    → set_up cas def n w h ≡ (ok done, after_looks cas (c ∷ cs) w (get_cache_instances cas w h).1)
unfolding set_up pure ◌>>=◌ or_fail remove_all modify_or_start release
set_up-leaves cas def n w h c cs stays listed fits = rw listed (
    rw
      (plan-keeps cas def c cs (record { remove_instances = []; modify_instance = none }) w
        (get_cache_instances cas w h).1 stays fits)
      (rw (last-fits cas def c cs w (get_cache_instances cas w h).1 fits) (rw stays refl)))

finalizer-stays :
    (def : CacheDef) (w : World) (h : History)
    → def.deleted ≡ false
    → has_finalizer def.finalizers ≡ true
    → (if def.deleted then pure def else add_finalizer def) w h ≡ (ok def, h)
unfolding add_finalizer pure
finalizer-stays def w h stays final = ground arith

-- The calls that read the definition and its node.
abbrev after_reads : (name : String) → CacheDef → History → History
after_reads name def h = Call.read_node def.name ∷ Call.read_cache name ∷ Call.lock name ∷ h

module _ (name : String) (def : CacheDef) (n : Node) (w : World) (h : History) where
  -- The definition is read, stays, and has the finalizer, and its node is read.
  abbrev pub IsRead : Type 0
  IsRead =
      (def.deleted ≡ false)
      × (has_finalizer def.finalizers ≡ true)
      × (w.answer (Call.lock name ∷ h) (Call.read_cache name) ≡ found def)
      × (w.answer (Call.read_cache name ∷ Call.lock name ∷ h) (Call.read_node def.name) ≡ found n)

  -- The manager of the definition, and the calls after it was made and after the caches were listed.
  abbrev pub manager : OpenCas
  manager = manager_of def (w.getenv "OPERATOR_NAMESPACE")

  abbrev pub after_made : History
  after_made =
      (new_open_cas_manager def.name (w.getenv "OPERATOR_NAMESPACE") w (after_reads name def h)).1

  abbrev pub after_listed : History
  after_listed = (get_cache_instances manager w after_made).1

  abbrev pub IsManaged : Type 0
  IsManaged =
      ((w.getenv "CASADM_IMAGE" == "") ≡ false)
      × ((new_open_cas_manager def.name (w.getenv "OPERATOR_NAMESPACE") w
            (after_reads name def h)).0
          ≡ ok manager)

  with_node-leaves :
      (c : Cache) (cs : List Cache)
      → IsRead
      → IsManaged
      → (get_cache_instances manager w after_made).0 ≡ ok (c ∷ cs)
      → AllFit manager def (c ∷ cs) w after_listed
      → with_node def n w (after_reads name def h)
        ≡ (ok done, after_looks manager (c ∷ cs) w after_listed)
  unfolding with_node ask ◌>>=◌ or_fail
  with_node-leaves c cs (stays, final, _, _) (image, made) listed fits =
      rw (finalizer-stays def w (after_reads name def h) stays final)
        (rw image (rw made (set_up-leaves manager def n w after_made c cs stays listed fits)))

  -- If the definition of a node stays and has its finalizer, and the listing has a cache, and only
  -- caches on the definition's device with the mode and the line size asked for, reconciling changes
  -- nothing: after the listing it only reads the statistics of each cache and gives the lock back,
  -- and it asks for no other reconciliation.
  pub reconcile-leaves :
      (c : Cache) (cs : List Cache)
      → IsRead
      → IsManaged
      → (get_cache_instances manager w after_made).0 ≡ ok (c ∷ cs)
      → AllFit manager def (c ∷ cs) w after_listed
      → reconcile name w h
        ≡ (ok done, Call.unlock name ∷ after_looks manager (c ∷ cs) w after_listed)
  unfolding reconcile locked returning call on_found ◌>>=◌
  reconcile-leaves c cs read managed listed fits =
      rw read.2 (rw read.3 (rw (with_node-leaves c cs read managed listed fits) refl))
