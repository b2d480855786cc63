-- ===== src/Operator/Cache/Jobs.antt =====
-- Which `casadm` commands `CacheReconciler.Reconcile` runs.
use open_cas_csi.Prelude.{
  ◌≡◌, inl, inr, ◌||◌, ◌==◌, Bool-cases, refl, ap, All, if◌then◌else◌, String, Bool, true, false,
  Option, none, some, List, [], ◌∷◌, ◌%◌, is_empty,
}
use open_cas_csi.Prelude.Int.{ℤ, minus_one}
use open_cas_csi.Prelude.Text.{split}
use open_cas_csi.World.{World, History, Call, CacheDef, Node}
use mathlib.Core.Path.{subst⁻¹}
use open_cas_csi.Effect.{M, ok, err, panic, ◌>>=◌, continue, or_fail, pure}
use open_cas_csi.Success.{or_fail-ok}
use open_cas_csi.Keeps.{Keeps, Allows, keeps_rules, Keeps-bind, Keeps-or_fail}
use open_cas_csi.Operator.Common.{
  has_finalizer, Result, done, again, default_requeue_after, failed_with, requeue,
}
use open_cas_csi.Operator.Cache.Reached.{refreshed, after_finalizer, managed, with_node-managed}
use open_cas_csi.Operator.Cache.Removal.{Extends, Extends-refl}
use open_cas_csi.Operator.Cache.Fitting.{Among, plan-Among, plan-removes, All-Among, only_listed}
use open_cas_csi.OpenCas.Job.{casadm_job}
use open_cas_csi.OpenCas.Casadm.{
  start_cache_cmd, stop_cache_cmd, list_caches_cmd, stats_cmd, set_cache_mode_cmd,
}
use open_cas_csi.OpenCas.CacheList.{Cache}
use open_cas_csi.OpenCas.Manager.{OpenCas, list_caches, get_cache_instances}
use open_cas_csi.OpenCas.Footprint.{
  is_read, AllowsReads, AllowsCmd, new_open_cas_manager-Keeps, get_cache_instances-Keeps,
  get_cache_line_size-Keeps, start_cache-Keeps, stop_cache-Keeps, set_cache_mode-Keeps,
}
use open_cas_csi.Operator.Cache.{
  remove_finalizer, set_operating_cache_label, delete_operating_cache_label, plan_instance, plan,
  Plan, Progress, unset_label, remove_instance, remove_all, modify_or_start, release, set_up,
  label_of, with_node, target_mode,
}

-- Each command Job so far has one of the commands that `Q` allows after the calls before it.
abbrev pub JobsIn : (World → History → List String → Type 0) → World → History → Type 0
JobsIn Q w [] = Unit
JobsIn Q w (Call.create_job job ∷ h) = Q w h job.command × JobsIn Q w h
JobsIn Q w (_ ∷ h) = JobsIn Q w h

-- The calls so far go on from a listing of the caches that has this one, with its volumes.
abbrev pub Listed : Cache → World → History → Type 0
Listed c w h =
    (cas : OpenCas) × (before : History) × (cs : List Cache) × ((list_caches cas w before).0
      ≡ ok cs)
    × Among c cs
    × Extends (list_caches cas w before).1 w h

Listed-cons : (x : Call) (c : Cache) (w : World) (h : History) → Listed c w h → Listed c w (x ∷ h)
Listed-cons x c w h (cas, before, cs, listed, among, (calls, e)) =
    (cas, before, cs, listed, among, (x ∷ calls, ap (λ l. x ∷ l) e))

-- What a definition permits: to look at the caches, to stop one that was listed without volumes, to give
-- one that was listed the mode asked for and, unless the definition is being deleted, to start its
-- cache on its device.
pub data Permitted (def : CacheDef) (w : World) (h : History) : List String → Type 0 where
  listing : Permitted def w h (split list_caches_cmd)
  statistics : (cache_id : ℤ) → Permitted def w h (split (stats_cmd cache_id minus_one))
  stop :
      (c : Cache)
      → Listed c w h
      → is_empty c.volumes ≡ true
      → Permitted def w h (split (stop_cache_cmd c.cache_id))
  change_mode :
      (c : Cache)
      → Listed c w h
      → Permitted def w h (split (set_cache_mode_cmd c.cache_id (target_mode def)))
  start :
      def.deleted ≡ false
      → Permitted def w h (
          split
            (start_cache_cmd def.device_by_id def.cache_mode (def.cache_line_size % 256) minus_one))

abbrev is_create : Call → Bool
is_create (Call.create_job _) = true
is_create _ = false

-- A sequence keeps an invariant if its rest does so after what its beginning returned.
Keeps-after :
    {E A B : Type 0} (P : World → History → Type 0) (m : M E A) (f : A → M E B) (w : World)
    (h : History)
    → P w (m w h).1
    → ((a : A) → (m w h).0 ≡ ok a → P w (f a w (m w h).1).1)
    → P w ((m >>= f) w h).1
unfolding ◌>>=◌
Keeps-after {E = E} {A = A} {B = B} P m f w h first =
    elim (m w h).0
      as (λ r. ((a : A) → r ≡ ok a → P w (f a w (m w h).1).1) → P w (continue r f w (m w h).1).1) [
        | ok a ↦ λ rest. rest a refl
        | err e ↦ λ rest. first
        | panic ↦ λ rest. first
      ]

-- While the caches `cs` were listed
module _ (def : CacheDef) (cs : List Cache) where
  abbrev Within : World → History → Type 0
  Within w h = JobsIn (Permitted def) w h × ((c : Cache) → Among c cs → Listed c w h)

  Allows-other : (x : Call) → is_create x ≡ false → Allows Within x
  Allows-other (Call.create_job job) e = cc
  Allows-other x e = record {
    step = λ w h p. (other x e w h p.0, λ c among. Listed-cons x c w h (p.1 c among));
  }
    where
      other :
          (x : Call)
          → is_create x ≡ false
          → (w : World) (h : History) → JobsIn (Permitted def) w h
          → JobsIn (Permitted def) w (x ∷ h)
      other (Call.create_job job) e w h p = cc
      other _ e w h p = p

  read-not_create : (x : Call) → is_read x ≡ true → is_create x ≡ false
  read-not_create (Call.create_job job) e = cc
  read-not_create _ e = refl

  reads : AllowsReads Within
  reads = record { read = λ x e. Allows-other x (read-not_create x e) }

  permitted :
      {cmd : String}
      → ((w : World) (h : History) → Within w h → Permitted def w h (split cmd))
      → AllowsCmd Within cmd
  unfolding casadm_job
  permitted q = record {
    job = λ w' node_id name ns. record {
      step = λ w h p. ((q w h p, p.0), λ c among. Listed-cons _ c w h (p.1 c among));
    };
  }

  list-permitted : AllowsCmd Within list_caches_cmd
  list-permitted = permitted (λ w h p. Permitted.listing)

  stats-permitted : (id : ℤ) → AllowsCmd Within (stats_cmd id minus_one)
  stats-permitted id = permitted (λ w h p. Permitted.statistics id)

  stop-permitted :
      (c : Cache)
      → Among c cs
      → is_empty c.volumes ≡ true
      → AllowsCmd Within (stop_cache_cmd c.cache_id)
  stop-permitted c among empty = permitted (λ w h p. Permitted.stop c (p.1 c among) empty)

  mode-permitted :
      (c : Cache) → Among c cs → AllowsCmd Within (set_cache_mode_cmd c.cache_id (target_mode def))
  mode-permitted c among = permitted (λ w h p. Permitted.change_mode c (p.1 c among))

  start-permitted :
      def.deleted ≡ false
      → AllowsCmd Within
          (start_cache_cmd def.device_by_id def.cache_mode (def.cache_line_size % 256) minus_one)
  start-permitted stays = permitted (λ w h p. Permitted.start stays)

  patch-Keeps : (n : Node) (text : String) → Keeps Within (set_operating_cache_label n text)
  unfolding set_operating_cache_label
  patch-Keeps n text = search (keeps_rules, Allows-other) depth 8

  release-Keeps : (s : Progress) → Keeps Within (release def s)
  unfolding release remove_finalizer delete_operating_cache_label
  release-Keeps s = search (keeps_rules, Allows-other) depth 12

  plan_instance-Keeps :
      (cas : OpenCas) (c : Cache) (p : Plan) → Keeps Within (plan_instance cas def c p)
  unfolding plan_instance
  plan_instance-Keeps cas c p =
      search (keeps_rules, get_cache_line_size-Keeps reads, stats-permitted) depth 8

  plan-Keeps :
      (cas : OpenCas) (instances : List Cache) (p : Plan) → Keeps Within (plan cas def instances p)
  unfolding plan
  plan-Keeps cas [] p = search keeps_rules
  plan-Keeps cas (c ∷ instances) p =
      search (keeps_rules, plan_instance-Keeps, plan-Keeps cas instances)

  remove_instance-Keeps :
      (cas : OpenCas) (label : Option String) (c : Cache) (s : Progress)
      → Among c cs
      → Keeps Within (remove_instance cas def label c s)
  unfolding remove_instance unset_label
  remove_instance-Keeps cas label c s among =
      search
        (keeps_rules, stop_cache-Keeps reads, list-permitted, stop-permitted c among, patch-Keeps)
        depth 10

  remove_all-Keeps :
      (cas : OpenCas) (label : Option String) (instances : List Cache) (s : Progress)
      → All (λ c. Among c cs) instances
      → Keeps Within (remove_all cas def label instances s)
  unfolding remove_all
  remove_all-Keeps cas label [] s all = search keeps_rules
  remove_all-Keeps cas label (c ∷ instances) s (here, all) =
      Keeps-bind _ _ (remove_instance-Keeps cas label c s here)
        (λ s'. remove_all-Keeps cas label instances s' all)

  modify_or_start-Keeps :
      (cas : OpenCas) (o : Option Cache) (s : Progress)
      → ((c : Cache) → o ≡ some c → Among c cs)
      → Keeps Within (modify_or_start cas def o s)
  unfolding modify_or_start
  modify_or_start-Keeps cas none s among =
      search (keeps_rules, start_cache-Keeps reads, list-permitted, start-permitted, patch-Keeps)
        depth 10
  modify_or_start-Keeps cas (some c) s among =
      search
        (keeps_rules, set_cache_mode-Keeps reads, list-permitted, mode-permitted c (among c refl))
        depth 10

  -- What follows the plan.
  abbrev carry_out : OpenCas → Node → Plan → M Result Result
  carry_out cas n p = do
    s ← remove_all cas def (label_of n) p.remove_instances (record { node = n; errors = false })
    s' ← modify_or_start cas def p.modify_instance s
    s'' ← release def s'
    pure (if s''.errors then again default_requeue_after else done)

  carry_out-Keeps :
      (cas : OpenCas) (n : Node) (p : Plan)
      → All (λ c. Among c cs) p.remove_instances
      → ((c : Cache) → p.modify_instance ≡ some c → Among c cs)
      → Keeps Within (carry_out cas n p)
  carry_out-Keeps cas n p removes keeps =
      Keeps-bind _ _ (remove_all-Keeps cas (label_of n) p.remove_instances _ removes) (λ s.
        Keeps-bind _ _ (modify_or_start-Keeps cas p.modify_instance s keeps)
          (λ s'. search (keeps_rules, release-Keeps) depth 8))

  planned-Within :
      (cas : OpenCas) (n : Node) (w : World) (h : History)
      → Within w h
      → Within w
          ((plan cas def cs (record { remove_instances = []; modify_instance = none }) >>= λ p.
              carry_out cas n p)
            w h).1
  planned-Within cas n w h p =
      let start : Plan = record { remove_instances = []; modify_instance = none } in
      let kept = (plan-Keeps cas cs start).at w h p in
      Keeps-after Within (plan cas def cs start) (λ q. carry_out cas n q) w h kept
        (λ q e.
          (carry_out-Keeps cas n q
              (plan-removes cas def w (λ c. Among c cs) cs start h q e tt
                (All-Among (λ c. Among c cs) cs (λ c among. among)))
              (λ c is. only_listed c cs (plan-Among cas def w cs start h q c e is))).at
            w _ kept)

module _ (def : CacheDef) where
  abbrev listed : OpenCas → M Result (List Cache)
  listed cas = or_fail (get_cache_instances cas) (failed_with requeue)

  set_up-Keeps : (cas : OpenCas) (n : Node) → Keeps (Within def []) (set_up cas def n)
  unfolding set_up get_cache_instances
  set_up-Keeps cas n = record {
    at = λ w h p.
        let kept =
          (Keeps-or_fail (get_cache_instances cas) (failed_with requeue)
              (get_cache_instances-Keeps (reads def []) (list-permitted def []) cas)).at
            w h p in
        Keeps-after (Within def []) (listed cas) _ w h kept (λ cs e.
          let found = or_fail-ok (get_cache_instances cas) (failed_with requeue) w h cs e in
          (
            (planned-Within def cs cas n w _ (
              kept.0,
              λ c among.
                  (cas, h, cs, found.0, among, subst⁻¹ (Extends _ w) found.1 (Extends-refl _ w)),
            )).0,
            λ c none_there. absurd none_there,
          ));
  }

  managed-Keeps :
      (n : Node) (unset : Bool) (ns : String) → Keeps (Within def []) (managed def n unset ns)
  managed-Keeps n true ns = search keeps_rules
  managed-Keeps n false ns =
      search (keeps_rules, new_open_cas_manager-Keeps (reads def []), set_up-Keeps) depth 12

after_finalizer-JobsIn :
    (Q : World → History → List String → Type 0) (def : CacheDef) (w : World) (h : History)
    → JobsIn Q w h
    → JobsIn Q w (after_finalizer def h)
after_finalizer-JobsIn Q def w h p =
    elim (Bool-cases (def.deleted || has_finalizer def.finalizers)) [
      | inl there ↦ rw there p
      | inr missing ↦ rw missing p
    ]

-- Whatever the cluster and `casadm` answer, reconciling a definition runs only these commands: the
-- list of caches, statistics, the stop of a cache that was listed before and had no volumes there, a
-- change of a cache that was listed before to the mode that the definition asks for and, unless it is
-- being deleted, the start of a cache on its device with its mode and line size. The definition is the
-- one after the patch with its finalizer where that was missing. The commands run before are
-- supposed to be such too.
pub with_node-Permitted :
    (def : CacheDef) (n : Node) (w : World) (h : History)
    → JobsIn (Permitted (refreshed def w h)) w h
    → JobsIn (Permitted (refreshed def w h)) w (with_node def n w h).1
with_node-Permitted def n w h p =
    subst⁻¹ (λ out. JobsIn (Permitted (refreshed def w h)) w out.1) (with_node-managed def n w h)
      (((managed-Keeps (refreshed def w h) n (w.getenv "CASADM_IMAGE" == "")
          (w.getenv "OPERATOR_NAMESPACE")).at
        w (after_finalizer def h)
        (
          after_finalizer-JobsIn (Permitted (refreshed def w h)) def w h p,
          λ c none_there. absurd none_there,
        )).0)
