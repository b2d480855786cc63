-- ===== src/Operator/Cache/Release.antt =====
-- When `CacheReconciler.Reconcile` adds and removes the finalizer of a Cache definition.
use open_cas_csi.Prelude.{
  ◌≡◌, refl, String, Bool, true, false, Option, none, some, List, [], ◌∷◌, ◌&&◌, not, arith,
}
use open_cas_csi.World.{World, History, Call, CacheDef, Node}
use open_cas_csi.Effect.{◌>>=◌, M, locked}
use open_cas_csi.Keeps.{Keeps, Allows, keeps_rules, Keeps-locked}
use open_cas_csi.OpenCas.CacheList.{Cache}
use open_cas_csi.OpenCas.Manager.{OpenCas}
use open_cas_csi.OpenCas.Footprint.{
  is_read, AllowsReads, AllowsCmd, new_open_cas_manager-Keeps, get_cache_instances-Keeps,
  get_cache_line_size-Keeps, start_cache-Keeps, stop_cache-Keeps, set_cache_mode-Keeps,
}
use open_cas_csi.Operator.Common.{Result, has_finalizer}
use open_cas_csi.Operator.Common.Finalizers.{
  has_finalizer-add_finalizer_to, has_finalizer-remove_finalizer_from,
}
use open_cas_csi.Operator.Cache.{
  add_finalizer, remove_finalizer, set_operating_cache_label, delete_operating_cache_label,
  plan_instance, plan, Plan, Progress, unset_label, remove_instance, remove_all, modify_or_start,
  release, set_up, with_node, reconcile,
}

-- Each patch of a definition leaves it with the finalizer exactly if it is not being deleted.
abbrev pub PatchesByDeletion : World → History → Type 0
PatchesByDeletion w [] = Unit
PatchesByDeletion w (Call.patch_cache old new ∷ h) =
    (has_finalizer new.finalizers ≡ not old.deleted) × PatchesByDeletion w h
PatchesByDeletion w (_ ∷ h) = PatchesByDeletion w h

abbrev is_patch : Call → Bool
is_patch (Call.patch_cache _ _) = true
is_patch _ = false

Allows-other : (c : Call) → is_patch c ≡ false → Allows PatchesByDeletion c
Allows-other (Call.patch_cache old new) e = cc
Allows-other _ e = record { step = λ w h p. p }

read-Allows : (c : Call) → is_read c ≡ true → Allows PatchesByDeletion c
read-Allows (Call.patch_cache old new) e = cc
read-Allows _ e = record { step = λ w h p. p }

reads : AllowsReads PatchesByDeletion
reads = record { read = read-Allows }

any_cmd : (cmd : String) → AllowsCmd PatchesByDeletion cmd
any_cmd cmd = record { job = λ w' node_id name ns. record { step = λ w h p. p } }

ruleset release_rules = (keeps_rules, Allows-other, refl)

add_finalizer-Keeps :
    (def : CacheDef) → def.deleted ≡ false → Keeps PatchesByDeletion (add_finalizer def)
unfolding add_finalizer ◌>>=◌
add_finalizer-Keeps def e = record {
  at = λ w h p. grind (arith, has_finalizer-add_finalizer_to def.finalizers);
}

remove_finalizer-Keeps :
    (def : CacheDef) → def.deleted ≡ true → Keeps PatchesByDeletion (remove_finalizer def)
unfolding remove_finalizer ◌>>=◌
remove_finalizer-Keeps def e = record {
  at = λ w h p. grind (arith, has_finalizer-remove_finalizer_from def.finalizers);
}

and-left : (a b : Bool) → (a && b) ≡ true → a ≡ true
and-left true b e = refl
and-left false b e = e

set_operating_cache_label-Keeps :
    (n : Node) (text : String) → Keeps PatchesByDeletion (set_operating_cache_label n text)
unfolding set_operating_cache_label
set_operating_cache_label-Keeps n text = search release_rules depth 8

delete_operating_cache_label-Keeps :
    (n : Node) → Keeps PatchesByDeletion (delete_operating_cache_label n)
unfolding delete_operating_cache_label
delete_operating_cache_label-Keeps n = search release_rules depth 8

release-Keeps : (def : CacheDef) (s : Progress) → Keeps PatchesByDeletion (release def s)
unfolding release
release-Keeps def s =
    search (keeps_rules, remove_finalizer-Keeps, and-left, delete_operating_cache_label-Keeps) depth
      9

plan_instance-Keeps :
    (cas : OpenCas) (def : CacheDef) (c : Cache) (p : Plan)
    → Keeps PatchesByDeletion (plan_instance cas def c p)
unfolding plan_instance
plan_instance-Keeps cas def c p =
    search (keeps_rules, get_cache_line_size-Keeps reads, any_cmd) depth 8

plan-Keeps :
    (cas : OpenCas) (def : CacheDef) (cs : List Cache) (p : Plan)
    → Keeps PatchesByDeletion (plan cas def cs p)
unfolding plan
plan-Keeps cas def [] p = search keeps_rules
plan-Keeps cas def (c ∷ cs) p = search (keeps_rules, plan_instance-Keeps, plan-Keeps cas def cs)

remove_instance-Keeps :
    (cas : OpenCas) (def : CacheDef) (label : Option String) (c : Cache) (s : Progress)
    → Keeps PatchesByDeletion (remove_instance cas def label c s)
unfolding remove_instance unset_label
remove_instance-Keeps cas def label c s =
    search (keeps_rules, stop_cache-Keeps reads, any_cmd, set_operating_cache_label-Keeps) depth 9

remove_all-Keeps :
    (cas : OpenCas) (def : CacheDef) (label : Option String) (cs : List Cache) (s : Progress)
    → Keeps PatchesByDeletion (remove_all cas def label cs s)
unfolding remove_all
remove_all-Keeps cas def label [] s = search keeps_rules
remove_all-Keeps cas def label (c ∷ cs) s =
    search (keeps_rules, remove_instance-Keeps, remove_all-Keeps cas def label cs)

modify_or_start-Keeps :
    (cas : OpenCas) (def : CacheDef) (c : Option Cache) (s : Progress)
    → Keeps PatchesByDeletion (modify_or_start cas def c s)
unfolding modify_or_start
modify_or_start-Keeps cas def none s =
    search (keeps_rules, start_cache-Keeps reads, any_cmd, set_operating_cache_label-Keeps) depth 9
modify_or_start-Keeps cas def (some c) s =
    search (keeps_rules, set_cache_mode-Keeps reads, any_cmd) depth 9

set_up-Keeps :
    (cas : OpenCas) (def : CacheDef) (n : Node) → Keeps PatchesByDeletion (set_up cas def n)
unfolding set_up
set_up-Keeps cas def n =
    search
      (
        keeps_rules,
        get_cache_instances-Keeps reads,
        any_cmd,
        plan-Keeps,
        remove_all-Keeps,
        modify_or_start-Keeps,
        release-Keeps,
      )
      depth 12

with_node-Keeps : (def : CacheDef) (n : Node) → Keeps PatchesByDeletion (with_node def n)
unfolding with_node
with_node-Keeps def n =
    search (keeps_rules, add_finalizer-Keeps, new_open_cas_manager-Keeps reads, set_up-Keeps) depth
      12

locked-Keeps :
    {A : Type 0} (key : String) (m : M Result A)
    → Keeps PatchesByDeletion m
    → Keeps PatchesByDeletion (locked key m)
locked-Keeps key m k =
    Keeps-locked key m (Allows-other (Call.lock key) refl) (Allows-other (Call.unlock key) refl) k

reconcile-Keeps : (name : String) → Keeps PatchesByDeletion (reconcile name)
unfolding reconcile
reconcile-Keeps name = search (release_rules, locked-Keeps, with_node-Keeps) depth 12

-- Whatever the cluster answers, each patch of a Cache definition by the reconciler removes the
-- finalizer only from a definition that is being deleted, and adds it only to one that is not.
pub reconcile-PatchesByDeletion :
    (name : String) (w : World) (h : History)
    → PatchesByDeletion w h
    → PatchesByDeletion w (reconcile name w h).1
reconcile-PatchesByDeletion name = (reconcile-Keeps name).at
