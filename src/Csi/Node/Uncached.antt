-- ===== src/Csi/Node/Uncached.antt =====
-- What taking a volume off its cache, `NodeUnstageVolume` of pkg/csi-driver/node.go, leaves.
use open_cas_csi.Prelude.{sym, ◌≡◌, ◌∙◌, String, false, Option, none, some, List, ◌⊎◌, inl, inr}
use open_cas_csi.World.{World, History}
use open_cas_csi.Effect.{ok, pure, or_fail, on_option}
use open_cas_csi.Success.{bind-ok, or_fail-ok}
use open_cas_csi.OpenCas.CacheList.{Cache, CachedVolume}
use open_cas_csi.OpenCas.Manager.{
  OpenCas, new_open_cas_manager, list_caches, get_volume_from_cache_list, remove_core,
}
use open_cas_csi.OpenCas.Manager.Listed.{get_volume_from_cache_list-backend_path}
use mathlib.Core.Path.{subst, subst⁻¹}
use open_cas_csi.OpenCas.Manager.Results.{new_open_cas_manager-same}
use open_cas_csi.OpenCas.Manager.Cores.{
  NoVolume, EndsWithDevice, listed_lem, find_volume-NoVolume, remove_core-NoVolume,
}
use open_cas_csi.Csi.Types.{internal}
use open_cas_csi.Csi.Node.Unstage.{uncache}

-- The calls end with a listing of the caches that has no volume for the path, after which, where a core
-- was removed, `ls` does not find the core's device.
abbrev pub Uncached : OpenCas → (path : String) → World → History → Type 0
Uncached cas path w end =
    ((h : History) × (cs : List Cache) × (list_caches cas w h ≡ (ok cs, end)) × NoVolume path cs)
    ⊎ ((device : String) × EndsWithDevice (NoVolume path) device false cas w end)

removed_lem :
    (cas : OpenCas) (path : String) (w : World) (h : History) (o : Option CachedVolume)
    → (or_fail (get_volume_from_cache_list cas path) internal w h).0 ≡ ok o
    → (on_option o
        (pure tt)
        (λ v. or_fail (remove_core cas v) internal)
        w
        (or_fail (get_volume_from_cache_list cas path) internal w h).1).0
      ≡ ok tt
    → Uncached cas path w
        (on_option o
          (pure tt)
          (λ v. or_fail (remove_core cas v) internal)
          w
          (or_fail (get_volume_from_cache_list cas path) internal w h).1).1
unfolding on_option pure or_fail
removed_lem cas path w h none found e =
    let listed =
      listed_lem cas path w h none
        (or_fail-ok (get_volume_from_cache_list cas path) internal w h none found).0 in
    inl (h, listed.0, listed.1, find_volume-NoVolume path listed.0 listed.2)
removed_lem cas path w h (some v) found e =
    let gone =
      remove_core-NoVolume cas v w _ (or_fail-ok (remove_core cas v) internal w _ tt e).0 in
    let backend =
      get_volume_from_cache_list-backend_path cas path w h v
        (or_fail-ok (get_volume_from_cache_list cas path) internal w h (some v) found).0 in
    inr (
      v.path,
      subst
          (λ p.
            EndsWithDevice (NoVolume p) v.path false cas w
              (remove_core cas v w (get_volume_from_cache_list cas path w h).1).1)
          backend gone,
    )

same_manager :
    (c d : OpenCas) (path : String) (w : World) (end : History)
    → c ≡ d
    → Uncached c path w end
    → Uncached d path w end
same_manager c d path w end is removed = subst (λ cas. Uncached cas path w end) is removed

pub uncache-Uncached :
    (node_id ns path : String) (w : World) (h : History)
    → (uncache node_id ns path w h).0 ≡ ok tt
    → Uncached (record { node_id = node_id; namespace = ns }) path w (uncache node_id ns path w h).1
unfolding uncache
uncache-Uncached node_id ns path w h e =
    let managed = bind-ok _ _ w h tt e in
    let found = bind-ok _ _ w _ tt managed.2 in
    let removed = removed_lem managed.0 path w _ found.0 found.1 found.2 in
    let cas =
      new_open_cas_manager-same node_id ns w h managed.0
        (or_fail-ok (new_open_cas_manager node_id ns) internal w h managed.0 managed.1).0 in
    subst⁻¹ (Uncached (record { node_id = node_id; namespace = ns }) path w) (managed.3 ∙ found.3)
      (same_manager managed.0 _ path w _ (sym cas) removed)
