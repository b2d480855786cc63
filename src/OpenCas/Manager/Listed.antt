-- ===== src/OpenCas/Manager/Listed.antt =====
-- The volumes that `ListCaches` and `GetVolumeFromCacheList` of pkg/opencas/api.go return.
use open_cas_csi.Prelude.{◌≡◌, String, Option, none, some, List, [], ◌∷◌, arith, All, eq_iff}
use open_cas_csi.Prelude.Int.{ℤ}
use open_cas_csi.Prelude.Dict.{Dict, lookup}
use open_cas_csi.World.{World, History}
use open_cas_csi.Effect.{ok, pure, crash}
use open_cas_csi.Success.{bind-ok}
use open_cas_csi.OpenCas.CacheList.{Cache, CachedVolume}
use open_cas_csi.OpenCas.CacheList.Owners.{OwnedBy, OwnsVolumes, parse_cache_list-OwnsVolumes}
use open_cas_csi.OpenCas.Manager.{
  OpenCas, or_crash, find_volume, list_caches, get_volume_from_cache_list,
}
use open_cas_csi.OpenCas.Manager.Cores.{listed_lem}

or_crash-some :
    {A : Type 0} (o : Option A) (w : World) (h : History) (a : A)
    → (or_crash o w h).0 ≡ ok a
    → o ≡ some a
unfolding or_crash crash pure
or_crash-some none w h a e = cc
or_crash-some (some b) w h a e = cc

list_caches-OwnsVolumes :
    (cas : OpenCas) (w : World) (h : History) (cs : List Cache)
    → (list_caches cas w h).0 ≡ ok cs
    → All OwnsVolumes cs
unfolding list_caches
list_caches-OwnsVolumes cas w h cs e =
    let ran = bind-ok _ _ w h cs e in
    parse_cache_list-OwnsVolumes _ cs (or_crash-some _ w _ cs ran.2)

lookup-backend_path :
    (id : ℤ) (path : String) (m : Dict CachedVolume) (v : CachedVolume)
    → All (OwnedBy id) m
    → lookup path m ≡ some v
    → v.backend_path ≡ path
unfolding lookup
lookup-backend_path id path [] v owned e = cc
lookup-backend_path id path ((key, u) ∷ m) v (here, later) e =
    ground (arith, eq_iff key path, lookup-backend_path id path m v later)

find_volume-backend_path :
    (path : String) (cs : List Cache) (v : CachedVolume)
    → All OwnsVolumes cs
    → find_volume path cs ≡ some v
    → v.backend_path ≡ path
unfolding find_volume
find_volume-backend_path path [] v owned e = cc
find_volume-backend_path path (c ∷ cs) v (here, later) e = ground (
  arith,
  lookup-backend_path c.cache_id path c.volumes v here,
  find_volume-backend_path path cs v later,
)

-- The volume that is found for a backend names this backend.
pub get_volume_from_cache_list-backend_path :
    (cas : OpenCas) (path : String) (w : World) (h : History) (v : CachedVolume)
    → (get_volume_from_cache_list cas path w h).0 ≡ ok (some v)
    → v.backend_path ≡ path
get_volume_from_cache_list-backend_path cas path w h v e =
    let listed = listed_lem cas path w h (some v) e in
    find_volume-backend_path path listed.0 v
      (list_caches-OwnsVolumes cas w h listed.0 (λ i. (listed.1 i).0)) listed.2
