-- ===== src/OpenCas/CacheList/Owners.antt =====
-- Which volumes the caches own that `parseCacheList` of pkg/opencas/api.go makes.
use mathlib.Core.List.{reverse, reverse_aux}
use mathlib.Core.Path.{subst}
use open_cas_csi.Prelude.{
  ◌≡◌, refl, String, Bool, true, false, Option, none, some, List, [], ◌∷◌, ◌==◌, All, if◌then◌else◌,
}
use open_cas_csi.Prelude.Int.{ℤ}
use open_cas_csi.Prelude.Dict.{Dict, insert}
use open_cas_csi.OpenCas.Csv.{Row}
use open_cas_csi.OpenCas.CacheList.{
  CachedVolume, Cache, Round, go_on, break_out, crash, cache_row, core_row, cache_list_round,
  cache_list_loop, parse_cache_list,
}

-- A volume is filed under its backend's path, and names its cache's id.
abbrev pub OwnedBy : ℤ → String × CachedVolume → Type 0
OwnedBy id (key, v) = (key ≡ v.backend_path) × (v.cache_id ≡ id)

abbrev pub OwnsVolumes : Cache → Type 0
OwnsVolumes c = All (OwnedBy c.cache_id) c.volumes

-- A conditional satisfies what both of its branches satisfy.
if-Holds {ℓ} :
    {A : Type ℓ} (P : A → Type 0) (b : Bool) (x y : A) → P x → P y → P (if b then x else y)
if-Holds P true x y px py = px
if-Holds P false x y px py = py

insert-All :
    (P : String × CachedVolume → Type 0) (k : String) (v : CachedVolume) (m : Dict CachedVolume)
    → P (k, v)
    → All P m
    → All P (insert k v m)
unfolding insert
insert-All P k v [] p all = (p, tt)
insert-All P k v ((j, u) ∷ m) p all =
    if-Holds (All P) (j == k) ((k, v) ∷ m) ((j, u) ∷ insert k v m) (p, all.1)
      (all.0, insert-All P k v m p all.1)

-- Every round keeps the caches seen so far well formed.
abbrev AllRound : Round → Type 0
AllRound (go_on caches) = All OwnsVolumes caches
AllRound break_out = Unit
AllRound crash = Unit

cache_row-All : (r : List String) (cs : List Cache) → All OwnsVolumes cs → AllRound (cache_row r cs)
unfolding cache_row
cache_row-All (_ ∷ id ∷ disk ∷ status ∷ mode ∷ _) cs all = (tt, all)
cache_row-All [] cs all = tt
cache_row-All (_ ∷ []) cs all = tt
cache_row-All (_ ∷ _ ∷ []) cs all = tt
cache_row-All (_ ∷ _ ∷ _ ∷ []) cs all = tt
cache_row-All (_ ∷ _ ∷ _ ∷ _ ∷ []) cs all = tt

core_row-All : (r : List String) (cs : List Cache) → All OwnsVolumes cs → AllRound (core_row r cs)
unfolding core_row
core_row-All (_ ∷ id ∷ backend ∷ status ∷ _ ∷ path ∷ _) (c ∷ cs) all =
    (insert-All (OwnedBy c.cache_id) backend _ c.volumes (refl, refl) all.0, all.1)
core_row-All _ _ all = tt

cache_list_round-All :
    (r : List String) (cs : List Cache) → All OwnsVolumes cs → AllRound (cache_list_round r cs)
unfolding cache_list_round
cache_list_round-All [] cs all = tt
cache_list_round-All (kind ∷ params) cs all = if-Holds AllRound (kind == "type") _ _ all (
    if-Holds AllRound (kind == "cache") _ _ (cache_row-All (kind ∷ params) cs all) (
      if-Holds AllRound (kind == "core") _ _ (core_row-All (kind ∷ params) cs all)
        (if-Holds AllRound (kind == "core pool") break_out (go_on cs) tt all)))

All-reverse_aux :
    (cs ds : List Cache)
    → All OwnsVolumes cs
    → All OwnsVolumes ds
    → All OwnsVolumes (reverse_aux cs ds)
All-reverse_aux [] ds all all' = all'
All-reverse_aux (c ∷ cs) ds all all' = All-reverse_aux cs (c ∷ ds) all.1 (all.0, all')

-- What the loop does after a round.
abbrev AllListed : Option (List Cache) → Type 0
AllListed none = Unit
AllListed (some cs) = All OwnsVolumes cs

cache_list_loop-All :
    (rows : List Row) (cs : List Cache) → All OwnsVolumes cs → AllListed (cache_list_loop rows cs)
unfolding cache_list_loop
cache_list_loop-All [] cs all = All-reverse_aux cs [] all tt
cache_list_loop-All (row ∷ rows) cs all =
    elim (cache_list_round row.fields cs)
        as (λ r.
          AllRound r
          → AllListed (elim r [
            | go_on caches' ↦ cache_list_loop rows caches'
            | break_out ↦ some (reverse cs)
            | crash ↦ none
          ])) [
            | go_on ds ↦ λ h. cache_list_loop-All rows ds h
            | break_out ↦ λ h. All-reverse_aux cs [] all tt
            | crash ↦ λ h. tt
          ]
      (cache_list_round-All row.fields cs all)

-- Whatever rows `casadm` prints, every cache that is parsed from them files each of its volumes under
-- the path of the volume's backend, and each volume names the id of the cache that it is filed in.
pub parse_cache_list-OwnsVolumes :
    (rows : List Row) (cs : List Cache) → parse_cache_list rows ≡ some cs → All OwnsVolumes cs
unfolding parse_cache_list
parse_cache_list-OwnsVolumes rows cs e = subst AllListed e (cache_list_loop-All rows [] tt)
