-- ===== src/OpenCas/CacheList.antt =====
-- pkg/opencas/api.go: the types of caches, and the parsers of what `casadm` prints.
pub mod Owners
use open_cas_csi.Prelude.{
  String, Option, none, some, List, [], ◌∷◌, ◌==◌, eqb, length, if◌then◌else◌,
}
use mathlib.Core.List.{reverse}
use open_cas_csi.Prelude.Int.{ℤ}
use open_cas_csi.Prelude.Dict.{Dict, insert}
use open_cas_csi.Prelude.Text.{atoi_value}
use open_cas_csi.OpenCas.Csv.{Row}

-- The pointer `Cache` is read for the id only.
pub record CachedVolume : Type 0 where
  pub core_id : ℤ
  pub backend_path : String
  pub status : String
  pub path : String
  pub cache_id : ℤ

pub record Cache : Type 0 where
  pub cache_id : ℤ
  pub device_path : String
  pub status : String
  pub cache_mode : String
  pub volumes : Dict CachedVolume

-- One round of the loop: it goes on, breaks, or panics.
pub data Round : Type 0 where
  go_on : List Cache → Round
  break_out : Round
  crash : Round

-- `params` with the fields 0 to 4, and 5 if it is there.
unfoldable pub cache_row : List String → List Cache → Round
cache_row (_ ∷ id ∷ disk ∷ status ∷ mode ∷ _) caches = go_on (
    record {
      cache_id = atoi_value id;
      device_path = disk;
      status = status;
      cache_mode = mode;
      volumes = [];
    }
    ∷ caches)
cache_row _ caches = crash

-- The core belongs to the cache of the latest row; before any cache `cache` is nil.
unfoldable pub core_row : List String → List Cache → Round
core_row (_ ∷ id ∷ backend ∷ status ∷ _ ∷ path ∷ _) (cache ∷ caches) = go_on (
    record cache {
      volumes =
          insert backend
            (record {
              core_id = atoi_value id;
              backend_path = backend;
              status = status;
              path = path;
              cache_id = cache.cache_id;
            })
            cache.volumes;
    }
    ∷ caches)
core_row _ caches = crash

unfoldable pub cache_list_round : List String → List Cache → Round
unfolding cache_row core_row
cache_list_round [] caches = crash
cache_list_round (kind ∷ params) caches =
    if kind == "type"
    then go_on caches
    else if kind == "cache"
    then cache_row (kind ∷ params) caches
    else if kind == "core"
    then core_row (kind ∷ params) caches
    else if kind == "core pool"
    then break_out
    else go_on caches

-- The loop over the rows; `caches` is in reverse, and `none` is a panic.
unfoldable pub cache_list_loop : List Row → List Cache → Option (List Cache)
unfolding cache_list_round
cache_list_loop [] caches = some (reverse caches)
cache_list_loop (row ∷ rows) caches = elim (cache_list_round row.fields caches) [
  | go_on caches' ↦ cache_list_loop rows caches'
  | break_out ↦ some (reverse caches)
  | crash ↦ none
]

unfoldable pub parse_cache_list : List Row → Option (List Cache)
unfolding cache_list_loop
parse_cache_list rows = cache_list_loop rows []

abbrev pub StatsMap : Type 0
StatsMap = Dict String

-- `for i, key := range header { statsMap[key] = values[i] }`
unfoldable pub fill_stats : (header values : List String) → StatsMap → StatsMap
fill_stats (key ∷ header) (v ∷ values) stats = fill_stats header values (insert key v stats)
fill_stats _ _ stats = stats

-- `none` is an error. A second row that is missing is no error of `Read`, and fails on its length.
unfoldable pub parse_stats : List Row → Option StatsMap
unfolding fill_stats
parse_stats [] = none
parse_stats (header ∷ []) =
    if header.bad then none else if eqb (length header.fields) 0 then some [] else none
parse_stats (header ∷ values ∷ _) =
    if header.bad
    then none
    else if values.bad
    then none
    else if eqb (length header.fields) (length values.fields)
    then some (fill_stats header.fields values.fields [])
    else none
