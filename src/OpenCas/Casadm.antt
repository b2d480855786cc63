-- ===== src/OpenCas/Casadm.antt =====
-- pkg/opencas/casadm.go: the command lines of `casadm`.
pub mod Arguments
use open_cas_csi.Prelude.{ℕ, String, List, [], ◌∷◌, ◌++◌, ◌==◌, eqb, if◌then◌else◌}
use open_cas_csi.Prelude.Int.{ℤ, eq_int, minus_one}
use open_cas_csi.Prelude.Text.{join, show, show_int}
use open_cas_csi.Prelude.Dict.{Dict}

-- pkg/opencas/api.go: `CsiDriverByIdDir`
abbrev pub csi_driver_by_id_dir : String
csi_driver_by_id_dir = "/dev/disk/by-id/opencas-csi"

-- The map `replace`, in the order of the source.
abbrev pub replace : Dict String
replace =
    ("casadm", "")
    ∷ ("--start-cache", "-S")
    ∷ ("--stop-cache", "-T")
    ∷ ("--add-core", "-A")
    ∷ ("--remove-core", "-R")
    ∷ ("--list-caches", "-L")
    ∷ ("--set-cache-mode", "-Q")
    ∷ ("--stats", "-P")
    ∷ ("--cache-device", "-d")
    ∷ ("--core-device", "-d")
    ∷ ("--cache-id", "-i")
    ∷ ("--core-id", "-j")
    ∷ ("--cache-mode", "-c")
    ∷ ("--cache-line-size", "-x")
    ∷ ("--io-class-id", "-d")
    ∷ ("--by-id-path", "")
    ∷ ("--force", "")
    ∷ ("--output-format csv", "")
    ∷ (csi_driver_by_id_dir, "")
    ∷ []

-- The words that a function passes to `strings.Join`.
unfoldable pub start_cache_words : (path mode : String) → (cls : ℕ) → (cache_id : ℤ) → List String
start_cache_words path mode cls cache_id =
    "casadm"
    ∷ "--start-cache"
    ∷ "--force"
    ∷ "--cache-device"
    ∷ path
    ∷ ((if eq_int cache_id minus_one then [] else "--cache-id" ∷ show_int cache_id ∷ [])
        ++ ((if mode == "" then [] else "--cache-mode" ∷ mode ∷ [])
            ++ (if eqb cls 0 then [] else "--cache-line-size" ∷ show cls ∷ [])))

unfoldable pub start_cache_cmd : (path mode : String) → (cls : ℕ) → (cache_id : ℤ) → String
unfolding start_cache_words
start_cache_cmd path mode cls cache_id = join (start_cache_words path mode cls cache_id)

unfoldable pub stop_cache_words : ℤ → List String
stop_cache_words cache_id = "casadm" ∷ "--stop-cache" ∷ "--cache-id" ∷ show_int cache_id ∷ []

unfoldable pub stop_cache_cmd : ℤ → String
unfolding stop_cache_words
stop_cache_cmd cache_id = join (stop_cache_words cache_id)

unfoldable pub add_core_words : ℤ → String → ℤ → List String
add_core_words cache_id path core_id =
    "casadm"
    ∷ "--add-core"
    ∷ "--cache-id"
    ∷ show_int cache_id
    ∷ "--core-device"
    ∷ path
    ∷ (if eq_int core_id minus_one then [] else "--core-id" ∷ show_int core_id ∷ [])

unfoldable pub add_core_cmd : ℤ → String → ℤ → String
unfolding add_core_words
add_core_cmd cache_id path core_id = join (add_core_words cache_id path core_id)

unfoldable pub remove_core_words : (cache_id core_id : ℤ) → List String
remove_core_words cache_id core_id =
    "casadm"
    ∷ "--remove-core"
    ∷ "--cache-id"
    ∷ show_int cache_id
    ∷ "--core-id"
    ∷ show_int core_id
    ∷ []

unfoldable pub remove_core_cmd : (cache_id core_id : ℤ) → String
unfolding remove_core_words
remove_core_cmd cache_id core_id = join (remove_core_words cache_id core_id)

unfoldable pub list_caches_cmd : String
list_caches_cmd = join ("casadm" ∷ "--list-caches" ∷ "--by-id-path" ∷ "--output-format csv" ∷ [])

unfoldable pub stats_cmd : (cache_id core_id : ℤ) → String
stats_cmd cache_id core_id = join (
    "casadm"
    ∷ "--stats"
    ∷ "--output-format csv"
    ∷ "--cache-id"
    ∷ show_int cache_id
    ∷ (if eq_int core_id minus_one then [] else "--core-id" ∷ show_int core_id ∷ []))

unfoldable pub set_cache_mode_words : ℤ → String → List String
set_cache_mode_words cache_id mode =
    "casadm" ∷ "--set-cache-mode" ∷ "--cache-id" ∷ show_int cache_id ∷ "--cache-mode" ∷ mode ∷ []

unfoldable pub set_cache_mode_cmd : ℤ → String → String
unfolding set_cache_mode_words
set_cache_mode_cmd cache_id mode = join (set_cache_mode_words cache_id mode)
