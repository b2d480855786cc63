-- ===== src/OpenCas/Casadm/Arguments.antt =====
-- The argument vectors of the Jobs that run `casadm`: pkg/opencas/casadm.go with
-- `strings.Split(cmd, " ")` of pkg/opencas/api.go.
use Prim.Native.String.{◌++◌ as append}
use Prim.Native.String.append.{nil, cons}
use open_cas_csi.Prelude.{
  ℕ, zero, suc, ◌≡◌, refl, String, Bool, true, false, List, [], ◌∷◌, ◌++◌, ◌==◌, eqb, leb, ◌/◌, ◌%◌,
  All, All-append, if◌then◌else◌,
}
use mathlib.Core.Path.{subst⁻¹}
use open_cas_csi.Prelude.Int.{ℤ, pos, negsuc, eq_int, minus_one}
use open_cas_csi.Prelude.Text.{split, digit, show_fuel, show, show_int}
use open_cas_csi.Prelude.Words.{IsWord, is_word, IsWord-is_word, split-join}
use open_cas_csi.OpenCas.Casadm.{
  start_cache_words, start_cache_cmd, add_core_words, add_core_cmd, remove_core_words,
  remove_core_cmd, stop_cache_words, stop_cache_cmd,
}

append-IsWord : (s t : String) → IsWord s → IsWord t → IsWord (append s t)
append-IsWord String.[] t ws wt = subst⁻¹ IsWord (nil t) wt
append-IsWord (String.◌∷◌ c s) t ws wt =
    subst⁻¹ IsWord (cons c s t) (ws.0, append-IsWord s t ws.1 wt)

digit-IsWord : (n : ℕ) → IsWord (digit n)
digit-IsWord zero = (refl, tt)
digit-IsWord (suc zero) = (refl, tt)
digit-IsWord (suc (suc zero)) = (refl, tt)
digit-IsWord (suc (suc (suc zero))) = (refl, tt)
digit-IsWord (suc (suc (suc (suc zero)))) = (refl, tt)
digit-IsWord (suc (suc (suc (suc (suc zero))))) = (refl, tt)
digit-IsWord (suc (suc (suc (suc (suc (suc zero)))))) = (refl, tt)
digit-IsWord (suc (suc (suc (suc (suc (suc (suc zero))))))) = (refl, tt)
digit-IsWord (suc (suc (suc (suc (suc (suc (suc (suc zero)))))))) = (refl, tt)
digit-IsWord (suc (suc (suc (suc (suc (suc (suc (suc (suc n))))))))) = (refl, tt)

if-IsWord : (b : Bool) (s t : String) → IsWord s → IsWord t → IsWord (if b then s else t)
if-IsWord true s t ws wt = ws
if-IsWord false s t ws wt = wt

show_fuel-IsWord : (f n : ℕ) → IsWord (show_fuel f n)
unfolding show_fuel
show_fuel-IsWord zero n = tt
show_fuel-IsWord (suc f) n = if-IsWord (leb n 9) (digit n) _ (digit-IsWord n) (
    append-IsWord (show_fuel f (n / 10)) (digit (n % 10)) (show_fuel-IsWord f (n / 10))
      (digit-IsWord (n % 10)))

show_int-IsWord : (n : ℤ) → IsWord (show_int n)
unfolding show_int show
show_int-IsWord (pos n) = show_fuel-IsWord (suc n) n
show_int-IsWord (negsuc n) = append-IsWord "-" _ (refl, tt) (show_fuel-IsWord (suc (suc n)) (suc n))

-- A parameter and its value.
pair-IsWord : (key v : String) → is_word key ≡ true → IsWord v → All IsWord (key ∷ v ∷ [])
pair-IsWord key v e wv = (IsWord-is_word key e, (wv, tt))

-- A parameter that is left out on a condition.
abbrev pub option : (left_out : Bool) → (key v : String) → List String
option left_out key v = if left_out then [] else key ∷ v ∷ []

option-IsWord :
    (b : Bool) (key v : String) → is_word key ≡ true → IsWord v → All IsWord (option b key v)
option-IsWord true key v e wv = tt
option-IsWord false key v e wv = pair-IsWord key v e wv

start_cache_words-IsWord :
    (path mode : String) (cls : ℕ) (id : ℤ)
    → IsWord path
    → IsWord mode
    → All IsWord (start_cache_words path mode cls id)
unfolding start_cache_words show
start_cache_words-IsWord path mode cls id wp wm =
    let ids = option (eq_int id minus_one) "--cache-id" (show_int id) in
    let modes = option (mode == "") "--cache-mode" mode in
    let sizes = option (eqb cls 0) "--cache-line-size" (show cls) in
    (
      IsWord-is_word "casadm" refl,
      (
        IsWord-is_word "--start-cache" refl,
        (
          IsWord-is_word "--force" refl,
          (
            IsWord-is_word "--cache-device" refl,
            (
              wp,
              All-append IsWord ids (modes ++ sizes)
                  (option-IsWord (eq_int id minus_one) "--cache-id" (show_int id) refl
                    (show_int-IsWord id))
                  (All-append IsWord modes sizes
                    (option-IsWord (mode == "") "--cache-mode" mode refl wm)
                    (option-IsWord (eqb cls 0) "--cache-line-size" (show cls) refl
                      (show_fuel-IsWord (suc cls) cls))),
            ),
          ),
        ),
      ),
    )

-- If neither the device nor the mode has a space in it, the Job that starts a cache runs `casadm` with
-- exactly the words that the driver put together: the device is one argument, and the id, the mode
-- and the line size follow their parameters where they are set.
split-start_cache_cmd :
    (path mode : String) (cls : ℕ) (id : ℤ)
    → IsWord path
    → IsWord mode
    → split (start_cache_cmd path mode cls id) ≡ start_cache_words path mode cls id
unfolding start_cache_cmd
split-start_cache_cmd path mode cls id wp wm =
    split-join _ _ (start_cache_words-IsWord path mode cls id wp wm)

add_core_words-IsWord :
    (id : ℤ) (path : String) (core : ℤ) → IsWord path → All IsWord (add_core_words id path core)
unfolding add_core_words
add_core_words-IsWord id path core wp = (
  IsWord-is_word "casadm" refl,
  (
    IsWord-is_word "--add-core" refl,
    (
      IsWord-is_word "--cache-id" refl,
      (
        show_int-IsWord id,
        (
          IsWord-is_word "--core-device" refl,
          (
            wp,
            option-IsWord (eq_int core minus_one) "--core-id" (show_int core) refl
                (show_int-IsWord core),
          ),
        ),
      ),
    ),
  ),
)

-- If the path has no space in it, the Job that adds a core runs `casadm` with exactly the words that
-- the driver put together, and so do the Jobs that remove a core and stop a cache, for all ids.
split-core_cmds :
    (id : ℤ) (path : String) (core : ℤ)
    → IsWord path
    → (split (add_core_cmd id path core) ≡ add_core_words id path core)
      × (split (remove_core_cmd id core) ≡ remove_core_words id core)
      × (split (stop_cache_cmd id) ≡ stop_cache_words id)
unfolding add_core_cmd remove_core_cmd stop_cache_cmd
split-core_cmds id path core wp = (
  split-join _ _ (add_core_words-IsWord id path core wp),
  split-join "casadm" _ (
      (
        IsWord-is_word "casadm" refl,
        (
          IsWord-is_word "--remove-core" refl,
          (
            IsWord-is_word "--cache-id" refl,
            (show_int-IsWord id, pair-IsWord "--core-id" _ refl (show_int-IsWord core)),
          ),
        ),
      )),
  split-join "casadm" _ (
      (
        IsWord-is_word "casadm" refl,
        (IsWord-is_word "--stop-cache" refl, pair-IsWord "--cache-id" _ refl (show_int-IsWord id)),
      )),
)

-- If neither the path nor the mode has a space in it, a Job that starts a cache, adds or removes a core or
-- stops a cache runs `casadm` with exactly these arguments, for all ids and line sizes: the path is one
-- argument, and the id and the mode of a new cache, its line size and the id of a new core follow their
-- parameters unless they are -1, empty or 0.
pub split-casadm_cmds :
    (path mode : String) (cls : ℕ) (id core : ℤ)
    → IsWord path
    → IsWord mode
    → (split (start_cache_cmd path mode cls id)
        ≡ "casadm"
          ∷ "--start-cache"
          ∷ "--force"
          ∷ "--cache-device"
          ∷ path
          ∷ (option (eq_int id minus_one) "--cache-id" (show_int id)
              ++ (option (mode == "") "--cache-mode" mode
                  ++ option (eqb cls 0) "--cache-line-size" (show cls))))
      × (split (add_core_cmd id path core)
          ≡ "casadm"
            ∷ "--add-core"
            ∷ "--cache-id"
            ∷ show_int id
            ∷ "--core-device"
            ∷ path
            ∷ option (eq_int core minus_one) "--core-id" (show_int core))
      × (split (remove_core_cmd id core)
          ≡ "casadm"
            ∷ "--remove-core"
            ∷ "--cache-id"
            ∷ show_int id
            ∷ "--core-id"
            ∷ show_int core
            ∷ [])
      × (split (stop_cache_cmd id) ≡ "casadm" ∷ "--stop-cache" ∷ "--cache-id" ∷ show_int id ∷ [])
unfolding start_cache_words add_core_words remove_core_words stop_cache_words
split-casadm_cmds path mode cls id core wp wm =
    let cores = split-core_cmds id path core wp in
    (split-start_cache_cmd path mode cls id wp wm, cores.0, cores.1, cores.2)
