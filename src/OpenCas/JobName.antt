-- ===== src/OpenCas/JobName.antt =====
-- pkg/opencas/api.go: `getJobName`, over lists of characters. Node names are DNS names, so a character is a byte.
pub mod Length
pub mod Alphabet
use Prim.Native.Char.{Char, code}
use text.Mathlib.TextBridge.{of_list}
use open_cas_csi.Prelude.{
  ℕ, zero, suc, ◌-◌, String, Bool, true, false, List, [], ◌∷◌, ◌++◌, ◌&&◌, ◌||◌, eqb, leb, ltb,
  length, if◌then◌else◌,
}
use open_cas_csi.Prelude.Dict.{Dict}
use open_cas_csi.OpenCas.Csv.{chars}

abbrev pub small_letters : List Char
small_letters = chars "abcdefghijklmnopqrstuvwxyz"

-- The element with the number `n`, counted from 0, and `c` past the end
abbrev pub nth : Char → ℕ → List Char → Char
nth c n [] = c
nth c zero (d ∷ s) = d
nth c (suc n) (d ∷ s) = nth c n s

-- `strings.ToLower` on a byte
unfoldable pub to_lower : Char → Char
to_lower c = if leb 65 (code c) && leb (code c) 90 then nth c (code c - 65) small_letters else c

unfoldable pub lower : List Char → List Char
unfolding to_lower
lower [] = []
lower (c ∷ cs) = to_lower c ∷ lower cs

-- `strings.HasPrefix(s, key)`
unfoldable pub has_prefix : List Char → List Char → Bool
has_prefix s [] = true
has_prefix [] (k ∷ ks) = false
has_prefix (c ∷ s) (k ∷ ks) = eqb (code c) (code k) && has_prefix s ks

-- `strings.ReplaceAll(s, key, value)` for a key that is not empty: `skip` characters of a match are
-- still to be dropped.
unfoldable pub replace_from : (skip : ℕ) → (key value : List Char) → List Char → List Char
unfolding has_prefix
replace_from skip key value [] = []
replace_from skip key value (c ∷ s) =
    let hit = eqb skip 0 && has_prefix (c ∷ s) key in
    let rest = replace_from (if hit then length key - 1 else skip - 1) key value s in
    if hit then value ++ rest else if eqb skip 0 then c ∷ rest else rest

unfoldable pub replace_each : Dict String → List Char → List Char
unfolding replace_from
replace_each [] s = s
replace_each ((key, value) ∷ more) s =
    replace_each more (replace_from 0 (chars key) (chars value) s)

-- `strings.Split(s, ".")[0]`
unfoldable pub before_dot : List Char → List Char
before_dot [] = []
before_dot (c ∷ s) = let rest = before_dot s in if eqb (code c) 46 then [] else c ∷ rest

-- The class `[-\.a-zA-Z0-9]`
abbrev pub is_name_char : ℕ → Bool
is_name_char n =
    eqb n 45
    || (eqb n 46 || (leb 97 n && leb n 122 || (leb 65 n && leb n 90 || leb 48 n && leb n 57)))

-- `match.ReplaceAllString(cmd, "")`
unfoldable pub name_chars : List Char → List Char
name_chars [] = []
name_chars (c ∷ s) = let rest = name_chars s in if is_name_char (code c) then c ∷ rest else rest

abbrev pub take : ℕ → List Char → List Char
take zero s = []
take (suc n) [] = []
take (suc n) (c ∷ s) = c ∷ take n s

-- `strings.TrimRight(s, "-.")`
abbrev pub is_cut : ℕ → Bool
is_cut n = eqb n 45 || eqb n 46

abbrev cons_unless_cut : Char → List Char → List Char
cons_unless_cut c [] = if is_cut (code c) then [] else c ∷ []
cons_unless_cut c (d ∷ s) = c ∷ d ∷ s

unfoldable pub trim_right : List Char → List Char
trim_right [] = []
trim_right (c ∷ s) = cons_unless_cut c (trim_right s)

abbrev pub max_job_name_length : ℕ
max_job_name_length = 63

-- `order` is the order in which `range` visits the map `replace`.
unfoldable pub job_name_chars : (order : Dict String) → (node_id cmd : String) → List Char
unfolding replace_each before_dot name_chars trim_right lower
job_name_chars order node_id cmd =
    let output =
      lower (before_dot (chars node_id) ++ name_chars (replace_each order (chars cmd))) in
    if ltb max_job_name_length (length output)
    then trim_right (take max_job_name_length output)
    else output

unfoldable pub get_job_name : (order : Dict String) → (node_id cmd : String) → String
unfolding job_name_chars
get_job_name order node_id cmd = of_list (job_name_chars order node_id cmd)
