-- ===== src/Prelude/Words.antt =====
-- Words without a space, joined and split.
use Prim.Native.Char.{code}
use Prim.Native.String.{String, ◌++◌}
use Prim.Native.String.append.{nil, cons}
use mathlib.Core.Path.{◌≡◌, refl, ap, ◌∙◌}
use mathlib.Core.Bool.{Bool, true, false}
use mathlib.Core.List.{List, [], ◌∷◌}
use native.Mathlib.Omega.{arith}
use open_cas_csi.Prelude.Tests.{eqb, if◌then◌else◌}
use open_cas_csi.Prelude.Lists.{All}
use open_cas_csi.Prelude.Text.{join, split, push_char}

abbrev pub IsWord : String → Type 0
IsWord String.[] = Unit
IsWord (String.◌∷◌ c s) = (eqb (code c) 32 ≡ false) × IsWord s

abbrev pub is_word : String → Bool
is_word String.[] = true
is_word (String.◌∷◌ c s) = if eqb (code c) 32 then false else is_word s

-- For a text that is written out, `refl` is the argument.
pub IsWord-is_word : (s : String) → is_word s ≡ true → IsWord s
IsWord-is_word String.[] e = tt
IsWord-is_word (String.◌∷◌ c s) e = (ground arith, IsWord-is_word s (ground arith))

split-IsWord : (s : String) → IsWord s → split s ≡ s ∷ []
unfolding split push_char
split-IsWord String.[] word = refl
split-IsWord (String.◌∷◌ c s) word = ground (arith, split-IsWord s word.1)

split-append : (s t : String) → IsWord s → split (s ++ " " ++ t) ≡ s ∷ split t
unfolding split push_char
split-append String.[] t word = rw (nil, cons, nil) refl
split-append (String.◌∷◌ c s) t word = ground (arith, split-append s t word.1, cons c s (" " ++ t))

-- Splitting a command line at its spaces gives back the words that were joined with spaces, if there
-- is at least one word and no word has a space in it.
pub split-join :
    (x : String) (xs : List String) → All IsWord (x ∷ xs) → split (join (x ∷ xs)) ≡ x ∷ xs
unfolding join
split-join x [] words = split-IsWord x words.0
split-join x (y ∷ ys) words =
    split-append x (join (y ∷ ys)) words.0 ∙ ap (λ rest. x ∷ rest) (split-join y ys words.1)
