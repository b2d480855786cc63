-- ===== src/Prelude/Dict.antt =====
-- A Go map with string keys, as an association list.
-- `insert` is `m[k] = v`, `erase` is `delete(m, k)`, `lookup` is `v, ok := m[k]`.
use Prim.Native.String.{String}
use mathlib.Core.Path.{◌≡◌, refl}
use mathlib.Core.Bool.{Bool}
use mathlib.Core.Option.{Option, none, some}
use mathlib.Core.List.{List, [], ◌∷◌}
use native.Mathlib.Omega.{arith}
use text.Mathlib.Text.{◌==◌}
use text.Mathlib.TextEquality.{eq_iff}
use text.Mathlib.TextPositions.{eq_refl}
use open_cas_csi.Prelude.Tests.{if◌then◌else◌, is_some}

abbrev pub Dict {ℓ} : Type ℓ → Type ℓ
Dict V = List (String × V)

module _ {ℓ} {V : Type ℓ} where
  unfoldable pub lookup : String → Dict V → Option V
  lookup key [] = none
  lookup key ((other, new) ∷ dict) = if other == key then some new else lookup key dict

  unfoldable pub insert : String → V → Dict V → Dict V
  insert key new [] = (key, new) ∷ []
  insert key new ((other, old) ∷ dict) =
      if other == key then (key, new) ∷ dict else (other, old) ∷ insert key new dict

  unfoldable pub erase : String → Dict V → Dict V
  erase key [] = []
  erase key ((other, old) ∷ dict) =
      let rest = erase key dict in if other == key then rest else (other, old) ∷ rest

  abbrev pub contains_key : String → Dict V → Bool
  contains_key key dict = is_some (lookup key dict)

  pub lookup-insert :
      (key other : String) (new : V) (dict : Dict V)
      → lookup other (insert key new dict) ≡ (if key == other then some new else lookup other dict)
  unfolding lookup insert
  lookup-insert key other new [] = refl
  lookup-insert key other new ((there, old) ∷ dict) = ground (
    arith,
    eq_iff there other,
    eq_iff key other,
    eq_iff there key,
    lookup-insert key other new dict,
  )

  pub lookup-erase :
      (key other : String) (dict : Dict V)
      → lookup other (erase key dict) ≡ (if key == other then none else lookup other dict)
  unfolding lookup erase
  lookup-erase key other [] = ground arith
  lookup-erase key other ((there, old) ∷ dict) =
      ground
        (arith, eq_iff there other, eq_iff key other, eq_iff there key, lookup-erase key other dict)

  pub lookup-insert_self :
      (key : String) (new : V) (dict : Dict V) → lookup key (insert key new dict) ≡ some new
  lookup-insert_self key new dict = simp (lookup-insert, eq_refl)

  pub lookup-erase_self : (key : String) (dict : Dict V) → lookup key (erase key dict) ≡ none
  lookup-erase_self key dict = simp (lookup-erase, eq_refl)
