-- ===== src/Prelude/Int.antt =====
-- Go's `int`: the sentinel -1 stands for "assign automatically", and exit codes may be negative.
use Prim.Native.Nat.{ℕ}
use mathlib.Core.Path.{◌≡◌}
use mathlib.Core.Logic.{◌↔◌}
use mathlib.Core.Bool.{Bool, true, false}
use native.Mathlib.Omega.{arith}
use open_cas_csi.Prelude.Tests.{eqb}

-- `negsuc n` is -(n + 1).
pub data ℤ : Type 0 where
  pos : ℕ → ℤ
  negsuc : ℕ → ℤ

abbrev pub eq_int : ℤ → ℤ → Bool
eq_int (pos m) (pos n) = eqb m n
eq_int (negsuc m) (negsuc n) = eqb m n
eq_int (pos _) (negsuc _) = false
eq_int (negsuc _) (pos _) = false

abbrev pub minus_one : ℤ
minus_one = negsuc 0

pub eq_int_iff : (a b : ℤ) → (eq_int a b ≡ true) ↔ (a ≡ b)
eq_int_iff a b = ground arith
