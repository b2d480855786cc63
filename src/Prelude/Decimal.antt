-- ===== src/Prelude/Decimal.antt =====
-- Decimal texts: what is written for a number is read back.
use Prim.Native.Nat.{ℕ, zero, suc, ◌+◌, ◌-◌, ◌*◌, ◌/◌, ◌%◌, ◌≤◌}
use Prim.Native.Char.{code}
use Prim.Native.String.{String, ◌++◌}
use Prim.Native.String.append.{nil, cons}
use mathlib.Core.Path.{◌≡◌, refl, ap, ◌∙◌, sym}
use mathlib.Core.Bool.{Bool, true, false}
use mathlib.Core.Option.{some}
use native.Mathlib.Omega.{arith}
use open_cas_csi.Prelude.Tests.{leb, if◌then◌else◌}
use open_cas_csi.Prelude.Int.{pos}
use open_cas_csi.Prelude.Text.{
  digit, show, show_fuel, scan, parse_digits, parse_signed, atoi, max_int,
}

scan-digit : (acc d : ℕ) → d ≤ 9 → scan acc (digit d) ≡ some (acc * 10 + d)
unfolding scan
scan-digit acc zero e = ground arith
scan-digit acc (suc zero) e = ground arith
scan-digit acc (suc (suc zero)) e = ground arith
scan-digit acc (suc (suc (suc zero))) e = ground arith
scan-digit acc (suc (suc (suc (suc zero)))) e = ground arith
scan-digit acc (suc (suc (suc (suc (suc zero))))) e = ground arith
scan-digit acc (suc (suc (suc (suc (suc (suc zero)))))) e = ground arith
scan-digit acc (suc (suc (suc (suc (suc (suc (suc zero))))))) e = ground arith
scan-digit acc (suc (suc (suc (suc (suc (suc (suc (suc zero)))))))) e = ground arith
scan-digit acc (suc (suc (suc (suc (suc (suc (suc (suc (suc zero))))))))) e = ground arith
scan-digit acc (suc (suc (suc (suc (suc (suc (suc (suc (suc (suc d)))))))))) e = ground arith

scan-append : (acc m : ℕ) (s t : String) → scan acc s ≡ some m → scan acc (s ++ t) ≡ scan m t
unfolding scan
scan-append acc m String.[] t e = ground (arith, nil t)
scan-append acc m (String.◌∷◌ c s) t e =
    ground (arith, cons c s t, scan-append (acc * 10 + (code c - 48)) m s t)

scan-last :
    (q d : ℕ) (s : String) → d ≤ 9 → scan 0 s ≡ some q → scan 0 (s ++ digit d) ≡ some (q * 10 + d)
scan-last q d s e front = scan-append 0 q s (digit d) front ∙ scan-digit q d e

scan-empty : scan 0 "" ≡ some 0
unfolding scan
scan-empty = refl

if-scan :
    (b : Bool) (s t : String) (n : ℕ)
    → (b ≡ true → scan 0 s ≡ some n)
    → scan 0 t ≡ some n
    → scan 0 (if b then s else t) ≡ some n
if-scan true s t n short long = short refl
if-scan false s t n short long = long

scan-show_fuel : (f n : ℕ) → n ≤ f → scan 0 (show_fuel (suc f) n) ≡ some n
unfolding show_fuel
scan-show_fuel zero n e =
    if-scan (leb n 9) (digit n) _ n (λ small. scan-digit 0 n (omega arith) ∙ ap some (omega arith))
      (scan-last 0 (n % 10) "" (omega arith) scan-empty ∙ ap some (omega arith))
scan-show_fuel (suc f) n e =
    if-scan (leb n 9) (digit n) _ n (λ small. scan-digit 0 n (ground arith) ∙ ap some (omega arith))
      (scan-last (n / 10) (n % 10) _ (omega arith) (scan-show_fuel f (n / 10) (omega arith))
        ∙ ap some (omega arith))

-- A text that is not empty and is all digits has no sign.
parse_signed-scan :
    (s : String) (n : ℕ) → (s ≡ "" → ⊥) → scan 0 s ≡ some n → parse_signed s ≡ some (pos n)
unfolding parse_signed parse_digits scan
parse_signed-scan String.[] n full e = absurd (full refl)
parse_signed-scan (String.◌∷◌ c s) n full e = ground arith

digit-full : (n : ℕ) → digit n ≡ "" → ⊥
digit-full zero e = cc
digit-full (suc zero) e = cc
digit-full (suc (suc zero)) e = cc
digit-full (suc (suc (suc zero))) e = cc
digit-full (suc (suc (suc (suc zero)))) e = cc
digit-full (suc (suc (suc (suc (suc zero))))) e = cc
digit-full (suc (suc (suc (suc (suc (suc zero)))))) e = cc
digit-full (suc (suc (suc (suc (suc (suc (suc zero))))))) e = cc
digit-full (suc (suc (suc (suc (suc (suc (suc (suc zero)))))))) e = cc
digit-full (suc (suc (suc (suc (suc (suc (suc (suc (suc n))))))))) e = cc

append-full : (s t : String) → (t ≡ "" → ⊥) → s ++ t ≡ "" → ⊥
append-full String.[] t full e = full (sym (nil t) ∙ e)
append-full (String.◌∷◌ c s) t full e = let u = sym (cons c s t) ∙ e in cc

if-full : (b : Bool) (s t : String) → (s ≡ "" → ⊥) → (t ≡ "" → ⊥) → (if b then s else t) ≡ "" → ⊥
if-full true s t fs ft = fs
if-full false s t fs ft = ft

pub show-full : (n : ℕ) → show n ≡ "" → ⊥
unfolding show show_fuel
show-full n = if-full (leb n 9) (digit n) _ (digit-full n) (append-full _ _ (digit-full (n % 10)))

scan-show : (n : ℕ) → scan 0 (show n) ≡ some n
unfolding show
scan-show n = scan-show_fuel n n (omega arith)

-- What `fmt.Sprint` writes for a number of the machine is what `strconv.Atoi` reads.
pub atoi-show : (n : ℕ) → n ≤ max_int → atoi (show n) ≡ some (pos n)
unfolding atoi
atoi-show n e = ground (arith, parse_signed-scan (show n) n (show-full n) (scan-show n))
