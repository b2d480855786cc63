-- ===== src/Prelude/Text.antt =====
-- Go's `strings` and `strconv` as the program uses them, over native texts.
use Prim.Native.Nat.{ℕ, zero, suc, ◌+◌, ◌-◌, ◌*◌, ◌/◌, ◌%◌, ◌^◌}
use Prim.Native.Char.{Char, code}
use Prim.Native.String.{String, ◌++◌}
use mathlib.Core.Bool.{Bool, ◌&&◌, ◌||◌}
use mathlib.Core.Option.{Option, none, some}
use mathlib.Core.List.{List, [], ◌∷◌}
use text.Mathlib.Text.{find?}
use open_cas_csi.Prelude.Tests.{leb, eqb, if◌then◌else◌, is_some}
use open_cas_csi.Prelude.Int.{ℤ, pos, negsuc}

-- `strings.Contains`
abbrev pub contains : String → String → Bool
contains s t = is_some (find? s t)

abbrev pub codes : String → List ℕ
codes String.[] = []
codes (String.◌∷◌ c s) = code c ∷ codes s

-- `strings.Join(parts, " ")`
unfoldable pub join : List String → String
join [] = ""
join (x ∷ []) = x
join (x ∷ y ∷ ys) = x ++ " " ++ join (y ∷ ys)

-- `strings.Split(s, " ")`: the field so far is `x` at the head of the answer.
unfoldable pub push_char : Char → List String → List String
push_char c [] = String.◌∷◌ c "" ∷ []
push_char c (x ∷ xs) = String.◌∷◌ c x ∷ xs

unfoldable pub split : String → List String
unfolding push_char
split String.[] = "" ∷ []
split (String.◌∷◌ c s) =
    let rest = split s in if eqb (code c) 32 then "" ∷ rest else push_char c rest

abbrev pub digit : ℕ → String
digit zero = "0"
digit (suc zero) = "1"
digit (suc (suc zero)) = "2"
digit (suc (suc (suc zero))) = "3"
digit (suc (suc (suc (suc zero)))) = "4"
digit (suc (suc (suc (suc (suc zero))))) = "5"
digit (suc (suc (suc (suc (suc (suc zero)))))) = "6"
digit (suc (suc (suc (suc (suc (suc (suc zero))))))) = "7"
digit (suc (suc (suc (suc (suc (suc (suc (suc zero)))))))) = "8"
digit _ = "9"

-- Decimal digits; the fuel `n + 1` is more than the number of digits of `n`.
unfoldable pub show_fuel : ℕ → ℕ → String
show_fuel zero n = ""
show_fuel (suc f) n =
    let rest = show_fuel f (n / 10) in if leb n 9 then digit n else rest ++ digit (n % 10)

-- `fmt.Sprint` of a number
unfoldable pub show : ℕ → String
unfolding show_fuel
show n = show_fuel (suc n) n

unfoldable pub show_int : ℤ → String
unfolding show
show_int (pos n) = show n
show_int (negsuc n) = "-" ++ show (suc n)

-- Decimal digits, as `strconv` reads them; at least one.
unfoldable pub scan : ℕ → String → Option ℕ
scan acc String.[] = some acc
scan acc (String.◌∷◌ c s) =
    let rest = scan (acc * 10 + (code c - 48)) s in
    if leb 48 (code c) && leb (code c) 57 then rest else none

unfoldable pub parse_digits : String → Option ℕ
unfolding scan
parse_digits String.[] = none
parse_digits (String.◌∷◌ c s) = scan 0 (String.◌∷◌ c s)

abbrev negate : ℕ → ℤ
negate zero = pos 0
negate (suc n) = negsuc n

-- The sign of `strconv.ParseInt`, and the digits after it.
unfoldable pub parse_signed : String → Option ℤ
unfolding parse_digits
parse_signed String.[] = none
parse_signed (String.◌∷◌ c s) =
    if eqb (code c) 45
    then elim (parse_digits s) [ none ↦ none | some n ↦ some (negate n) ]
    else if eqb (code c) 43
    then elim (parse_digits s) [ none ↦ none | some n ↦ some (pos n) ]
    else elim (parse_digits (String.◌∷◌ c s)) [ none ↦ none | some n ↦ some (pos n) ]

abbrev pub max_int : ℕ
max_int = 2 ^ 63 - 1

abbrev pub in_range : ℤ → Bool
in_range (pos n) = leb n max_int
in_range (negsuc n) = leb n max_int

abbrev pub clamp : ℤ → ℤ
clamp (pos n) = if leb n max_int then pos n else pos max_int
clamp (negsuc n) = if leb n max_int then negsuc n else negsuc max_int

-- `strconv.Atoi` where its error is read.
unfoldable pub atoi : String → Option ℤ
unfolding parse_signed
atoi s = elim (parse_signed s) [ none ↦ none | some v ↦ if in_range v then some v else none ]

-- `n, _ := strconv.Atoi(s)`: 0 for what is no number, the nearest `int` where it is out of range.
unfoldable pub atoi_value : String → ℤ
unfolding parse_signed
atoi_value s = elim (parse_signed s) [ none ↦ pos 0 | some v ↦ clamp v ]

-- `strconv.ParseUint(s, 10, 8)`
unfoldable pub parse_uint8 : String → Option ℕ
unfolding parse_digits
parse_uint8 s = elim (parse_digits s) [ none ↦ none | some n ↦ if leb n 255 then some n else none ]

-- `strings.SplitN(s, "\n", 2)[0]`
unfoldable pub first_line : String → String
first_line String.[] = ""
first_line (String.◌∷◌ c s) =
    let rest = first_line s in if eqb (code c) 10 then "" else String.◌∷◌ c rest

-- `unicode.IsSpace`
unfoldable pub is_space : ℕ → Bool
is_space n =
    leb 9 n && leb n 13
    || (eqb n 32
        || (eqb n 0x85
            || (eqb n 0xa0
                || (eqb n 0x1680
                    || (leb 0x2000 n && leb n 0x200a
                        || (eqb n 0x2028
                            || (eqb n 0x2029
                                || (eqb n 0x202f || (eqb n 0x205f || eqb n 0x3000)))))))))

unfoldable pub trim_left : String → String
unfolding is_space
trim_left String.[] = ""
trim_left (String.◌∷◌ c s) =
    let rest = trim_left s in if is_space (code c) then rest else String.◌∷◌ c s

abbrev cons_unless_space : Char → String → String
cons_unless_space c String.[] = if is_space (code c) then "" else String.◌∷◌ c ""
cons_unless_space c (String.◌∷◌ d s) = String.◌∷◌ c (String.◌∷◌ d s)

unfoldable pub trim_right : String → String
unfolding is_space
trim_right String.[] = ""
trim_right (String.◌∷◌ c s) = cons_unless_space c (trim_right s)

-- `strings.TrimSpace`
unfoldable pub trim_space : String → String
unfolding trim_left trim_right
trim_space s = trim_right (trim_left s)
