-- ===== src/OpenCas/Csv.antt =====
-- Go's `encoding/csv` reader with its default settings, as `parseCacheList` and `parseStats` use it.
use Prim.Native.Char.{Char, code}
use text.Mathlib.TextBridge.{of_list}
use open_cas_csi.Prelude.{
  String, Bool, true, false, Option, none, some, List, [], ◌∷◌, eqb, if◌then◌else◌,
}
use mathlib.Core.List.{reverse}

-- What one `Read` before the end of the input returns: the fields read, and whether with an error.
pub record Row : Type 0 where
  pub fields : List String
  pub bad : Bool

-- `row_start` is before the first character of a line, `skip` the rest of a line with an error.
pub data Mode : Type 0 where
  row_start field_start unquoted quoted after_quote skip : Mode

-- The fields and the characters of the current field are kept in reverse.
pub record Reader : Type 0 where
  pub mode : Mode
  pub fields : List String
  pub chars : List Char

abbrev pub start : Reader
start = record { mode = row_start; fields = []; chars = [] }

abbrev close_field : Reader → List String
close_field r = of_list (reverse r.chars) ∷ r.fields

abbrev end_row : Reader → Reader × Option Row
end_row r = (start, some (record { fields = reverse (close_field r); bad = false }))

abbrev end_field : Reader → Reader × Option Row
end_field r = (record { mode = field_start; fields = close_field r; chars = [] }, none)

-- The field with the error is not part of the record.
abbrev bad_row : Reader → Reader × Option Row
bad_row r = (
  record { mode = skip; fields = []; chars = [] },
  some (record { fields = reverse r.fields; bad = true }),
)

abbrev keep : Mode → Char → Reader → Reader × Option Row
keep m c r = (record r { mode = m; chars = c ∷ r.chars }, none)

-- The tests of `readRecord` on the next character: comma 44, newline 10, quote 34.
unfoldable pub next : Mode → Char → Reader → Reader × Option Row
next row_start c r =
    if eqb (code c) 10
    then (r, none)
    else if eqb (code c) 44
    then end_field r
    else if eqb (code c) 34
    then (record r { mode = quoted }, none)
    else keep unquoted c r
next field_start c r =
    if eqb (code c) 10
    then end_row r
    else if eqb (code c) 44
    then end_field r
    else if eqb (code c) 34
    then (record r { mode = quoted }, none)
    else keep unquoted c r
next unquoted c r =
    if eqb (code c) 10
    then end_row r
    else if eqb (code c) 44
    then end_field r
    else if eqb (code c) 34
    then bad_row r
    else keep unquoted c r
next quoted c r =
    if eqb (code c) 34 then (record r { mode = after_quote }, none) else keep quoted c r
next after_quote c r =
    if eqb (code c) 34
    then keep quoted c r
    else if eqb (code c) 10
    then end_row r
    else if eqb (code c) 44
    then end_field r
    else bad_row r
next skip c r = if eqb (code c) 10 then (start, none) else (r, none)

unfoldable pub finish : Mode → Reader → List Row
finish row_start r = []
finish skip r = []
finish quoted r = record { fields = reverse r.fields; bad = true } ∷ []
finish _ r = record { fields = reverse (close_field r); bad = false } ∷ []

abbrev pub emit : Option Row → List Row → List Row
emit none rows = rows
emit (some row) rows = row ∷ rows

unfoldable pub run : Reader → List Char → List Row
unfolding next finish
run r [] = finish r.mode r
run r (c ∷ cs) = let (r', row) = next r.mode c r in emit row (run r' cs)

-- `readLine` turns a final "\r\n" or "\r" of a line into its end.
unfoldable pub drop_cr : List Char → List Char
drop_cr [] = []
drop_cr (c ∷ []) = if eqb (code c) 13 then [] else c ∷ []
drop_cr (c ∷ d ∷ cs) =
    let rest = drop_cr (d ∷ cs) in
    if eqb (code c) 13 then (if eqb (code d) 10 then rest else c ∷ rest) else c ∷ rest

abbrev pub chars : String → List Char
chars String.[] = []
chars (String.◌∷◌ c s) = c ∷ chars s

-- The rows that `Read` returns before `io.EOF`. A row whose number of fields differs from that of
-- the first is returned too, with an error.
unfoldable pub read_rows : String → List Row
unfolding run drop_cr
read_rows text = run start (drop_cr (chars text))
