-- ===== src/OpenCas/JobName/Alphabet.antt =====
-- The characters of the names of command Jobs: `getJobName` of pkg/opencas/api.go.
use open_cas_csi.Prelude.{
  ◌≡◌, refl, ℕ, zero, suc, ◌-◌, ◌≤◌, String, Bool, true, false, List, [], ◌∷◌, ◌++◌, ◌&&◌, inl, inr,
  ◌||◌, eqb, ltb, leb, if◌then◌else◌, arith, length, All, All-append, Bool-cases,
}
use Prim.Native.Char.{Char, code}
use open_cas_csi.OpenCas.Csv.{chars}
use open_cas_csi.Prelude.Dict.{Dict}
use open_cas_csi.OpenCas.JobName.{
  small_letters, nth, to_lower, lower, replace_each, before_dot, is_name_char, name_chars, take,
  is_cut, cons_unless_cut, trim_right, max_job_name_length, job_name_chars,
}
use open_cas_csi.OpenCas.JobName.Length.{length-job_name_chars}

-- A character that the name of a Job may have: a small letter, a digit, "-" or ".".
abbrev pub is_label_char : ℕ → Bool
is_label_char n = eqb n 45 || (eqb n 46 || (leb 97 n && leb n 122 || leb 48 n && leb n 57))

abbrev pub HasNameChar : Char → Type 0
HasNameChar c = is_name_char (code c) ≡ true

abbrev pub IsNamed : List Char → Type 0
IsNamed = All HasNameChar

abbrev pub IsLabel : List Char → Type 0
IsLabel = All (λ c. is_label_char (code c) ≡ true)

nth-IsLabel :
    (c : Char) (n : ℕ) (s : List Char)
    → suc n ≤ length s
    → IsLabel s
    → is_label_char (code (nth c n s)) ≡ true
nth-IsLabel c n [] bound all = ground arith
nth-IsLabel c zero (d ∷ s) bound all = all.0
nth-IsLabel c (suc n) (d ∷ s) bound all = nth-IsLabel c n s (omega arith) all.1

unfoldable are_label_chars : List Char → Bool
are_label_chars [] = true
are_label_chars (c ∷ s) = is_label_char (code c) && are_label_chars s

are_label_chars-IsLabel : (s : List Char) → are_label_chars s ≡ true → IsLabel s
unfolding are_label_chars
are_label_chars-IsLabel [] e = tt
are_label_chars-IsLabel (c ∷ s) e = (ground arith, are_label_chars-IsLabel s (ground arith))

small_letters-IsLabel : IsLabel small_letters
unfolding are_label_chars
small_letters-IsLabel = are_label_chars-IsLabel small_letters refl

to_lower-IsLabel :
    (c : Char) → is_name_char (code c) ≡ true → is_label_char (code (to_lower c)) ≡ true
unfolding to_lower
to_lower-IsLabel c e = elim (Bool-cases (leb 65 (code c) && leb (code c) 90)) [
  | inl capital ↦
      rw capital (nth-IsLabel c (code c - 65) small_letters (ground arith) small_letters-IsLabel)
  | inr other ↦ rw other (ground arith)
]

lower-IsLabel : (s : List Char) → IsNamed s → IsLabel (lower s)
unfolding lower
lower-IsLabel [] all = tt
lower-IsLabel (c ∷ s) all = (to_lower-IsLabel c all.0, lower-IsLabel s all.1)

name_chars-IsNamed : (s : List Char) → IsNamed (name_chars s)
unfolding name_chars
name_chars-IsNamed [] = tt
name_chars-IsNamed (c ∷ s) =
    let rest = name_chars-IsNamed s in
    elim (Bool-cases (is_name_char (code c))) [ inl e ↦ rw e (e, rest) | inr e ↦ rw e rest ]

before_dot-IsNamed : (s : List Char) → IsNamed s → IsNamed (before_dot s)
unfolding before_dot
before_dot-IsNamed [] all = tt
before_dot-IsNamed (c ∷ s) all =
    let rest = before_dot-IsNamed s all.1 in
    elim (Bool-cases (eqb (code c) 46)) [ inl e ↦ rw e tt | inr e ↦ rw e (all.0, rest) ]

take-IsLabel : (n : ℕ) (s : List Char) → IsLabel s → IsLabel (take n s)
take-IsLabel zero s all = tt
take-IsLabel (suc n) [] all = tt
take-IsLabel (suc n) (c ∷ s) all = (all.0, take-IsLabel n s all.1)

cons_unless_cut-IsLabel :
    (c : Char) (s : List Char)
    → is_label_char (code c) ≡ true
    → IsLabel s
    → IsLabel (cons_unless_cut c s)
cons_unless_cut-IsLabel c [] e all = elim (Bool-cases (is_cut (code c))) [
  | inl cut ↦ rw cut tt
  | inr keep ↦ rw keep (e, tt)
]
cons_unless_cut-IsLabel c (d ∷ s) e all = (e, all)

trim_right-IsLabel : (s : List Char) → IsLabel s → IsLabel (trim_right s)
unfolding trim_right
trim_right-IsLabel [] all = tt
trim_right-IsLabel (c ∷ s) all =
    cons_unless_cut-IsLabel c (trim_right s) all.0 (trim_right-IsLabel s all.1)

shortened-IsLabel :
    (long : Bool) (s : List Char)
    → IsLabel s
    → IsLabel (if long then trim_right (take max_job_name_length s) else s)
shortened-IsLabel true s all =
    trim_right-IsLabel (take max_job_name_length s) (take-IsLabel max_job_name_length s all)
shortened-IsLabel false s all = all

-- If the node's name has only letters, digits, "-" and ".", the name of a command Job has at most 63
-- characters, each of them a small letter, a digit, "-" or ".".
pub job_name_chars-IsLabel :
    (order : Dict String) (node_id cmd : String)
    → IsNamed (chars node_id)
    → length (job_name_chars order node_id cmd) ≤ 63 × IsLabel (job_name_chars order node_id cmd)
unfolding job_name_chars
job_name_chars-IsLabel order node_id cmd named =
    let output = before_dot (chars node_id) ++ name_chars (replace_each order (chars cmd)) in
    (
      length-job_name_chars order node_id cmd,
      shortened-IsLabel (ltb max_job_name_length (length (lower output))) (lower output) (
          lower-IsLabel output (
            All-append HasNameChar (before_dot (chars node_id))
              (name_chars (replace_each order (chars cmd)))
              (before_dot-IsNamed (chars node_id) named)
              (name_chars-IsNamed (replace_each order (chars cmd))))),
    )
