-- ===== src/OpenCas/JobName/Length.antt =====
-- How long the names of command Jobs are: pkg/opencas/api.go, `getJobName`.
use Prim.Native.Char.{Char}
use open_cas_csi.Prelude.{
  ℕ, zero, suc, ◌≤◌, String, List, [], ◌∷◌, ◌++◌, ltb, length, if◌then◌else◌, arith,
}
use open_cas_csi.Prelude.Dict.{Dict}
use open_cas_csi.OpenCas.Csv.{chars}
use open_cas_csi.OpenCas.JobName.{
  take, trim_right, job_name_chars, max_job_name_length, lower, before_dot, name_chars,
  replace_each,
}

length-take : (n : ℕ) (s : List Char) → length (take n s) ≤ n
length-take zero s = omega arith
length-take (suc n) [] = omega arith
length-take (suc n) (c ∷ s) = let rest = length-take n s in omega arith

length-cons_unless_cut :
    (c : Char) (s : List Char) → length (trim_right (c ∷ s)) ≤ suc (length (trim_right s))
unfolding trim_right
length-cons_unless_cut c s = ground arith

length-trim_right : (s : List Char) → length (trim_right s) ≤ length s
unfolding trim_right
length-trim_right [] = ground arith
length-trim_right (c ∷ s) =
    let rest = length-trim_right s in let here = length-cons_unless_cut c s in omega arith

length-shortened :
    (n : ℕ) (s : List Char) → length (if ltb n (length s) then trim_right (take n s) else s) ≤ n
length-shortened n s = ground (arith, length-trim_right (take n s), length-take n s)

-- Whatever the node, the command and the order in which the replacements are made, the name of a
-- command Job has at most 63 characters.
pub length-job_name_chars :
    (order : Dict String) (node_id cmd : String) → length (job_name_chars order node_id cmd) ≤ 63
unfolding job_name_chars
length-job_name_chars order node_id cmd =
    length-shortened max_job_name_length
      (lower (before_dot (chars node_id) ++ name_chars (replace_each order (chars cmd))))
