-- ===== src/Csi/Node/Publish/Flags.antt =====
-- `findMountFlags` of pkg/csi-driver/node.go, and the flags of a publication.
use open_cas_csi.Prelude.{◌≡◌, ◌↔◌, String, true, List, [], ◌∷◌, ◌⊎◌, All, arith}
use open_cas_csi.Csi.Node.Publish.{same_flag, has_flag, find_mount_flags}

-- Some element satisfies `P`.
abbrev pub Any : {A : Type 0} → (A → Type 0) → List A → Type 0
Any P [] = ⊥
Any P (x ∷ xs) = P x ⊎ Any P xs

has_flag-Any :
    (f : String) (opts : List String)
    → (has_flag f opts ≡ true) ↔ Any (λ g. same_flag f g ≡ true) opts
unfolding has_flag
has_flag-Any f [] = ((λ e. cc), elim [ ])
has_flag-Any f (g ∷ opts) = let rest = has_flag-Any f opts in ground arith

-- The flags that are asked for are found exactly if each of them has an option that is the same, or
-- that is `dax` where it is `dax=always` and the other way round.
pub find_mount_flags-All :
    (flags opts : List String)
    → (find_mount_flags flags opts ≡ true) ↔ All (λ f. Any (λ g. same_flag f g ≡ true) opts) flags
unfolding find_mount_flags
find_mount_flags-All [] opts = ground arith
find_mount_flags-All (f ∷ flags) opts =
    let rest = find_mount_flags-All flags opts in let here = has_flag-Any f opts in ground arith
