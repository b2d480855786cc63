-- ===== src/Operator/Common/Finalizers.antt =====
-- Adding and removing the operator's finalizer.
use open_cas_csi.Prelude.{◌≡◌, refl, true, false, String, List, [], ◌∷◌, ◌++◌, arith}
use open_cas_csi.Operator.Common.{finalizer, has_finalizer, add_finalizer_to, remove_finalizer_from}

has_finalizer-append : (fs : List String) → has_finalizer (fs ++ (finalizer ∷ [])) ≡ true
unfolding has_finalizer
has_finalizer-append [] = refl
has_finalizer-append (f ∷ fs) = grind (arith, has_finalizer-append fs)

pub has_finalizer-add_finalizer_to : (fs : List String) → has_finalizer (add_finalizer_to fs) ≡ true
unfolding add_finalizer_to
has_finalizer-add_finalizer_to fs = grind (arith, has_finalizer-append fs)

pub has_finalizer-remove_finalizer_from :
    (fs : List String) → has_finalizer (remove_finalizer_from fs) ≡ false
unfolding has_finalizer remove_finalizer_from
has_finalizer-remove_finalizer_from [] = refl
has_finalizer-remove_finalizer_from (f ∷ fs) = grind (arith, has_finalizer-remove_finalizer_from fs)
