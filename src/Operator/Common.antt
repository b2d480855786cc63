-- ===== src/Operator/Common.antt =====
-- What the two reconcilers share: their results, and finalizers.
pub mod Finalizers
use open_cas_csi.Prelude.{
  String, Option, none, some, Bool, true, false, List, [], ◌∷◌, ◌++◌, ◌==◌, if◌then◌else◌,
}

-- `ctrl.Result`: nothing, `Requeue: true`, or `RequeueAfter` ten seconds or one minute
pub data Requeue : Type 0 where
  no_requeue requeue default_requeue_after long_requeue_after : Requeue

pub record Result : Type 0 where
  pub requeue : Requeue
  pub with_error : Bool

abbrev pub done : Result
done = record { requeue = no_requeue; with_error = false }

abbrev pub failed_with : Requeue → Result
failed_with r = record { requeue = r; with_error = true }

abbrev pub again : Requeue → Result
again r = record { requeue = r; with_error = false }

-- pkg/csi-operator/internal/helpers/helpers.go: `Finalizer`
abbrev pub finalizer : String
finalizer = "csi.open-cas.com/operator"

unfoldable pub has_finalizer : List String → Bool
has_finalizer [] = false
has_finalizer (f ∷ fs) = if f == finalizer then true else has_finalizer fs

-- `controllerutil.AddFinalizer` and `RemoveFinalizer` report a change by `has_finalizer` before it.
unfoldable pub add_finalizer_to : List String → List String
unfolding has_finalizer
add_finalizer_to fs = if has_finalizer fs then fs else fs ++ (finalizer ∷ [])

unfoldable pub remove_finalizer_from : List String → List String
remove_finalizer_from [] = []
remove_finalizer_from (f ∷ fs) =
    let rest = remove_finalizer_from fs in if f == finalizer then rest else f ∷ rest

-- A patch that is accepted leaves in the object what the server answers, deletion and settings included;
-- a refused one leaves what was sent.
abbrev pub after_patch : {A : Type 0} → (sent : A) → A × Option String → A
after_patch sent (answered, none) = answered
after_patch sent (answered, some _) = sent
