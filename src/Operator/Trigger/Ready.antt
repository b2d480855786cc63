-- ===== src/Operator/Trigger/Ready.antt =====
-- Which node events start a reconciliation: `SetupWithManager` of
-- pkg/csi-operator/internal/controller/cache_controller.go.
use open_cas_csi.Prelude.{
  ◌≡◌, refl, sym, ◌∙◌, String, Bool, false, Option, none, some, List, [], ◌∷◌, ◌==◌, ◌&&◌, not,
  if◌then◌else◌, arith,
}
use open_cas_csi.Operator.Trigger.{Condition, compare_ready, update_func}

abbrev pub is_ready : Condition → Bool
is_ready c = c.type == "Ready"

-- The status of the first condition `Ready`.
abbrev pub ready_status : List Condition → Option String
ready_status [] = none
ready_status (c ∷ cs) = if is_ready c then some c.status else ready_status cs

-- Both nodes have the condition, it is true now, and it was not before.
abbrev pub became_ready : (new old : Option String) → Bool
became_ready none o = false
became_ready (some n) none = false
became_ready (some n) (some o) = not (o == n) && n == "True"

compare_ready-status :
    (n : String) (olds : List Condition) (s : Option String)
    → ready_status olds ≡ s
    → compare_ready n olds ≡ (elim s [ none ↦ none | some o ↦ some (not (o == n) && n == "True") ])
unfolding compare_ready
compare_ready-status n [] none e = refl
compare_ready-status n [] (some o) e = cc
compare_ready-status n (c ∷ olds) s e = ground (arith, compare_ready-status n olds s)

update_func-absent :
    (news olds : List Condition) → ready_status olds ≡ none → update_func news olds ≡ false
unfolding update_func
update_func-absent [] olds e = refl
update_func-absent (c ∷ news) olds e =
    ground (arith, compare_ready-status c.status olds none e, update_func-absent news olds e)

update_func-present :
    (news olds : List Condition) (o : String)
    → ready_status olds ≡ some o
    → update_func news olds ≡ became_ready (ready_status news) (some o)
unfolding update_func
update_func-present [] olds o e = refl
update_func-present (c ∷ news) olds o e =
    ground (arith, compare_ready-status c.status olds (some o) e, update_func-present news olds o e)

became_ready-none : (n : Option String) → became_ready n none ≡ false
became_ready-none none = refl
became_ready-none (some n) = refl

update_func-at :
    (news olds : List Condition) (o : Option String)
    → ready_status olds ≡ o
    → update_func news olds ≡ became_ready (ready_status news) o
update_func-at news olds none e =
    update_func-absent news olds e ∙ sym (became_ready-none (ready_status news))
update_func-at news olds (some o) e = update_func-present news olds o e

-- An update of a node starts a reconciliation exactly if the first condition `Ready` of the new node
-- is "True" and the first condition `Ready` of the old node is another text.
pub update_func-became_ready :
    (news olds : List Condition)
    → update_func news olds ≡ became_ready (ready_status news) (ready_status olds)
update_func-became_ready news olds = update_func-at news olds (ready_status olds) refl
