-- ===== src/Operator/Trigger.antt =====
-- pkg/csi-operator/internal/controller/cache_controller.go: `SetupWithManager`, which node events
-- start a reconciliation of which caches.
pub mod Ready
use open_cas_csi.Prelude.{
  String, Bool, false, Option, none, some, List, [], ◌∷◌, ◌==◌, not, ◌&&◌, if◌then◌else◌,
}
use open_cas_csi.World.{CacheDef}

pub record Condition : Type 0 where
  pub type : String
  pub status : String

-- The inner loop: the first condition `Ready` of the old node decides.
unfoldable pub compare_ready : (new_status : String) → List Condition → Option Bool
compare_ready new_status [] = none
compare_ready new_status (old ∷ olds) =
    if old.type == "Ready"
    then some (not (old.status == new_status) && new_status == "True")
    else compare_ready new_status olds

-- `UpdateFunc`
unfoldable pub update_func : (new old : List Condition) → Bool
unfolding compare_ready
update_func [] olds = false
update_func (new ∷ news) olds =
    let rest = update_func news olds in
    if new.type == "Ready"
    then elim (compare_ready new.status olds) [ none ↦ rest | some b ↦ b ]
    else rest

-- The requests of `EnqueueRequestsFromMapFunc`, by name.
unfoldable pub requests_for : (node_name : String) → List CacheDef → List String
requests_for node_name [] = []
requests_for node_name (c ∷ cs) =
    let rest = requests_for node_name cs in if c.name == node_name then c.name ∷ rest else rest
