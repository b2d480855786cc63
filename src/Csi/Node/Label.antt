-- ===== src/Csi/Node/Label.antt =====
-- The label by which the operator tells the driver which cache to use: `SetOperatingCacheLabel` of
-- pkg/csi-operator/internal/controller/cache_controller.go, read in `NodeStageVolume` of
-- pkg/csi-driver/node.go.
use open_cas_csi.Prelude.{
  ◌≡◌, refl, ◌⊎◌, inl, inr, ℕ, ◌≤◌, String, Bool, true, false, Option, none, some, List, [], ◌∷◌,
  ◌==◌, arith, eq_iff, Bool-cases, Option-cases, if◌then◌else◌, ◌∙◌,
}
use open_cas_csi.Prelude.Int.{ℤ, pos, eq_int, eq_int_iff}
use open_cas_csi.Prelude.Dict.{Dict, insert, lookup-insert_self}
use open_cas_csi.Prelude.Text.{show, show_int, max_int}
use open_cas_csi.Prelude.Decimal.{atoi-show, show-full}
use open_cas_csi.World
use open_cas_csi.World.{World, History, Call}
use open_cas_csi.Effect.{ok, ◌>>=◌}
use open_cas_csi.OpenCas.CacheList.{Cache}
use open_cas_csi.Csi.Types.{invalid_argument}
use open_cas_csi.Operator.Cache.{set_operating_cache_label}
use open_cas_csi.Csi.Node.Stage.{
  operating_cache_label_key, last_with_id, labelled_cache, or_fail_none, choose_cache,
}
use open_cas_csi.Csi.Node.Publish.Flags.{Any}

abbrev HasId : ℤ → Option Cache → Type 0
HasId id none = ⊥
HasId id (some c) = c.cache_id ≡ id

if-HasId :
    (id : ℤ) (c : Cache) (found : Option Cache) (b : Bool)
    → eq_int c.cache_id id ≡ b
    → (c.cache_id ≡ id) ⊎ HasId id found
    → HasId id (if b then some c else found)
if-HasId id c found true e there = (eq_int_iff c.cache_id id).0 e
if-HasId id c found false e (inl here) = ground (arith, (eq_int_iff c.cache_id id).1 here)
if-HasId id c found false e (inr there) = there

last_with_id-HasId :
    (id : ℤ) (cs : List Cache) (found : Option Cache)
    → Any (λ c. c.cache_id ≡ id) cs ⊎ HasId id found
    → HasId id (last_with_id id cs found)
unfolding last_with_id
last_with_id-HasId id [] found (inl x) = elim x [ ]
last_with_id-HasId id [] found (inr there) = there
last_with_id-HasId id (c ∷ cs) found (inl (inl here)) =
    last_with_id-HasId id cs _ (inr (if-HasId id c found _ refl (inl here)))
last_with_id-HasId id (c ∷ cs) found (inl (inr later)) = last_with_id-HasId id cs _ (inl later)
last_with_id-HasId id (c ∷ cs) found (inr there) =
    last_with_id-HasId id cs _ (inr (if-HasId id c found _ refl (inr there)))

labels_lem :
    (n : World.Node) (text : String) (w : World) (h : History) (after before sent : World.Node)
    → (set_operating_cache_label n text w h).0 ≡ ok after
    → (set_operating_cache_label n text w h).1 ≡ Call.patch_node before sent ∷ h
    → (labels : Dict String) × (sent.labels ≡ some (insert operating_cache_label_key text labels))
unfolding set_operating_cache_label ◌>>=◌
labels_lem n text w h after before sent e calls = elim (Option-cases n.labels) [
  | inl missing ↦ ground arith
  | inr (labels, there) ↦ (labels, ground arith)
]

show-named : (n : ℕ) → (show n == "") ≡ false
show-named n = elim (Bool-cases (show n == "")) [
  | inl empty ↦ absurd (show-full n ((eq_iff _ _).0 empty))
  | inr named ↦ named
]

chosen_lem :
    (o : Option Cache) (w : World) (h : History) (id : ℤ)
    → HasId id o
    → (c : Cache) × ((or_fail_none o invalid_argument w h).0 ≡ ok c) × (c.cache_id ≡ id)
unfolding or_fail_none ◌>>=◌
chosen_lem none w h id e = elim e [ ]
chosen_lem (some c) w h id e = (c, refl, e)

-- When the operator has set the label of a node to the id of a cache, the driver that reads the labels
-- of the node as the operator sent them chooses a cache with this id, if there is one. The id is not negative and fits into an `int`.
pub set_operating_cache_label-choose_cache :
    (node after before sent : World.Node) (n : ℕ) (w₀ w : World) (h₀ h : History) (node_id : String)
    (first : Cache) (others : List Cache)
    → n ≤ max_int
    → (set_operating_cache_label node (show_int (pos n)) w₀ h₀).0 ≡ ok after
    → (set_operating_cache_label node (show_int (pos n)) w₀ h₀).1 ≡ Call.patch_node before sent ∷ h₀
    → w.answer h (Call.get_node node_id) ≡ sent.labels
    → Any (λ c. c.cache_id ≡ pos n) (first ∷ others)
    → (c : Cache) × ((choose_cache node_id (first ∷ others) w h).0 ≡ ok c) × (c.cache_id ≡ pos n)
unfolding choose_cache labelled_cache show_int ◌>>=◌
set_operating_cache_label-choose_cache node after before sent n w₀ w h₀ h node_id first others small
      set calls read there =
    let labelled = labels_lem node (show n) w₀ h₀ after before sent set calls in
    let chosen =
      chosen_lem _ w (Call.get_node node_id ∷ h) (pos n)
        (last_with_id-HasId (pos n) (first ∷ others) none (inl there)) in
    (
      chosen.0,
      rw
          (
            read ∙ labelled.1,
            lookup-insert_self operating_cache_label_key (show n) labelled.0,
            show-named n,
            atoi-show n small,
          )
          chosen.1,
      chosen.2,
    )
