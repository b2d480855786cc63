-- ===== src/Operator/Cache.antt =====
-- pkg/csi-operator/internal/controller/cache_controller.go: `CacheReconciler`.
pub mod Jobs
pub mod Planning
pub mod Release
pub mod Removal
pub mod Fitting
pub mod Running
pub mod Reached
pub mod Settled
pub mod Steady
pub mod Dismissed
pub mod Cleared
use open_cas_csi.Prelude.{
  ℕ, ◌%◌, String, Bool, true, false, Option, none, some, List, [], ◌∷◌, ◌++◌, ◌==◌, eqb, not, ◌&&◌,
  ◌||◌, if◌then◌else◌, is_empty,
}
use open_cas_csi.Prelude.Dict.{lookup, insert, erase}
use open_cas_csi.Prelude.Text.{show_int}
use open_cas_csi.World.{Call, CacheDef, Node, found, not_found, failed}
use open_cas_csi.Effect.{
  on_option, on_found, on_try, M, pure, fail, crash, call, ◌>>=◌, ◌>>◌, or_fail, return_error,
  attempt, ignoring, Try, value, error, locked, ask, returning,
}
use open_cas_csi.OpenCas.CacheList.{Cache}
use open_cas_csi.OpenCas.Manager.{
  OpenCas, new_open_cas_manager, get_cache_instances, get_cache_line_size, stop_cache, start_cache,
  set_cache_mode,
}
use open_cas_csi.Csi.Node.Stage.{operating_cache_label_key}
use open_cas_csi.Operator.Common.{
  no_requeue, requeue, default_requeue_after, long_requeue_after, Result, done, failed_with, again,
  has_finalizer, add_finalizer_to, remove_finalizer_from, after_patch,
}

abbrev pub with_finalizer : CacheDef → CacheDef
with_finalizer c = record c { finalizers = add_finalizer_to c.finalizers }

-- The error is only logged by the caller; what is left is the definition as it is then.
unfoldable pub add_finalizer : CacheDef → M Result CacheDef
add_finalizer c = if has_finalizer c.finalizers then pure c else do
  answered ← call (Call.patch_cache c (with_finalizer c))
  pure (after_patch (with_finalizer c) answered)

unfoldable pub remove_finalizer : CacheDef → M String Unit
remove_finalizer c =
    if has_finalizer c.finalizers
    then (do
      answered ←
          call (Call.patch_cache c (record c { finalizers = remove_finalizer_from c.finalizers }))
      return_error answered.1)
    else pure tt

-- Writing to a nil map panics. The callers do not read the error; what is left is the node as it is then.
unfoldable pub set_operating_cache_label : Node → (text : String) → M Result Node
set_operating_cache_label n text = on_option (n.labels) (crash) (λ labels.
    let n' = record n { labels = some (insert operating_cache_label_key text labels) } in
    call (Call.patch_node n n') >>= λ answered. pure (after_patch n' answered))

abbrev pub without_label : Node → Node
without_label n = elim (n.labels) [
  | none ↦ n
  | some labels ↦ record n { labels = some (erase operating_cache_label_key labels) }
]

unfoldable pub delete_operating_cache_label : Node → M String Unit
delete_operating_cache_label n = do
  answered ← call (Call.patch_node n (without_label n))
  return_error answered.1

-- `targetCls`, a `uint8`
abbrev pub target_cls : CacheDef → ℕ
target_cls c = if eqb c.cache_line_size 0 then 4 else c.cache_line_size % 256

-- What the loop over the instances decides.
pub record Plan : Type 0 where
  pub remove_instances : List Cache
  pub modify_instance : Option Cache

abbrev pub to_remove : Cache → Plan → Plan
to_remove c p = record p { remove_instances = p.remove_instances ++ (c ∷ []) }

-- Another device, or a definition that is being deleted: the instance goes. Otherwise it stays
-- exactly if its line size is the one asked for.
unfoldable pub plan_instance : OpenCas → CacheDef → Cache → Plan → M Result Plan
plan_instance cas def c p =
    if not (c.device_path == def.device_by_id) || def.deleted then pure (to_remove c p) else do
      cls ← or_fail (get_cache_line_size cas c) (failed_with requeue)
      pure (
          if eqb cls (target_cls def) then record p { modify_instance = some c } else to_remove c p)

unfoldable pub plan : OpenCas → CacheDef → List Cache → Plan → M Result Plan
plan cas def [] p = pure p
plan cas def (c ∷ cs) p = do p' ← plan_instance cas def c p; plan cas def cs p'

-- The node as it is locally, and `errorsRequiringRequeueOccurred`.
pub record Progress : Type 0 where
  pub node : Node
  pub errors : Bool

abbrev pub label_of : Node → Option String
label_of n = elim (n.labels) [ none ↦ none | some labels ↦ lookup operating_cache_label_key labels ]

abbrev names : Option String → Cache → Bool
names none c = false
names (some id) c = id == show_int c.cache_id

abbrev pub note : {E : Type 0} → Try E Unit → Progress → Progress
note (value _) s = s
note (error _) s = record s { errors = true }

-- If the node's label named the cache it becomes empty first.
unfoldable pub unset_label :
    CacheDef → (label : Option String) → Cache → Progress → M Result Progress
unset_label def label c s =
    if names label c && not def.deleted
    then (do node' ← set_operating_cache_label s.node ""; pure (record s { node = node' }))
    else pure s

-- A cache with volumes is left running.
unfoldable pub remove_instance :
    OpenCas → CacheDef → (label : Option String) → Cache → Progress → M Result Progress
remove_instance cas def label c s = do
  s' ← unset_label def label c s
  if is_empty c.volumes
      then (do stopped ← attempt (stop_cache cas c); pure (note stopped s'))
      else pure (if def.deleted then s' else record s' { errors = true })

unfoldable pub remove_all :
    OpenCas → CacheDef → (label : Option String) → List Cache → Progress → M Result Progress
remove_all cas def label [] s = pure s
remove_all cas def label (c ∷ cs) s = do
  s' ← remove_instance cas def label c s
  remove_all cas def label cs s'

abbrev pub target_mode : CacheDef → String
target_mode def = if def.cache_mode == "" then "wt" else def.cache_mode

-- A running instance only changes its mode; without one the cache is started, unless the
-- definition is being deleted.
unfoldable pub modify_or_start : OpenCas → CacheDef → Option Cache → Progress → M Result Progress
modify_or_start cas def (some c) s =
    if c.cache_mode == target_mode def
    then pure s
    else do changed ← attempt (set_cache_mode cas c (target_mode def)); pure (note changed s)
modify_or_start cas def none s = if def.deleted then pure s else do
  started ←
      or_fail (start_cache cas def.device_by_id def.cache_mode (def.cache_line_size % 256))
        (again default_requeue_after)
  node' ← set_operating_cache_label s.node (show_int started.cache_id)
  pure (record s { node = node' })

-- The definition is released only if it is being deleted and nothing went wrong.
unfoldable pub release : CacheDef → Progress → M Result Progress
release def s =
    if def.deleted && not s.errors
    then (do
      removed ← attempt (remove_finalizer def)
      on_try removed
          (λ _. do deleted ← attempt (delete_operating_cache_label s.node); pure (note deleted s))
          (λ _. pure (record s { errors = true })))
    else pure s

unfoldable pub set_up : OpenCas → CacheDef → Node → M Result Result
set_up cas def node = do
  instances ← or_fail (get_cache_instances cas) (failed_with requeue)
  p ← plan cas def instances (record { remove_instances = []; modify_instance = none })
  s ← remove_all cas def (label_of node) p.remove_instances (record { node = node; errors = false })
  s' ← modify_or_start cas def p.modify_instance s
  s'' ← release def s'
  pure (if s''.errors then again default_requeue_after else done)

unfoldable pub with_node : CacheDef → Node → M Result Result
with_node def node = do
  w ← ask
  def' ← if def.deleted then pure def else add_finalizer def
  if w.getenv "CASADM_IMAGE" == "" then fail (failed_with long_requeue_after) else do
    cas ←
        or_fail (new_open_cas_manager def'.name (w.getenv "OPERATOR_NAMESPACE"))
          (failed_with requeue)
    set_up cas def' node

unfoldable pub reconcile : (name : String) → M Result Result
reconcile name = locked name (
    returning (do
      read ← call (Call.read_cache name)
      on_found read
          (λ def. do
            node ← call (Call.read_node def.name)
            on_found node (λ n. with_node def n) (fail done) (λ _. fail (failed_with no_requeue)))
          (fail done) (λ _. fail (failed_with no_requeue))))
