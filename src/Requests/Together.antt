-- ===== src/Requests/Together.antt =====
-- What the requests do when they run at the same time.
use open_cas_csi.Prelude.{
  ◌≡◌, refl, ◌∙◌, ap, ℕ, ◌≤◌, String, Option, [], ◌∷◌, List, ◌++◌, append-nil, none, some,
  get_elem?, length, zero, suc, arith,
}
use mathlib.Core.Path.{subst⁻¹}
use native.Mathlib.Nat.{le_refl}
use open_cas_csi.World.{World, History, Call}
use open_cas_csi.Locks.{Idle, held, GuardedBy}
use open_cas_csi.Interleaving.{onto, in_order, System, started, Reach, here}
use open_cas_csi.Interleaving.Turns.{TakesTurns, Inv, Reach-Inv, started-Inv}
use open_cas_csi.Interleaving.Progress.{finish, pending, Finished, Reach-done}
use open_cas_csi.Csi.Locking.Controller.{
  create_volume-Keeps, delete_volume-Keeps, controller_publish_volume-Keeps,
  controller_unpublish_volume-Keeps,
}
use open_cas_csi.Csi.Locking.Node.{
  node_stage_volume-Keeps, node_unstage_volume-Keeps, node_publish_volume-Keeps,
  node_unpublish_volume-Keeps,
}
use open_cas_csi.Operator.Locking.{reconcile_cache-Keeps, reconcile_driver-Keeps}
use open_cas_csi.Requests.{
  Request, create, delete, publish, unpublish, stage, unstage, node_publish, node_unpublish,
  reconcile_cache, reconcile_driver, Mutex, mutex, key, calls,
}

-- Every request locks its own key alone, does all else while it holds it, and ends without a lock.
calls-Idle : (r : Request) (w : World) → Idle (key r) w (calls r w)
calls-Idle (create req) w = (create_volume-Keeps req).at w [] (refl, tt)
calls-Idle (delete id) w = (delete_volume-Keeps id).at w [] (refl, tt)
calls-Idle (publish id node_id capability) w =
    (controller_publish_volume-Keeps id node_id capability).at w [] (refl, tt)
calls-Idle (unpublish id node_id) w =
    (controller_unpublish_volume-Keeps id node_id).at w [] (refl, tt)
calls-Idle (stage node_id req) w = (node_stage_volume-Keeps node_id req).at w [] (refl, tt)
calls-Idle (unstage node_id id target) w =
    (node_unstage_volume-Keeps node_id id target).at w [] (refl, tt)
calls-Idle (node_publish node_id req) w = (node_publish_volume-Keeps node_id req).at w [] (refl, tt)
calls-Idle (node_unpublish id target) w = (node_unpublish_volume-Keeps id target).at w [] (refl, tt)
calls-Idle (reconcile_cache name) w = (reconcile_cache-Keeps name).at w [] (refl, tt)
calls-Idle (reconcile_driver name) w = (reconcile_driver-Keeps name).at w [] (refl, tt)

onto-onto : (cs ds : List Call) (h : History) → onto (onto cs ds) h ≡ onto ds (cs ++ h)
onto-onto [] ds h = refl
onto-onto (c ∷ cs) ds h = onto-onto cs (c ∷ ds) h

in_order-in_order : (h : History) → in_order (in_order h) ≡ h
in_order-in_order h = onto-onto h [] [] ∙ append-nil h

-- Requests that run together, each in a world of its own, known by their places in the list.
abbrev pub Requests : Type 0
Requests = List (Request × World)

abbrev calls_of : Option (Request × World) → List Call
calls_of none = []
calls_of (some (r, w)) = in_order (calls r w)

abbrev key_of : Option (Request × World) → String
key_of none = ""
key_of (some (r, w)) = key r

abbrev lock_by : (Mutex → String → ℕ) → Option (Request × World) → String → ℕ
lock_by lock_of none k = 0
lock_by lock_of (some (r, w)) k = lock_of (mutex r) k

abbrev pub keys : Requests → ℕ → String
keys rs i = key_of (get_elem? rs i)

-- The lock that a request means by a key, where `lock_of` is the hash of each mutex.
abbrev pub slots : (Mutex → String → ℕ) → Requests → ℕ → String → ℕ
slots lock_of rs i = lock_by lock_of (get_elem? rs i)

abbrev pub together : Requests → System
together rs = started (λ i. calls_of (get_elem? rs i))

calls_of-Idle :
    (o : Option (Request × World))
    → (held (onto (calls_of o) []) ≡ none) × GuardedBy (key_of o) (onto (calls_of o) [])
calls_of-Idle none = (refl, tt)
calls_of-Idle (some (r, w)) =
    subst⁻¹ (λ h. Idle (key r) w h) {y = calls r w} (in_order-in_order (calls r w)) (calls-Idle r w)

together-Inv :
    (lock_of : Mutex → String → ℕ) (rs : Requests) → Inv (slots lock_of rs) (keys rs) (together rs)
together-Inv lock_of rs =
    started-Inv (slots lock_of rs) (keys rs) (λ i. calls_of (get_elem? rs i))
      (λ i. calls_of-Idle (get_elem? rs i))

get_elem?-length : (rs : Requests) (i : ℕ) → length rs ≤ i → get_elem? rs i ≡ none
get_elem?-length [] i le = refl
get_elem?-length (r ∷ rs) zero le = absurd (omega arith)
get_elem?-length (r ∷ rs) (suc i) le = get_elem?-length rs i (omega arith)

-- When requests to the driver and to the operator run at the same time, with their calls interleaved
-- in any order that the mutexes allow, those whose keys have the same lock take turns: each call is
-- made by the one of them that has locked and not unlocked since, or it locks, for a request, its
-- own key while none of them has. This holds whatever each request is answered and whatever locks
-- the keys hash to.
pub together-TakesTurns :
    (lock_of : Mutex → String → ℕ) (rs : Requests) (s : System)
    → Reach (slots lock_of rs) (together rs) s
    → TakesTurns (slots lock_of rs) (keys rs) s.log
together-TakesTurns lock_of rs s r = (Reach-Inv _ _ (together-Inv lock_of rs) r).turns

-- However far requests that run at the same time have come, they can go on until all have made all
-- their calls, so that they never block one another for good, whatever locks the keys hash to.
pub together-finish :
    (lock_of : Mutex → String → ℕ) (rs : Requests) (s : System)
    → Reach (slots lock_of rs) (together rs) s
    → (t : System) × Reach (slots lock_of rs) s t × Finished t
together-finish lock_of rs s r =
    finish (slots lock_of rs) (keys rs) (length rs) (pending (length rs) s.todo) (le_refl _)
      (λ i le. Reach-done (slots lock_of rs) r i (ap calls_of (get_elem?-length rs i le)))
      (Reach-Inv _ _ (together-Inv lock_of rs) r) here
