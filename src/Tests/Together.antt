-- ===== src/Tests/Together.antt =====
-- Two requests for one volume that run at the same time.
use open_cas_csi.Prelude.{refl, ℕ, String, [], ◌∷◌}
use open_cas_csi.World.{Call}
use open_cas_csi.Effect.{◌>>=◌}
use open_cas_csi.Csi.Types.{require_text}
use open_cas_csi.Csi.Node.Unstage.{node_unpublish_volume, remove_target}
use open_cas_csi.Interleaving.{System, Reach, here, next, lock, other}
use open_cas_csi.Interleaving.Turns.{TakesTurns}
use open_cas_csi.Interleaving.Progress.{Finished}
use open_cas_csi.Requests.{node_unpublish, Mutex}
use open_cas_csi.Requests.Together.{
  Requests, together, slots, keys, together-TakesTurns, together-finish,
}
use open_cas_csi.Tests.Worlds.{world}

abbrev twice : Requests
twice = (node_unpublish "vol" "/target", world) ∷ (node_unpublish "vol" "/other", world) ∷ []

-- Every key has the same lock.
abbrev one_lock : Mutex → String → ℕ
one_lock m k = 0

-- The second request has its lock and made one call; the first one waits.
abbrev Begun : Type 0
Begun = (s : System) × Reach (slots one_lock twice) (together twice) s

begun : Begun
unfolding node_unpublish_volume remove_target require_text ◌>>=◌
begun = (
  _,
  next (next here (lock 1 "vol" _ refl refl))
      (other 1 (Call.is_likely_not_mount_point "/other") _ refl refl),
)

together-TakesTurns_example : TakesTurns (slots one_lock twice) (keys twice) (begun.0).log
together-TakesTurns_example = together-TakesTurns one_lock twice begun.0 begun.1

together-finish_example : (t : System) × Reach (slots one_lock twice) begun.0 t × Finished t
together-finish_example = together-finish one_lock twice begun.0 begun.1
