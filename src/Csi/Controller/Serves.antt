-- ===== src/Csi/Controller/Serves.antt =====
-- Runs of requests that all succeed: `CreateVolume` and `DeleteVolume` of pkg/csi-driver/controller.go at an API
-- server that accepts what it is sent.
use open_cas_csi.Prelude.{◌≡◌, refl, String, Bool, false, some, List, [], ◌∷◌, ◌==◌, All}
use open_cas_csi.World.{World, History}
use open_cas_csi.Effect.{ok, pure}
use open_cas_csi.Success.{ok-bind}
use open_cas_csi.Csi.Controller.{backend_storage_class, create_volume, delete_volume, volume_of}
use open_cas_csi.Csi.Controller.Provision.{IsAcceptable}
use open_cas_csi.Csi.Controller.Store.{present, IsServer}
use open_cas_csi.Csi.Controller.Succeeds.{Accepts, create_volume-ok, delete_volume-ok}
use open_cas_csi.Csi.Controller.Refines.{Request, create, delete, run, replay, run-replay}

-- A creation is acceptable and names the storage class, in whichever order its parameters are read; a deletion names a volume.
abbrev pub IsServable : World → (class : String) → Request → Type 0
IsServable w class (create req) =
    IsAcceptable req
    × ((h : History) → backend_storage_class (w.range h req.parameters) "" ≡ some class)
IsServable w class (delete id) = (id == "") ≡ false

run-ok :
    (w : World) (class : String)
    → Accepts w class
    → (class == "") ≡ false
    → (requests : List Request) (h : History) → All (IsServable w class) requests
    → (run requests w h).0 ≡ ok tt
unfolding pure
run-ok w class accepts full [] h fine = refl
run-ok w class accepts full (create req ∷ more) h (fine, later) =
    ok-bind (create_volume req) (λ _. run more) w h (volume_of req) tt
      (create_volume-ok w class accepts req h fine.0 (fine.1 h) full)
      (run-ok w class accepts full more _ later)
run-ok w class accepts full (delete id ∷ more) h (fine, later) =
    ok-bind (delete_volume id) (λ _. run more) w h tt tt
      (delete_volume-ok w class accepts id h fine) (run-ok w class accepts full more _ later)

-- Any run of creations that are acceptable and deletions that name a volume succeeds as a whole, and
-- leaves exactly the PVCs that the same requests leave of a set of names, if the API server answers by the
-- PVCs that it has, has the storage class, accepts the creation of a PVC just found missing and the update and
-- the deletion of one just found there, and nobody else creates or deletes PVCs.
pub run-serves :
    (initial : String → Bool) (w : World) (class : String)
    → IsServer initial w
    → Accepts w class
    → (class == "") ≡ false
    → (requests : List Request) (h : History) → All (IsServable w class) requests
    → (name : String)
    → ((run requests w h).0 ≡ ok tt)
      × (present initial w name (run requests w h).1
          ≡ replay requests (λ n. present initial w n h) name)
run-serves initial w class server accepts full requests h fine name =
    let succeeded = run-ok w class accepts full requests h fine in
    (succeeded, run-replay initial w server requests h succeeded name)
