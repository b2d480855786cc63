-- ===== src/Csi/Controller/Store.antt =====
-- The PVCs of the protected namespace as the API server keeps them, for the client that
-- pkg/csi-driver/controller.go is.
use open_cas_csi.Prelude.{
  ◌≡◌, String, Bool, true, false, Option, none, some, [], ◌∷◌, ◌==◌, not, ◌&&◌, if◌then◌else◌,
  is_some,
}
use open_cas_csi.Prelude.Text.{contains}
use open_cas_csi.World.{World, History, Call, Pvc}
use open_cas_csi.K8sUtils.Settings.{protected_namespace}

-- Whether the PVC is there after these calls: creations and deletions count where they are not refused.
abbrev pub present : (initial : String → Bool) → World → (name : String) → History → Bool
present initial w name [] = initial name
present initial w name (Call.create_pvc ns pvc ∷ h) =
    let before = present initial w name h in
    if (ns == protected_namespace w)
      && ((pvc.name == name) && not (is_some (w.answer h (Call.create_pvc ns pvc))))
    then true
    else before
present initial w name (Call.delete_pvc ns deleted ∷ h) =
    let before = present initial w name h in
    if (ns == protected_namespace w)
      && ((deleted == name) && not (is_some (w.answer h (Call.delete_pvc ns deleted))))
    then false
    else before
present initial w name (_ ∷ h) = present initial w name h

-- An error that says that the object is not there.
abbrev pub says_missing : Option String → Bool
says_missing none = false
says_missing (some text) = contains text "not found"

-- What the server's answers say of its PVCs, where nobody else creates or deletes them. Every call may
-- fail for other reasons.
pub record IsServer (initial : String → Bool) (w : World) : Type 0 where
  pub get-present :
      (h : History) (name : String)
      → (w.answer h (Call.get_pvc (protected_namespace w) name)).1 ≡ none
      → (present initial w name h ≡ true)
        × ((w.answer h (Call.get_pvc (protected_namespace w) name)).0.name ≡ name)
  pub get-absent :
      (h : History) (name text : String)
      → (w.answer h (Call.get_pvc (protected_namespace w) name)).1 ≡ some text
      → ((w.answer h (Call.get_pvc (protected_namespace w) name)).0.name ≡ "")
  pub get-missing :
      (h : History) (name : String)
      → says_missing (w.answer h (Call.get_pvc (protected_namespace w) name)).1 ≡ true
      → present initial w name h ≡ false
  pub update-missing :
      (h : History) (pvc : Pvc)
      → says_missing (w.answer h (Call.update_pvc (protected_namespace w) pvc)) ≡ true
      → present initial w pvc.name h ≡ false
  pub delete-missing :
      (h : History) (name : String)
      → says_missing (w.answer h (Call.delete_pvc (protected_namespace w) name)) ≡ true
      → present initial w name h ≡ false
