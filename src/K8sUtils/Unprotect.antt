-- ===== src/K8sUtils/Unprotect.antt =====
-- The deletions of pkg/k8sutils/k8sutils.go, as the webhook of pkg/webhook/main.go sees them.
use open_cas_csi.Prelude.{◌≡◌, String, true, none, [], ◌∷◌, arith}
use open_cas_csi.Prelude.Dict.{Dict, lookup-erase_self}
use open_cas_csi.World.{World, History, Call}
use open_cas_csi.Effect.{◌>>=◌}
use open_cas_csi.K8sUtils.Settings.{protected_namespace}
use open_cas_csi.K8sUtils.Objects.{
  protected_label, unprotect_pvc, unprotect_pod, unless_missing, delete_subprovider_pvc,
  delete_intermediate_pod,
}
use open_cas_csi.Webhook
use open_cas_csi.Webhook.{decide, review}

-- The object that the API server sends to the webhook.
abbrev pub reviewed : (kind namespace name : String) → Dict String → Webhook.Object
reviewed kind ns name labels = record { kind = kind; name = name; namespace = ns; labels = labels }

-- The webhook allows the deletion of an object with these labels.
abbrev pub Passes : (kind ns name : String) → Dict String → Type 0
Passes kind ns name labels = decide "" (reviewed kind ns name labels) ≡ review "" true ""

-- The latest call looked this PVC up and showed labels that pass, or it updated, accepted, what the
-- look-up of this PVC had shown to labels that pass.
abbrev pub PvcPasses : World → (ns name : String) → History → Type 0
PvcPasses w ns name (Call.get_pvc ns' name' ∷ h) =
    (ns' ≡ ns)
    × (name' ≡ name)
    × Passes "PersistentVolumeClaim" ns name ((w.answer h (Call.get_pvc ns' name')).0).labels
PvcPasses w ns name (Call.update_pvc ns' pvc ∷ Call.get_pvc ns'' name' ∷ h) =
    (ns' ≡ ns)
    × (ns'' ≡ ns)
    × (name' ≡ name)
    × (pvc.name ≡ ((w.answer h (Call.get_pvc ns'' name')).0).name)
    × (w.answer (Call.get_pvc ns'' name' ∷ h) (Call.update_pvc ns' pvc) ≡ none)
    × Passes "PersistentVolumeClaim" ns name pvc.labels
PvcPasses w ns name _ = ⊥

abbrev pub PodPasses : World → (ns name : String) → History → Type 0
PodPasses w ns name (Call.get_pod ns' name' ∷ h) =
    (ns' ≡ ns)
    × (name' ≡ name)
    × Passes "Pod" ns name ((w.answer h (Call.get_pod ns' name')).0).labels
PodPasses w ns name (Call.update_pod ns' pod ∷ Call.get_pod ns'' name' ∷ h) =
    (ns' ≡ ns)
    × (ns'' ≡ ns)
    × (name' ≡ name)
    × (pod.name ≡ ((w.answer h (Call.get_pod ns'' name')).0).name)
    × (w.answer (Call.get_pod ns'' name' ∷ h) (Call.update_pod ns' pod) ≡ none)
    × Passes "Pod" ns name pod.labels
PodPasses w ns name _ = ⊥

-- Every deletion so far passed the webhook, by the latest calls before it.
abbrev pub DeletionsPass : World → History → Type 0
DeletionsPass w [] = Unit
DeletionsPass w (Call.delete_pvc ns name ∷ h) = PvcPasses w ns name h × DeletionsPass w h
DeletionsPass w (Call.delete_pod ns name ∷ h) = PodPasses w ns name h × DeletionsPass w h
DeletionsPass w (_ ∷ h) = DeletionsPass w h

pub delete_subprovider_pvc-DeletionsPass :
    (name : String) (w : World) (h : History)
    → DeletionsPass w h
    → DeletionsPass w (delete_subprovider_pvc name w h).1
unfolding delete_subprovider_pvc unprotect_pvc unless_missing decide ◌>>=◌
delete_subprovider_pvc-DeletionsPass name w h p = ground (
  arith,
  lookup-erase_self protected_label
      (w.answer h (Call.get_pvc (protected_namespace w) name)).0.labels,
)

pub delete_intermediate_pod-DeletionsPass :
    (name ns : String) (w : World) (h : History)
    → DeletionsPass w h
    → DeletionsPass w (delete_intermediate_pod name ns w h).1
unfolding delete_intermediate_pod unprotect_pod unless_missing decide ◌>>=◌
delete_intermediate_pod-DeletionsPass name ns w h p =
    ground (arith, lookup-erase_self protected_label (w.answer h (Call.get_pod ns name)).0.labels)
