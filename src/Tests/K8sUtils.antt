-- ===== src/Tests/K8sUtils.antt =====
-- The theorems about pkg/k8sutils, applied.
use open_cas_csi.Prelude.{◌≡◌, refl, ℕ, suc, String, true, none, some, [], ◌∷◌}
use open_cas_csi.World.{World, Call, Response, Pod, other_phase}
use open_cas_csi.Effect.{ok}
use open_cas_csi.K8sUtils.Specs.{PodConfig}
use open_cas_csi.K8sUtils.Objects.{delete_subprovider_pvc, delete_intermediate_pod}
use open_cas_csi.K8sUtils.Create.{create_intermediate_pod, intermediate_pod}
use open_cas_csi.K8sUtils.Unprotect.{
  DeletionsPass, delete_subprovider_pvc-DeletionsPass, delete_intermediate_pod-DeletionsPass,
}
use open_cas_csi.K8sUtils.Labelled.{
  get_pod_by_label, first_pod, answer_at, asked, StopsEarly, get_pod_by_label-StopsEarly,
}
use open_cas_csi.K8sUtils.Await.{create_intermediate_pod-silent}
use open_cas_csi.Tests.Worlds.{world, answers, pod}

delete_subprovider_pvc-DeletionsPass_example :
    DeletionsPass world (delete_subprovider_pvc "opencas-csi-vol" world []).1
delete_subprovider_pvc-DeletionsPass_example =
    delete_subprovider_pvc-DeletionsPass "opencas-csi-vol" world [] tt

delete_intermediate_pod-DeletionsPass_example :
    DeletionsPass world (delete_intermediate_pod "node-vol" "kube-system" world []).1
delete_intermediate_pod-DeletionsPass_example =
    delete_intermediate_pod-DeletionsPass "node-vol" "kube-system" world [] tt

-- The API server closes the watch at once, while the Pod is still pending.
abbrev pending : Pod
pending = record pod { phase = other_phase }

abbrev pending_answers : (c : Call) → Response c
pending_answers (Call.create_pod _ _) = (pending, none)
pending_answers c = answers true c

abbrev pending_world : World
pending_world = record world { answer = λ _ c. pending_answers c }

abbrev config : PodConfig
config = record {
  name = "node-vol";
  pvc = none;
  casadm_image = "casadm";
  node_id = "node";
  namespace = "kube-system";
}

create_intermediate_pod-silent_example :
    create_intermediate_pod {E = String} config pending_world [] ≡ (
      ok (some pending, none),
      Call.delete_pod "kube-system" "node-vol"
          ∷ Call.watch_pod "kube-system" "node-vol"
          ∷ Call.create_pod "kube-system" (intermediate_pod config)
          ∷ [],
    )
create_intermediate_pod-silent_example =
    create_intermediate_pod-silent config pending_world [] pending [] refl refl refl refl

get_pod_by_label-StopsEarly_example :
    (n : ℕ) × (get_pod_by_label "node" "app=webhook" world [] ≡ (
      first_pod (answer_at "node" "app=webhook" world n []),
      asked "node" "app=webhook" (suc n) [],
    ))
    × StopsEarly "node" "app=webhook" world 5 n []
get_pod_by_label-StopsEarly_example = get_pod_by_label-StopsEarly "node" "app=webhook" world []
