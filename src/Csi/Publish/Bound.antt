-- ===== src/Csi/Publish/Bound.antt =====
-- What a successful `ControllerPublishVolume` of pkg/csi-driver/controller.go hands to `NodeStageVolume` of
-- pkg/csi-driver/node.go.
use open_cas_csi.Prelude.{◌≡◌, ◌∙◌, ap, String, false, Option, none, [], ◌∷◌, ◌==◌, arith}
use mathlib.Core.Path.{subst}
use open_cas_csi.Prelude.Dict.{Dict, insert, lookup}
use open_cas_csi.World.{World, History, Call}
use open_cas_csi.Effect.{Outcome, ok, ◌>>=◌, pure}
use open_cas_csi.Success.{bind-ok, locked-ok, locked-unlock}
use open_cas_csi.K8sUtils.Settings.{protected_namespace}
use open_cas_csi.K8sUtils.Objects.{get_subprovider_pvc_by_name, get_pv_by_name}
use open_cas_csi.Csi.Types.{Code, Access, get_pvc_name_for_pv}
use open_cas_csi.Csi.Node.Stage.{backend_pv_name}
use open_cas_csi.Csi.Publish.{deref, bound_pv, controller_publish_volume}

-- The latest calls asked for the PVC, which names its PV, and for this PV, which is there with this name.
abbrev pub EndsBound : (pvc_name pv_name : String) → World → History → Type 0
EndsBound pvc_name pv_name w end =
    (h : History) × (let get = Call.get_pvc (protected_namespace w) pvc_name in
      let pvc = (w.answer h get).0 in
      ((w.answer h get).1 ≡ none)
      × ((pvc.volume_name == "") ≡ false)
      × (w.answer (get ∷ h) (Call.get_pv pvc.volume_name) ≡ (pv_name, none))
      × (end ≡ Call.get_pv pvc.volume_name ∷ get ∷ h))

bound_pv-EndsBound :
    (pvc_name pv_name : String) (w : World) (h : History)
    → (bound_pv pvc_name w h).0 ≡ ok pv_name
    → EndsBound pvc_name pv_name w (bound_pv pvc_name w h).1 × ((pv_name == "") ≡ false)
unfolding bound_pv get_subprovider_pvc_by_name get_pv_by_name deref ◌>>=◌
bound_pv-EndsBound pvc_name pv_name w h e =
    ((h, (ground arith, ground arith, ground arith, ground arith)), ground arith)

bound_pv-renamed :
    (pvc_name pv_name name : String) (w : World) (h : History)
    → pv_name ≡ name
    → (bound_pv pvc_name w h).0 ≡ ok pv_name
    → EndsBound pvc_name name w (bound_pv pvc_name w h).1 × ((name == "") ≡ false)
bound_pv-renamed pvc_name pv_name name w h same e =
    subst (λ pv. EndsBound pvc_name pv w (bound_pv pvc_name w h).1 × ((pv == "") ≡ false)) same
      (bound_pv-EndsBound pvc_name pv_name w h e)

published-context :
    (pv_name : String) (context : Dict String)
    → ◌≡◌ {A = Outcome Code (Dict String)} (ok (insert "backendPvName" pv_name [])) (ok context)
    → pv_name ≡ backend_pv_name context
unfolding insert lookup
published-context pv_name context e =
    let same : insert "backendPvName" pv_name [] ≡ context = cc in ap backend_pv_name same

-- When a volume is published to a node successfully, the last calls under its lock asked for its PVC,
-- which names a PV, and for this PV. What staging the volume reads from the publish context that is
-- returned is the name of this PV, and it is not empty.
pub controller_publish_volume-EndsBound :
    (volume_id node_id : String) (context : Dict String) (capability : Option Access) (w : World)
    (h : History)
    → (controller_publish_volume volume_id node_id capability w h).0 ≡ ok context
    → (before : History) × EndsBound
        (get_pvc_name_for_pv volume_id)
        (backend_pv_name context)
        w
        before
      × ((controller_publish_volume volume_id node_id capability w h).1
          ≡ Call.unlock volume_id ∷ before)
      × ((backend_pv_name context == "") ≡ false)
unfolding controller_publish_volume pure
controller_publish_volume-EndsBound volume_id node_id context capability w h e =
    let asked = bind-ok _ _ w h context e in
    let valid = bind-ok _ _ w _ context asked.2 in
    let volume = bind-ok _ _ w _ context valid.2 in
    let node = bind-ok _ _ w _ context volume.2 in
    let capable = bind-ok _ _ w _ context node.2 in
    let connected = bind-ok _ _ w _ context (locked-ok volume_id _ w _ context capable.2) in
    let claim = bind-ok _ _ w _ context connected.2 in
    let there = bind-ok _ _ w _ context claim.2 in
    let attached = bind-ok _ _ w _ context there.2 in
    let named = bind-ok _ _ w _ context attached.2 in
    let bound =
      bound_pv-renamed (get_pvc_name_for_pv volume_id) named.0 (backend_pv_name context) w _
        (published-context named.0 context named.2) named.1 in
    (
      _,
      bound.0,
      asked.3
          ∙ valid.3
          ∙ volume.3
          ∙ node.3
          ∙ capable.3
          ∙ locked-unlock volume_id _ w _
          ∙ ap (λ end. Call.unlock volume_id ∷ end)
              (connected.3 ∙ claim.3 ∙ there.3 ∙ attached.3 ∙ named.3),
      bound.1,
    )
