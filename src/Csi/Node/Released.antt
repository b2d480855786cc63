-- ===== src/Csi/Node/Released.antt =====
-- What a successful `NodeUnstageVolume` of pkg/csi-driver/node.go leaves of the volume.
use open_cas_csi.Prelude.{
  ◌≡◌, refl, ◌∙◌, ap, String, Bool, true, false, Option, none, some, ◌∷◌, if◌then◌else◌, ◌⊎◌, inl,
  inr, not, is_some,
}
use open_cas_csi.World.{World, History, Call, OsError, no_error, not_exist, exist, other_error}
use open_cas_csi.Effect.{ok, ◌>>=◌, ◌>>◌, fail_if, fail, call, ask, locked, M}
use open_cas_csi.Success.{bind-ok, locked-ok, locked-unlock}
use open_cas_csi.K8sUtils.Settings.{protected_namespace}
use open_cas_csi.K8sUtils.Objects.{named, get_pv_by_name, get_intermediate_pod_by_name}
use open_cas_csi.OpenCas.Casadm.{csi_driver_by_id_dir}
use open_cas_csi.OpenCas.Manager.{OpenCas, get_by_id_link_path_for_pv}
use mathlib.Core.Path.{subst⁻¹}
use open_cas_csi.Csi.Types.{
  require_text, Code, internal, failed_precondition, get_pod_name_for_pv, is_failure,
}
use open_cas_csi.Csi.Node.Unstage.{
  unmount_staged, cleanup_by_id_dir, uncache, detach, after_stat, node_unstage_volume,
}
use open_cas_csi.Csi.Node.Uncached.{Uncached, uncache-Uncached}

-- Why the volume needs no cache any more: its link is not there, its PV is not there, or it is on no cache.
abbrev pub Released : OpenCas → (volume_id path : String) → World → History → Type 0
Released cas volume_id path w end =
    ((h : History) × (end ≡ Call.os_stat path ∷ h) × (w.answer h (Call.os_stat path) ≡ not_exist))
    ⊎ (((h : History) × (end ≡ Call.get_pv volume_id ∷ h)
          × (named (w.answer h (Call.get_pv volume_id)).0 ≡ none))
        ⊎ Uncached cas path w end)

-- The calls of removing the link and its directory.
abbrev pub cleaned : (path : String) → History → History
cleaned path h = Call.os_remove csi_driver_by_id_dir ∷ Call.os_remove path ∷ h

abbrev pub EndsReleased : OpenCas → (volume_id path : String) → World → History → Type 0
EndsReleased cas volume_id path w end =
    (before : History) × Released cas volume_id path w before × (end ≡ cleaned path before)

cleanup_lem :
    (path : String) (w : World) (h : History) → cleanup_by_id_dir path w h ≡ (ok tt, cleaned path h)
unfolding cleanup_by_id_dir ◌>>=◌
cleanup_lem path w h = refl

-- What `detach` does after it looked for the PV.
abbrev after_pv : (node_id ns volume_id path : String) → Option String → M Code Unit
after_pv node_id ns volume_id path pv = if not (is_some pv) then cleanup_by_id_dir path else do
  pod ← get_intermediate_pod_by_name (get_pod_name_for_pv volume_id node_id) ns
  fail_if (is_failure pod.1) internal
  fail_if (not (is_some pod.0)) failed_precondition
  uncache node_id ns path
  cleanup_by_id_dir path

detached_lem :
    (node_id ns volume_id path : String) (w : World) (h : History) (o : Option String)
    → named (w.answer h (Call.get_pv volume_id)).0 ≡ o
    → (after_pv node_id ns volume_id path o w (Call.get_pv volume_id ∷ h)).0 ≡ ok tt
    → EndsReleased
        (record { node_id = node_id; namespace = ns })
        volume_id
        path
        w
        (after_pv node_id ns volume_id path o w (Call.get_pv volume_id ∷ h)).1
detached_lem node_id ns volume_id path w h none is e =
    (_, inr (inl (h, refl, is)), ap (λ r. r.1) (cleanup_lem path w _))
detached_lem node_id ns volume_id path w h (some pv) is e =
    let pod = bind-ok _ _ w _ tt e in
    let looked = bind-ok _ _ w _ tt pod.2 in
    let there = bind-ok _ _ w _ tt looked.2 in
    let gone = bind-ok _ _ w _ tt there.2 in
    (
      _,
      inr (inr (uncache-Uncached node_id ns path w _ gone.1)),
      pod.3 ∙ looked.3 ∙ there.3 ∙ gone.3 ∙ ap (λ r. r.1) (cleanup_lem path w _),
    )

check_lem :
    (P : History → Type 0) (b : Bool) (m : M Code Unit) (w : World) (h : History)
    → ((m w h).0 ≡ ok tt → P (m w h).1)
    → ((fail_if b internal >> m) w h).0 ≡ ok tt
    → P ((fail_if b internal >> m) w h).1
unfolding ◌>>=◌
check_lem P true m w h goal e = cc
check_lem P false m w h goal e = goal e

looked_lem :
    (node_id ns volume_id path : String) (w : World) (h : History)
    → ((get_pv_by_name volume_id >>= λ pv.
          fail_if (is_failure pv.1) internal >> after_pv node_id ns volume_id path pv.0)
        w h).0
      ≡ ok tt
    → EndsReleased
        (record { node_id = node_id; namespace = ns })
        volume_id
        path
        w
        ((get_pv_by_name volume_id >>= λ pv.
            fail_if (is_failure pv.1) internal >> after_pv node_id ns volume_id path pv.0)
          w h).1
unfolding get_pv_by_name ◌>>=◌
looked_lem node_id ns volume_id path w h e =
    check_lem (EndsReleased (record { node_id = node_id; namespace = ns }) volume_id path w)
      (is_failure (w.answer h (Call.get_pv volume_id)).1)
      (after_pv node_id ns volume_id path (named (w.answer h (Call.get_pv volume_id)).0)) w
      (Call.get_pv volume_id ∷ h) (detached_lem node_id ns volume_id path w h _ refl) e

detach-EndsReleased :
    (node_id ns volume_id path : String) (w : World) (h : History)
    → (detach node_id ns volume_id path w h).0 ≡ ok tt
    → EndsReleased
        (record { node_id = node_id; namespace = ns })
        volume_id
        path
        w
        (detach node_id ns volume_id path w h).1
unfolding detach
detach-EndsReleased node_id ns volume_id path w h e =
    let connected = bind-ok _ _ w h tt e in
    subst⁻¹ (EndsReleased (record { node_id = node_id; namespace = ns }) volume_id path w)
      connected.3 (looked_lem node_id ns volume_id path w _ connected.2)

stat_lem :
    (node_id ns volume_id path : String) (w : World) (h : History) (r : OsError)
    → w.answer h (Call.os_stat path) ≡ r
    → (after_stat r node_id ns volume_id path w (Call.os_stat path ∷ h)).0 ≡ ok tt
    → EndsReleased
        (record { node_id = node_id; namespace = ns })
        volume_id
        path
        w
        (after_stat r node_id ns volume_id path w (Call.os_stat path ∷ h)).1
unfolding after_stat fail
stat_lem node_id ns volume_id path w h no_error is e =
    detach-EndsReleased node_id ns volume_id path w _ e
stat_lem node_id ns volume_id path w h not_exist is e =
    (_, inl (h, refl, is), ap (λ r. r.1) (cleanup_lem path w _))
stat_lem node_id ns volume_id path w h exist is e = cc
stat_lem node_id ns volume_id path w h other_error is e = cc

linked_lem :
    (node_id ns volume_id path : String) (w : World) (h : History)
    → ((call (Call.os_stat path) >>= λ link. after_stat link node_id ns volume_id path) w h).0
      ≡ ok tt
    → EndsReleased
        (record { node_id = node_id; namespace = ns })
        volume_id
        path
        w
        ((call (Call.os_stat path) >>= λ link. after_stat link node_id ns volume_id path) w h).1
unfolding ◌>>=◌
linked_lem node_id ns volume_id path w h e = stat_lem node_id ns volume_id path w h _ refl e

-- What unstaging does after it read the environment.
abbrev checked_unstage : (node_id ns volume_id target : String) → M Code Unit
checked_unstage node_id ns volume_id target = do
  require_text volume_id
  require_text target
  locked volume_id (do
    unmount_staged target
    link ← call (Call.os_stat (get_by_id_link_path_for_pv volume_id))
    after_stat link node_id ns volume_id (get_by_id_link_path_for_pv volume_id))

-- The calls end with those of the release and the unlock.
abbrev pub Unstages : OpenCas → (volume_id : String) → World → History → Type 0
Unstages cas volume_id w after =
    (end : History) × EndsReleased cas volume_id (get_by_id_link_path_for_pv volume_id) w end
    × (after ≡ Call.unlock volume_id ∷ end)

checked_unstage-Unstages :
    (node_id ns volume_id target : String) (w : World) (h : History)
    → (checked_unstage node_id ns volume_id target w h).0 ≡ ok tt
    → Unstages
        (record { node_id = node_id; namespace = ns })
        volume_id
        w
        (checked_unstage node_id ns volume_id target w h).1
checked_unstage-Unstages node_id ns volume_id target w h e =
    let volume = bind-ok _ _ w h tt e in
    let aimed = bind-ok _ _ w _ tt volume.2 in
    let unmounted = bind-ok _ _ w _ tt (locked-ok volume_id _ w _ tt aimed.2) in
    (
      _,
      linked_lem node_id ns volume_id (get_by_id_link_path_for_pv volume_id) w _ unmounted.2,
      volume.3
          ∙ aimed.3
          ∙ locked-unlock volume_id _ w _
          ∙ ap (λ end. Call.unlock volume_id ∷ end) unmounted.3,
    )

pub node_unstage_volume-Unstages :
    (node_id volume_id target : String) (w : World) (h : History)
    → (node_unstage_volume node_id volume_id target w h).0 ≡ ok tt
    → Unstages
        (record { node_id = node_id; namespace = protected_namespace w })
        volume_id
        w
        (node_unstage_volume node_id volume_id target w h).1
unfolding node_unstage_volume ask ◌>>=◌
node_unstage_volume-Unstages node_id volume_id target w h e =
    checked_unstage-Unstages node_id (protected_namespace w) volume_id target w h e
