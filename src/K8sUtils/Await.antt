-- ===== src/K8sUtils/Await.antt =====
-- What the loops of pkg/k8sutils/k8sutils.go that wait on a watch channel leave behind.
use open_cas_csi.Prelude.{
  ◌≡◌, refl, String, Bool, true, false, Option, none, some, List, [], ◌∷◌, arith,
}
use open_cas_csi.World.{
  World, History, Call, Pod, Phase, other_phase, Event, object, status, timeout,
}
use open_cas_csi.Effect.{◌>>=◌, ok}
use open_cas_csi.K8sUtils.Specs.{PodConfig}
use open_cas_csi.K8sUtils.Create.{await_pod, intermediate_pod, create_intermediate_pod}

-- The phase that the channel showed last.
abbrev pub last_phase : List (Event Pod) → Phase → Phase
last_phase [] phase = phase
last_phase (object pod ∷ events) phase = last_phase events pod.phase
last_phase (_ ∷ events) phase = last_phase events phase

abbrev pub times_out : List (Event Pod) → Bool
times_out [] = false
times_out (timeout ∷ events) = true
times_out (_ ∷ events) = times_out events

await_pod-phase :
    (events : List (Event Pod)) (phase : Phase) (e : Option String)
    → (await_pod events phase e).0 ≡ last_phase events phase
unfolding await_pod
await_pod-phase [] phase e = refl
await_pod-phase (object pod ∷ events) phase e = await_pod-phase events pod.phase e
await_pod-phase (status ∷ events) phase e = await_pod-phase events phase e
await_pod-phase (timeout ∷ events) phase e = await_pod-phase events phase _

await_pod-error :
    (events : List (Event Pod)) (phase : Phase) (e : Option String)
    → times_out events ≡ false
    → (await_pod events phase e).1 ≡ e
unfolding await_pod
await_pod-error [] phase e q = refl
await_pod-error (object pod ∷ events) phase e q = await_pod-error events pod.phase e q
await_pod-error (status ∷ events) phase e q = await_pod-error events phase e q
await_pod-error (timeout ∷ events) phase e q = cc

-- When the Pod is created and watched, the channel is closed before any timeout, and the last phase
-- that it showed is not running, then the Pod is deleted and yet no error is returned.
pub create_intermediate_pod-silent :
    (config : PodConfig) (w : World) (h : History) (pod : Pod) (events : List (Event Pod))
    → w.answer h (Call.create_pod config.namespace (intermediate_pod config)) ≡ (pod, none)
    → w.answer
        (Call.create_pod config.namespace (intermediate_pod config) ∷ h)
        (Call.watch_pod config.namespace pod.name)
      ≡ (events, none)
    → times_out events ≡ false
    → last_phase events pod.phase ≡ other_phase
    → create_intermediate_pod {E = String} config w h ≡ (
      ok (some pod, none),
      Call.delete_pod config.namespace config.name
          ∷ Call.watch_pod config.namespace pod.name
          ∷ Call.create_pod config.namespace (intermediate_pod config)
          ∷ h,
    )
unfolding create_intermediate_pod ◌>>=◌
create_intermediate_pod-silent config w h pod events created watched quiet last =
    ground
      (arith, await_pod-phase events pod.phase none, await_pod-error events pod.phase none quiet)
