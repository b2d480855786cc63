-- ===== src/K8sUtils/Labelled.antt =====
-- `GetPodByLabel` of pkg/k8sutils/k8sutils.go, which tries to list the Pods up to five times.
use Prim.Native.Nat.{◌<◌, ◌+◌}
use open_cas_csi.Prelude.{
  ◌≡◌, refl, ◌⊎◌, inl, inr, ℕ, zero, suc, String, true, false, Option, none, some, List, [], ◌∷◌,
  is_some, arith,
}
use open_cas_csi.World.{World, History, Call, Pod}
use open_cas_csi.Effect.{
  M, Outcome, ok, err, pure, fail, call, ◌>>=◌, ◌>>◌, on_option, on_list, return_error,
}

-- The loop with the tries that are left; `pods` and `err` hold the last answer.
unfoldable pub list_tries :
    (tries : ℕ) (node label : String)
    → List Pod × Option String
    → M String (List Pod × Option String)
list_tries zero node label last = pure last
list_tries (suc tries) node label last = do
  answer ← call (Call.list_pods_of node label)
  on_option answer.1 (pure answer) (λ _. list_tries tries node label answer)

unfoldable pub get_pod_by_label : (node label : String) → M String Pod
get_pod_by_label node label = do
  listed ← list_tries 5 node label ([], none)
  return_error listed.1
  on_list listed.0 (fail "pod not found in node") (λ pod _. pure pod)

module _ (node label : String) where
  -- After so many tries.
  abbrev pub asked : ℕ → History → History
  asked zero h = h
  asked (suc n) h = Call.list_pods_of node label ∷ asked n h

  abbrev pub answer_at : World → ℕ → History → List Pod × Option String
  answer_at w n h = w.answer (asked n h) (Call.list_pods_of node label)

  -- Each of the first tries was answered by an error.
  abbrev pub AllFailed : World → ℕ → History → Type 0
  AllFailed w zero h = Unit
  AllFailed w (suc n) h = (is_some (answer_at w n h).1 ≡ true) × AllFailed w n h

  -- The loop stops at the first answer without an error, or at its last try.
  abbrev pub StopsEarly : World → (bound n : ℕ) → History → Type 0
  StopsEarly w bound n h =
      (n < bound) × AllFailed w n h × ((is_some (answer_at w n h).1 ≡ false) ⊎ (suc n ≡ bound))

  stop_lem :
      (tries done : ℕ) (last : List Pod × Option String) (w : World) (h : History)
      (e : Option String)
      → AllFailed w done h
      → (answer_at w done h).1 ≡ e
      → (n : ℕ) × (list_tries (suc tries) node label last w (asked done h)
          ≡ (ok (answer_at w n h), asked (suc n) h))
        × StopsEarly w (done + suc tries) n h
  unfolding list_tries ◌>>=◌
  stop_lem tries done last w h none failed e =
      (done, ground arith, (omega arith, failed, inl (ground arith)))
  stop_lem zero done last w h (some text) failed e =
      (done, ground arith, (omega arith, failed, inr (omega arith)))
  stop_lem (suc tries) done last w h (some text) failed e =
      let later =
        stop_lem tries (suc done) (answer_at w done h) w h _ (ground arith, failed) refl in
      (later.0, rw e (later.1), ground (arith, later.2))

-- The outcome, from the last answer.
abbrev pub first_pod : List Pod × Option String → Outcome String Pod
first_pod (pods, some text) = err text
first_pod ([], none) = err "pod not found in node"
first_pod (pod ∷ pods, none) = ok pod

after_tries :
    (node label : String) (last : List Pod × Option String) (w : World) (h after : History)
    → list_tries 5 node label ([], none) w h ≡ (ok last, after)
    → get_pod_by_label node label w h ≡ (first_pod last, after)
unfolding get_pod_by_label ◌>>=◌
after_tries node label (pods, some text) w h after e = rw e refl
after_tries node label ([], none) w h after e = rw e refl
after_tries node label (pod ∷ pods, none) w h after e = rw e refl

-- Getting a Pod by its label lists the Pods at least once and at most five times, stops at the first
-- answer without an error, and returns the error or the first Pod of the last answer.
pub get_pod_by_label-StopsEarly :
    (node label : String) (w : World) (h : History)
    → (n : ℕ) × (get_pod_by_label node label w h
        ≡ (first_pod (answer_at node label w n h), asked node label (suc n) h))
      × StopsEarly node label w 5 n h
unfolding get_pod_by_label ◌>>=◌
get_pod_by_label-StopsEarly node label w h =
    let tried = stop_lem node label 4 0 ([], none) w h _ tt refl in
    (tried.0, after_tries node label _ w h _ tried.1, tried.2)
