-- ===== src/Operator/Start/Steps.antt =====
-- The order in which the operator starts, and what its controllers watch.
use open_cas_csi.Prelude.{
  ◌≡◌, refl, ℕ, String, Bool, true, none, List, [], ◌∷◌, ◌⊎◌, inl, inr, is_some, arith,
  Option-cases,
}
use open_cas_csi.World.{
  World, History, Call, Setup, new_manager, controller, webhook_for, healthz_check, readyz_check,
  start,
}
use open_cas_csi.Effect.{M, Outcome, ok, err, call, fail_on, pure, ◌>>=◌, ◌>>◌}
use open_cas_csi.Operator.Start.{manager_options, cache_controller, driver_controller, main}

-- The steps are taken in their order as long as none is refused: code 0 after the last, code 1 right after the
-- first that is refused.
abbrev pub Ran : World → List Setup → History → Outcome ℕ ℕ × History → Type 0
Ran w [] h result = result ≡ (ok 0, h)
Ran w (s ∷ ss) h result =
    ((w.answer h (Call.manager s) ≡ none) × Ran w ss (Call.manager s ∷ h) result)
    ⊎ ((is_some (w.answer h (Call.manager s)) ≡ true) × (result ≡ (err 1, Call.manager s ∷ h)))

abbrev pub steps : (metrics_addr probe_addr : String) → (leader_elect : Bool) → List Setup
steps metrics_addr probe_addr leader_elect =
    new_manager (manager_options metrics_addr probe_addr leader_elect)
    ∷ controller cache_controller
    ∷ controller driver_controller
    ∷ webhook_for "Cache"
    ∷ healthz_check "healthz"
    ∷ readyz_check "readyz"
    ∷ start
    ∷ []

abbrev asked : Setup → M ℕ ℕ → M ℕ ℕ
asked s m = do refused ← call (Call.manager s); fail_on refused 1; m

record Takes (ss : List Setup) (m : M ℕ ℕ) : Type 0 where
  at : (w : World) (h : History) → Ran w ss h (m w h)

asked-Ran :
    (s : Setup) (ss : List Setup) (m : M ℕ ℕ) (w : World) (h : History)
    → Takes ss m
    → Ran w (s ∷ ss) h (asked s m w h)
unfolding ◌>>=◌
asked-Ran s ss m w h rest = elim (Option-cases (w.answer h (Call.manager s))) [
  | inl e ↦ inl (e, rw e (rest.at w (Call.manager s ∷ h)))
  | inr (text, e) ↦ inr (ground arith, ground arith)
]

asked-Takes : (s : Setup) (ss : List Setup) (m : M ℕ ℕ) → Takes ss m → Takes (s ∷ ss) (asked s m)
asked-Takes s ss m rest = record { at = λ w h. asked-Ran s ss m w h rest }

ended-Takes : Takes [] (pure {E = ℕ} 0)
unfolding pure
ended-Takes = record { at = λ w h. refl }

abbrev configured : M ℕ ℕ → M ℕ ℕ
configured m = do config ← call Call.load_config; fail_on config 1; m

-- The operator's start, with the configuration of the client first.
abbrev pub StartsBy : World → List Setup → History → Outcome ℕ ℕ × History → Type 0
StartsBy w ss h result =
    ((w.answer h Call.load_config ≡ none) × Ran w ss (Call.load_config ∷ h) result)
    ⊎ ((is_some (w.answer h Call.load_config) ≡ true) × (result ≡ (err 1, Call.load_config ∷ h)))

configured-StartsBy :
    (ss : List Setup) (m : M ℕ ℕ) (w : World) (h : History)
    → Takes ss m
    → StartsBy w ss h (configured m w h)
unfolding ◌>>=◌
configured-StartsBy ss m w h rest = elim (Option-cases (w.answer h Call.load_config)) [
  | inl e ↦ inl (e, rw e (rest.at w (Call.load_config ∷ h)))
  | inr (text, e) ↦ inr (ground arith, ground arith)
]

-- The operator reads its configuration, makes the manager, adds the two controllers, the webhook and the
-- two checks, and starts the manager, in this order; it goes on exactly as long as nothing is refused, and its exit
-- code is 0 if nothing was and 1 otherwise.
pub main-StartsBy :
    (metrics_addr probe_addr : String) (leader_elect : Bool) (w : World) (h : History)
    → StartsBy w
        (steps metrics_addr probe_addr leader_elect)
        h
        (main metrics_addr probe_addr leader_elect w h)
unfolding main
main-StartsBy metrics_addr probe_addr leader_elect w h =
    search (configured-StartsBy, asked-Takes, ended-Takes) depth 12
