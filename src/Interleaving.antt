-- ===== src/Interleaving.antt =====
-- Requests that run at the same time. gRPC and the controller manager start each in a goroutine of
-- its own; the calls that they make are interleaved in any order that the mutex allows.
-- The mutex `keymutex.NewHashed(-1)` has a fixed set of locks, and a key's hash chooses one: `slot`
-- gives the lock that a request means by a key.
pub mod Turns
pub mod Progress
use open_cas_csi.Prelude.{
  ◌≡◌, ℕ, String, Bool, true, false, Option, none, some, List, [], ◌∷◌, eqb, if◌then◌else◌,
}
use open_cas_csi.World.{History, Call}
use open_cas_csi.Locks.{is_locking}

abbrev pub update {ℓ} : {A : Type ℓ} → (ℕ → A) → ℕ → A → ℕ → A
update f i a j = if eqb i j then a else f j

-- The calls `cs`, in their order, after those of `h`.
abbrev pub onto : List Call → History → History
onto [] h = h
onto (c ∷ cs) h = onto cs (c ∷ h)

abbrev pub in_order : History → List Call
in_order h = onto h []

-- For each request the calls that it has still to make and those that it has made, the latest first;
-- for each lock the request that has it; and all calls that were made, with the request.
pub record System : Type 0 where
  pub todo : ℕ → List Call
  pub made : ℕ → History
  pub owner : ℕ → Option ℕ
  pub log : List (ℕ × Call)

abbrev pub started : (ℕ → List Call) → System
started calls = record { todo = calls; made = λ i. []; owner = λ b. none; log = [] }

-- Request `i` makes its next call.
abbrev pub advance : System → ℕ → Call → List Call → System
advance s i c rest = record {
  todo = update s.todo i rest;
  made = update s.made i (c ∷ s.made i);
  owner = s.owner;
  log = (i, c) ∷ s.log;
}

module _ (slot : ℕ → String → ℕ) where
  -- `LockKey` waits until the lock is free; `UnlockKey` frees it, whoever has it.
  pub data Step (s : System) : System → Type 0 where
    lock :
        (i : ℕ) (key : String) (rest : List Call)
        → s.todo i ≡ Call.lock key ∷ rest
        → s.owner (slot i key) ≡ none
        → Step s (record (advance s i (Call.lock key) rest) {
          owner = update s.owner (slot i key) (some i);
        })
    unlock :
        (i : ℕ) (key : String) (rest : List Call)
        → s.todo i ≡ Call.unlock key ∷ rest
        → Step s (record (advance s i (Call.unlock key) rest) {
          owner = update s.owner (slot i key) none;
        })
    other :
        (i : ℕ) (c : Call) (rest : List Call)
        → is_locking c ≡ false
        → s.todo i ≡ c ∷ rest
        → Step s (advance s i c rest)

  -- What is reached from `s` by the requests' calls.
  pub data Reach (s : System) : System → Type 0 where
    here : Reach s s
    next : {t u : System} → Reach s t → Step t u → Reach s u
