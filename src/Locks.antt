-- ===== src/Locks.antt =====
-- The lock discipline of a request: a mutex with keys (k8s.io/utils/keymutex) that is locked when the
-- request begins and unlocked by `defer` when it ends.
use open_cas_csi.Prelude.{◌≡◌, refl, String, Bool, true, false, Option, none, some, [], ◌∷◌}
use open_cas_csi.World.{World, History, Call}
use open_cas_csi.Effect.{M, locked}
use open_cas_csi.Keeps.{Keeps, Allows}
use open_cas_csi.OpenCas.Footprint.{is_read, AllowsReads, AllowsCmd}

-- The lock that is held after these calls.
abbrev pub held : History → Option String
held [] = none
held (Call.lock key ∷ h) = some key
held (Call.unlock key ∷ h) = none
held (_ ∷ h) = held h

-- Only the lock of `key` is taken, when none is held, only that lock is given back, when it is held,
-- and everything else is done while it is held.
abbrev pub GuardedBy : (key : String) → History → Type 0
GuardedBy key [] = Unit
GuardedBy key (Call.lock k ∷ h) = (k ≡ key) × (held h ≡ none) × GuardedBy key h
GuardedBy key (Call.unlock k ∷ h) = (k ≡ key) × (held h ≡ some key) × GuardedBy key h
GuardedBy key (_ ∷ h) = (held h ≡ some key) × GuardedBy key h

-- Before and after a handler, and under its lock.
abbrev pub Idle : (key : String) → World → History → Type 0
Idle key w h = (held h ≡ none) × GuardedBy key h

abbrev pub Inside : (key : String) → World → History → Type 0
Inside key w h = (held h ≡ some key) × GuardedBy key h

abbrev pub is_locking : Call → Bool
is_locking (Call.lock _) = true
is_locking (Call.unlock _) = true
is_locking _ = false

-- An invariant that no call but the locking ones breaks.
pub record AllowsWork (P : World → History → Type 0) : Type 0 where
  pub work : (c : Call) → is_locking c ≡ false → Allows P c

read-not_locking : (c : Call) → is_read c ≡ true → is_locking c ≡ false
read-not_locking (Call.lock k) e = cc
read-not_locking (Call.unlock k) e = cc
read-not_locking _ e = refl

module _ {P : World → History → Type 0} (a : AllowsWork P) where
  pub Allows-work : (c : Call) → is_locking c ≡ false → Allows P c
  Allows-work = a.work

  pub reads : AllowsReads P
  reads = record { read = λ c e. a.work c (read-not_locking c e) }

  pub any_cmd : (cmd : String) → AllowsCmd P cmd
  any_cmd cmd = record { job = λ w node_id name ns. a.work _ refl }

module _ (key : String) where
  other-Allows : (c : Call) → is_locking c ≡ false → Allows (Inside key) c
  other-Allows (Call.lock k) e = cc
  other-Allows (Call.unlock k) e = cc
  other-Allows _ e = record { step = λ w h p. (p.0, (p.0, p.1)) }

  pub work-Inside : AllowsWork (Inside key)
  work-Inside = record { work = other-Allows }

  pub locked-Keeps :
      {E A : Type 0} (m : M E A) → Keeps (Inside key) m → Keeps (Idle key) (locked key m)
  unfolding locked
  locked-Keeps m k = record {
    at = λ w h p.
        let q = k.at w (Call.lock key ∷ h) (refl, (refl, p.0, p.1)) in (refl, (refl, q.0, q.1));
  }

  -- What a request may do next.
  pub GuardedBy-lock :
      (k : String) (h : History) → GuardedBy key (Call.lock k ∷ h) → (k ≡ key) × (held h ≡ none)
  GuardedBy-lock k h g = (g.0, g.1)

  pub GuardedBy-unlock :
      (k : String) (h : History)
      → GuardedBy key (Call.unlock k ∷ h)
      → (k ≡ key) × (held h ≡ some key)
  GuardedBy-unlock k h g = (g.0, g.1)

  pub GuardedBy-other :
      (c : Call) (h : History)
      → is_locking c ≡ false
      → GuardedBy key (c ∷ h)
      → (held h ≡ some key) × (held (c ∷ h) ≡ some key)
  GuardedBy-other (Call.lock k) h e g = cc
  GuardedBy-other (Call.unlock k) h e g = cc
  GuardedBy-other _ h e g = (g.0, g.0)

  pub GuardedBy-tail : (c : Call) (h : History) → GuardedBy key (c ∷ h) → GuardedBy key h
  GuardedBy-tail (Call.lock k) h g = g.2
  GuardedBy-tail (Call.unlock k) h g = g.2
  GuardedBy-tail _ h g = g.1
