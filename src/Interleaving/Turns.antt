-- ===== src/Interleaving/Turns.antt =====
-- The invariant of interleaved requests: those whose keys share a lock take turns.
use open_cas_csi.Prelude.{
  ◌≡◌, refl, sym, ◌∙◌, ℕ, String, Bool, true, false, Option, none, some, List, [], ◌∷◌, eqb,
  if◌then◌else◌, ◌⊎◌, inl, inr, arith, ap, eqb_iff, Bool-cases,
}
use open_cas_csi.World.{History, Call}
use open_cas_csi.Locks.{
  held, GuardedBy, is_locking, GuardedBy-lock, GuardedBy-unlock, GuardedBy-other, GuardedBy-tail,
}
use mathlib.Core.Path.{subst}
use open_cas_csi.Interleaving.{
  update, onto, System, started, advance, Step, lock, unlock, other, Reach, here, next,
}

abbrev is_unlock : Call → Bool
is_unlock (Call.unlock _) = true
is_unlock _ = false

onto-GuardedBy :
    (key : String) (cs : List Call) (h : History) → GuardedBy key (onto cs h) → GuardedBy key h
onto-GuardedBy key [] h g = g
onto-GuardedBy key (c ∷ cs) h g = GuardedBy-tail key c h (onto-GuardedBy key cs (c ∷ h) g)

not_locking : (c : Call) → is_locking c ≡ false → is_unlock c ≡ false
not_locking (Call.lock k) e = refl
not_locking (Call.unlock k) e = cc
not_locking _ e = refl

-- What holds of a request's calls after one request's have changed.
both_updated :
    (P : ℕ → List Call → History → Type 0) (todo : ℕ → List Call) (made : ℕ → History) (i : ℕ)
    (rest : List Call) (h : History)
    → P i rest h
    → ((j : ℕ) → P j (todo j) (made j))
    → (j : ℕ) → P j (update todo i rest j) (update made i h j)
both_updated P todo made i rest h p all j = elim (Bool-cases (eqb i j)) [
  | inl e ↦ rw e (subst (λ k. P k rest h) ((eqb_iff i j).0 e) p)
  | inr e ↦ rw e (all j)
]

module _ (slot : ℕ → String → ℕ) (key : ℕ → String) where
  abbrev pub own : ℕ → ℕ
  own i = slot i (key i)

  -- The request that made the latest call of those that share the lock `b`, unless it unlocked by it.
  abbrev pub running : ℕ → List (ℕ × Call) → Option ℕ
  running b [] = none
  running b ((i, c) ∷ l) =
      if eqb (own i) b then (if is_unlock c then none else some i) else running b l

  -- Each call is of the request that runs on its lock, or it takes the lock, on which none runs.
  abbrev pub TakesTurns : List (ℕ × Call) → Type 0
  TakesTurns [] = Unit
  TakesTurns ((i, c) ∷ l) =
      ((running (own i) l ≡ some i) ⊎ ((running (own i) l ≡ none) × (c ≡ Call.lock (key i))))
      × TakesTurns l

  pub record Inv (s : System) : Type 0 where
    pub whole :
        (i : ℕ)
        → (held (onto (s.todo i) (s.made i)) ≡ none)
          × GuardedBy (key i) (onto (s.todo i) (s.made i))
    pub owned : (i : ℕ) → held (s.made i) ≡ some (key i) → s.owner (own i) ≡ some i
    pub owns : (b i : ℕ) → s.owner b ≡ some i → (held (s.made i) ≡ some (key i)) × (own i ≡ b)
    pub mirrors : (b : ℕ) → s.owner b ≡ running b s.log
    pub turns : TakesTurns s.log

  module _ {s : System} (inv : Inv s) (i : ℕ) (c : Call) (rest : List Call)
      (now : s.todo i ≡ c ∷ rest) where
    open inv use {whole, owned, owns, mirrors, turns}

    pub next_call : GuardedBy (key i) (c ∷ s.made i)
    next_call =
        onto-GuardedBy (key i) rest (c ∷ s.made i)
          (subst (λ cs. GuardedBy (key i) (onto cs (s.made i))) now (whole i).1)

    advance-whole :
        (j : ℕ)
        → (held (onto (update s.todo i rest j) (update s.made i (c ∷ s.made i) j)) ≡ none)
          × GuardedBy (key j) (onto (update s.todo i rest j) (update s.made i (c ∷ s.made i) j))
    advance-whole =
        both_updated (λ j cs h. (held (onto cs h) ≡ none) × GuardedBy (key j) (onto cs h)) s.todo
          s.made i rest (c ∷ s.made i)
          (subst (λ cs. (held (onto cs (s.made i)) ≡ none) × GuardedBy (key i) (onto cs (s.made i)))
            now (whole i))
          whole

  module _ {s : System} (inv : Inv s) (i : ℕ) (k : String) (rest : List Call)
      (now : s.todo i ≡ Call.lock k ∷ rest) (free : s.owner (slot i k) ≡ none) where
    open inv use {whole, owned, owns, mirrors, turns}

    lock_now : (k ≡ key i) × (held (s.made i) ≡ none)
    lock_now = GuardedBy-lock (key i) k (s.made i) (next_call inv i (Call.lock k) rest now)

    lock_own : slot i k ≡ own i
    lock_own = ap (slot i) lock_now.0

    lock-owned :
        (j : ℕ)
        → held (update s.made i (Call.lock k ∷ s.made i) j) ≡ some (key j)
        → update s.owner (slot i k) (some i) (own j) ≡ some j
    lock-owned j = ground (arith, owned j, lock_own, lock_now, free)

    lock-owns :
        (b j : ℕ)
        → update s.owner (slot i k) (some i) b ≡ some j
        → (held (update s.made i (Call.lock k ∷ s.made i) j) ≡ some (key j)) × (own j ≡ b)
    lock-owns b j e = ground (arith, owns b j, lock_own, lock_now, free)

    lock-mirrors :
        (b : ℕ) → update s.owner (slot i k) (some i) b ≡ running b ((i, Call.lock k) ∷ s.log)
    lock-mirrors b = ground (arith, mirrors b, lock_own)

    lock-turns : TakesTurns ((i, Call.lock k) ∷ s.log)
    lock-turns = (
      inr (sym (mirrors (own i)) ∙ ap s.owner (sym lock_own) ∙ free, ap Call.lock lock_now.0),
      turns,
    )

    lock-Inv :
        Inv (record (advance s i (Call.lock k) rest) { owner = update s.owner (slot i k) (some i) })
    lock-Inv = record {
      whole = advance-whole inv i (Call.lock k) rest now;
      owned = lock-owned;
      owns = lock-owns;
      mirrors = lock-mirrors;
      turns = lock-turns;
    }

  module _ {s : System} (inv : Inv s) (i : ℕ) (k : String) (rest : List Call)
      (now : s.todo i ≡ Call.unlock k ∷ rest) where
    open inv use {whole, owned, owns, mirrors, turns}

    unlock_now : (k ≡ key i) × (held (s.made i) ≡ some (key i))
    unlock_now = GuardedBy-unlock (key i) k (s.made i) (next_call inv i (Call.unlock k) rest now)

    unlock_own : slot i k ≡ own i
    unlock_own = ap (slot i) unlock_now.0

    unlock-owned :
        (j : ℕ)
        → held (update s.made i (Call.unlock k ∷ s.made i) j) ≡ some (key j)
        → update s.owner (slot i k) none (own j) ≡ some j
    unlock-owned j = ground (arith, owned j, owned i, unlock_own, unlock_now)

    unlock-owns :
        (b j : ℕ)
        → update s.owner (slot i k) none b ≡ some j
        → (held (update s.made i (Call.unlock k ∷ s.made i) j) ≡ some (key j)) × (own j ≡ b)
    unlock-owns b j e = ground (arith, owns b j, unlock_own, unlock_now)

    unlock-mirrors :
        (b : ℕ) → update s.owner (slot i k) none b ≡ running b ((i, Call.unlock k) ∷ s.log)
    unlock-mirrors b = ground (arith, mirrors b, unlock_own)

    unlock-Inv :
        Inv (record (advance s i (Call.unlock k) rest) { owner = update s.owner (slot i k) none })
    unlock-Inv = record {
      whole = advance-whole inv i (Call.unlock k) rest now;
      owned = unlock-owned;
      owns = unlock-owns;
      mirrors = unlock-mirrors;
      turns = (inl (sym (mirrors (own i)) ∙ owned i unlock_now.1), turns);
    }

  module _ {s : System} (inv : Inv s) (i : ℕ) (c : Call) (rest : List Call)
      (free : is_locking c ≡ false) (now : s.todo i ≡ c ∷ rest) where
    open inv use {whole, owned, owns, mirrors, turns}

    other_now : (held (s.made i) ≡ some (key i)) × (held (c ∷ s.made i) ≡ some (key i))
    other_now = GuardedBy-other (key i) c (s.made i) free (next_call inv i c rest now)

    other-owned :
        (j : ℕ) → held (update s.made i (c ∷ s.made i) j) ≡ some (key j) → s.owner (own j) ≡ some j
    other-owned j = ground (arith, owned j, owned i, other_now)

    other-owns :
        (b j : ℕ)
        → s.owner b ≡ some j
        → (held (update s.made i (c ∷ s.made i) j) ≡ some (key j)) × (own j ≡ b)
    other-owns b j e = ground (arith, owns b j, other_now)

    other-mirrors : (b : ℕ) → s.owner b ≡ running b ((i, c) ∷ s.log)
    other-mirrors b = ground (arith, mirrors b, owned i, other_now, not_locking c free)

    other-Inv : Inv (advance s i c rest)
    other-Inv = record {
      whole = advance-whole inv i c rest now;
      owned = other-owned;
      owns = other-owns;
      mirrors = other-mirrors;
      turns = (inl (sym (mirrors (own i)) ∙ owned i other_now.0), turns);
    }

  pub Step-Inv : {s t : System} → Step slot s t → Inv s → Inv t
  Step-Inv (lock i k rest now free) inv = lock-Inv inv i k rest now free
  Step-Inv (unlock i k rest now) inv = unlock-Inv inv i k rest now
  Step-Inv (other i c rest free now) inv = other-Inv inv i c rest free now

  pub Reach-Inv : {s t : System} → Inv s → Reach slot s t → Inv t
  Reach-Inv inv here = inv
  Reach-Inv inv (next r step) = Step-Inv step (Reach-Inv inv r)

  pub started-Inv :
      (calls : ℕ → List Call)
      → ((i : ℕ) → (held (onto (calls i) []) ≡ none) × GuardedBy (key i) (onto (calls i) []))
      → Inv (started calls)
  started-Inv calls disciplined = record {
    whole = disciplined;
    owned = λ j e. cc;
    owns = λ b j e. cc;
    mirrors = λ b. refl;
    turns = tt;
  }
