-- ===== src/Interleaving/Progress.antt =====
-- Interleaved requests never block one another for good.
use open_cas_csi.Prelude.{
  ◌≡◌, refl, sym, ◌∙◌, ℕ, zero, suc, ◌+◌, ◌≤◌, ◌<◌, String, false, none, some, List, [], ◌∷◌, eqb,
  ◌⊎◌, inl, inr, arith, ap, ◌≢◌, length, Bool-cases, eqb_iff, Option-cases,
}
use mathlib.Core.Path.{subst}
use native.Mathlib.Decide.{dec_lt}
use open_cas_csi.World.{Call}
use open_cas_csi.Locks.{held, GuardedBy, is_locking, GuardedBy-lock}
use open_cas_csi.Interleaving.{update, onto, System, Step, lock, unlock, other, Reach, here, next}
use open_cas_csi.Interleaving.Turns.{Inv, next_call, Step-Inv}

Call-cases :
    (c : Call)
    → ((k : String) × (c ≡ Call.lock k))
      ⊎ (((k : String) × (c ≡ Call.unlock k)) ⊎ (is_locking c ≡ false))
Call-cases (Call.lock k) = inl (k, refl)
Call-cases (Call.unlock k) = inr (inl (k, refl))
Call-cases _ = inr (inr refl)

List-cases {ℓ} : {A : Type ℓ} (l : List A) → (l ≡ []) ⊎ ((x : A) × (xs : List A) × (l ≡ x ∷ xs))
List-cases [] = inl refl
List-cases (x ∷ xs) = inr (x, xs, refl)

-- How many calls the first `n` requests have still to make.
abbrev pub pending : ℕ → (ℕ → List Call) → ℕ
pending zero todo = 0
pending (suc n) todo = length (todo n) + pending n todo

pending-update_above :
    (n : ℕ) (todo : ℕ → List Call) (i : ℕ) (rest : List Call)
    → n ≤ i
    → pending n (update todo i rest) ≡ pending n todo
pending-update_above zero todo i rest le = refl
pending-update_above (suc n) todo i rest le = ground (arith, pending-update_above n todo i rest)

pending-update :
    (n : ℕ) (todo : ℕ → List Call) (i : ℕ) (c : Call) (rest : List Call)
    → i < n
    → todo i ≡ c ∷ rest
    → pending n todo ≡ suc (pending n (update todo i rest))
pending-update zero todo i c rest lt e = absurd (omega arith)
pending-update (suc n) todo i c rest lt e = elim (dec_lt i n) [
  | yes below ↦ ground (arith, pending-update n todo i c rest below e)
  | no last ↦ ground (arith, pending-update_above n todo i rest)
]

unfinished :
    (n : ℕ) (todo : ℕ → List Call)
    → ((i : ℕ) → i < n → todo i ≡ [])
      ⊎ ((i : ℕ) × (c : Call) × (rest : List Call) × (todo i ≡ c ∷ rest))
unfinished zero todo = inl (λ i lt. absurd (omega arith))
unfinished (suc n) todo = elim (List-cases (todo n)) [
  | inr (c, rest, e) ↦ inr (n, c, rest, e)
  | inl e ↦ elim (unfinished n todo) [
    | inr found ↦ inr found
    | inl all ↦ inl (λ i lt. elim (dec_lt i n) [
      | yes below ↦ all i below
      | no last ↦ let q : i ≡ n = omega arith in rw q e
    ])
  ]
]

-- Every request has made all its calls.
abbrev pub Finished : System → Type 0
Finished s = (i : ℕ) → s.todo i ≡ []

nil-ne-cons : (c : Call) (cs : List Call) → [] ≢ c ∷ cs
nil-ne-cons c cs e = cc

none-ne-some : (k : String) → none ≢ some k
none-ne-some k e = cc

stays_done :
    (todo : ℕ → List Call) (j : ℕ) (c : Call) (rest : List Call) (i : ℕ)
    → todo j ≡ c ∷ rest
    → todo i ≡ []
    → update todo j rest i ≡ []
stays_done todo j c rest i now e = elim (Bool-cases (eqb j i)) [
  | inl same ↦ absurd (nil-ne-cons c rest (sym e ∙ ap todo (sym ((eqb_iff j i).0 same)) ∙ now))
  | inr differ ↦ rw differ e
]

module _ (slot : ℕ → String → ℕ) where
  Step-done : {s t : System} → Step slot s t → (i : ℕ) → s.todo i ≡ [] → t.todo i ≡ []
  Step-done {s} (lock j k rest now free) i e = stays_done s.todo j (Call.lock k) rest i now e
  Step-done {s} (unlock j k rest now) i e = stays_done s.todo j (Call.unlock k) rest i now e
  Step-done {s} (other j c rest free now) i e = stays_done s.todo j c rest i now e

  pub Reach-done : {s t : System} → Reach slot s t → (i : ℕ) → s.todo i ≡ [] → t.todo i ≡ []
  Reach-done here i e = e
  Reach-done (next r step) i e = Step-done step i (Reach-done r i e)

module _ (slot : ℕ → String → ℕ) (key : ℕ → String) where
  -- A step by which a request has one call less to make.
  abbrev pub Progress : System → Type 0
  Progress s =
      (i : ℕ) × (c : Call) × (rest : List Call) × (s.todo i ≡ c ∷ rest)
      × (t : System) × Step slot s t
      × (t.todo ≡ update s.todo i rest)

  module _ {s : System} (inv : Inv slot key s) where
    open inv use {whole, owns}

    -- A request that is not about to lock can go on.
    go_on :
        (i : ℕ) (c : Call) (rest : List Call)
        → s.todo i ≡ c ∷ rest
        → ((k : String) × (c ≡ Call.unlock k)) ⊎ (is_locking c ≡ false)
        → Progress s
    go_on i c rest now (inl (k, e)) =
        (i, c, rest, now, _, unlock i k rest (now ∙ ap (λ d. d ∷ rest) e), refl)
    go_on i c rest now (inr e) = (i, c, rest, now, _, other i c rest e now, refl)

    -- A request that has a lock has something to do, and it does not wait for a lock.
    holder_goes_on : (j : ℕ) → held (s.made j) ≡ some (key j) → Progress s
    holder_goes_on j has = elim (List-cases (s.todo j)) [
      | inl e ↦ absurd (
          none-ne-some (key j)
            (sym (subst (λ cs. held (onto cs (s.made j)) ≡ none) e (whole j).0) ∙ has))
      | inr (c, rest, now) ↦ elim (Call-cases c) [
        | inl (k, e) ↦ absurd (
            none-ne-some (key j) (
              sym
                (GuardedBy-lock (key j) k (s.made j) (
                  subst (λ d. GuardedBy (key j) (d ∷ s.made j)) e
                    (next_call slot key inv j c rest now))).1
              ∙ has))
        | inr not_lock ↦ go_on j c rest now not_lock
      ]
    ]

    -- As long as a request has calls to make, one of the requests can make its next.
    pub progress : (i : ℕ) (c : Call) (rest : List Call) → s.todo i ≡ c ∷ rest → Progress s
    progress i c rest now = elim (Call-cases c) [
      | inr not_lock ↦ go_on i c rest now not_lock
      | inl (k, e) ↦ elim (Option-cases (s.owner (slot i k))) [
        | inl free ↦ (i, c, rest, now, _, lock i k rest (now ∙ ap (λ d. d ∷ rest) e) free, refl)
        | inr (j, has) ↦ holder_goes_on j (owns (slot i k) j has).0
      ]
    ]

  module _ (n : ℕ) where
    abbrev Only : System → Type 0
    Only s = (i : ℕ) → n ≤ i → s.todo i ≡ []

    finished : (s : System) → Only s → ((i : ℕ) → i < n → s.todo i ≡ []) → (i : ℕ) → s.todo i ≡ []
    finished s outside all i = elim (dec_lt i n) [
      | yes below ↦ all i below
      | no above ↦ outside i (omega arith)
    ]

    mover : (s : System) → Only s → (p : Progress s) → p.0 < n
    mover s outside (i, c, rest, now, t, step, e) = elim (dec_lt i n) [
      | yes below ↦ below
      | no above ↦ absurd (nil-ne-cons c rest (sym (outside i (omega arith)) ∙ now))
    ]

    progress-pending :
        (s : System) → Only s → (p : Progress s) → pending n s.todo ≡ suc (pending n (p.4).todo)
    progress-pending s outside (i, c, rest, now, t, step, e) =
        rw e (pending-update n s.todo i c rest (mover s outside (i, c, rest, now, t, step, e)) now)

    progress-Only : (s : System) → Only s → (p : Progress s) → Only p.4
    progress-Only s outside (i, c, rest, now, t, step, e) j le =
        let lt = mover s outside (i, c, rest, now, t, step, e) in ground (arith, outside j le, e)

    -- By recursion on the calls that are left.
    pub finish :
        (fuel : ℕ) {start s : System}
        → pending n s.todo ≤ fuel
        → Only s
        → Inv slot key s
        → Reach slot start s
        → (t : System) × Reach slot start t × Finished t
    finish zero {start} {s} few outside inv r = elim (unfinished n s.todo) [
      | inl all ↦ (s, r, finished s outside all)
      | inr (i, c, rest, now) ↦
          let p = progress inv i c rest now in absurd (omega (arith, progress-pending s outside p))
    ]
    finish (suc fuel) {start} {s} few outside inv r = elim (unfinished n s.todo) [
      | inl all ↦ (s, r, finished s outside all)
      | inr (i, c, rest, now) ↦
          let p = progress inv i c rest now in
          finish fuel (omega (arith, progress-pending s outside p)) (progress-Only s outside p)
            (Step-Inv slot key p.5 inv) (next r p.5)
    ]
