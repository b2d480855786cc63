-- ===== src/Keeps.antt =====
-- Invariants of the calls that a function makes: rules for each way to build a function, by which
-- `search` walks a whole handler.
use open_cas_csi.Prelude.{
  ◌≡◌, refl, String, Bool, List, [], true, false, Option, none, some, ◌∷◌, if◌then◌else◌,
}
use open_cas_csi.Prelude.Dict.{Dict}
use open_cas_csi.World.{
  World, History, Call, Found, found, not_found, failed, RunResult, exited, not_started, Output,
}
use open_cas_csi.Effect.{
  M, Try, value, error, ok, err, panic, Outcome, pure, fail, crash, deferring, locked, call, ask,
  range_over, fail_if, fail_on, return_error, attempt, or_fail, relay, ignoring, returning,
  continue, on_option, on_list, on_found, on_try, on_run, ◌>>=◌,
}

-- `m` keeps `P`, however it ends.
pub record Keeps {E A : Type 0} (P : World → History → Type 0) (m : M E A) : Type 0 where
  pub at : (w : World) (h : History) → P w h → P w (m w h).1

-- One more call `c` keeps `P`.
pub record Allows (P : World → History → Type 0) (c : Call) : Type 0 where
  pub step : (w : World) (h : History) → P w h → P w (c ∷ h)

module _ {P : World → History → Type 0} {E A : Type 0} where
  pub Keeps-pure : (a : A) → Keeps P (pure {E = E} a)
  unfolding pure
  Keeps-pure a = record { at = λ w h p. p }

  pub Keeps-fail : (e : E) → Keeps P (fail {A = A} e)
  unfolding fail
  Keeps-fail e = record { at = λ w h p. p }

  pub Keeps-crash : Keeps P (crash {E = E} {A = A})
  unfolding crash
  Keeps-crash = record { at = λ w h p. p }

  pub Keeps-deferring : (c : Call) (m : M E A) → Allows P c → Keeps P m → Keeps P (deferring c m)
  unfolding deferring
  Keeps-deferring c m a k = record { at = λ w h p. a.step w (m w h).1 (k.at w h p) }

  pub Keeps-locked :
      (key : String) (m : M E A)
      → Allows P (Call.lock key)
      → Allows P (Call.unlock key)
      → Keeps P m
      → Keeps P (locked key m)
  unfolding locked
  Keeps-locked key m l u k = record {
    at = λ w h p. u.step w (m w (Call.lock key ∷ h)).1 (k.at w (Call.lock key ∷ h) (l.step w h p));
  }

  pub Keeps-if :
      (test : Bool) (taken skipped : M E A)
      → (test ≡ true → Keeps P taken)
      → (test ≡ false → Keeps P skipped)
      → Keeps P (if test then taken else skipped)
  Keeps-if true taken skipped of_yes of_no = of_yes refl
  Keeps-if false taken skipped of_yes of_no = of_no refl

module _ {P : World → History → Type 0} {E A X : Type 0} where
  pub Keeps-on_option :
      (o : Option X) (m : M E A) (f : X → M E A)
      → Keeps P m
      → ((x : X) → Keeps P (f x))
      → Keeps P (on_option o m f)
  unfolding on_option
  Keeps-on_option none m f km kf = km
  Keeps-on_option (some x) m f km kf = kf x

  pub Keeps-on_list :
      (l : List X) (m : M E A) (f : X → List X → M E A)
      → Keeps P m
      → ((x : X) (xs : List X) → Keeps P (f x xs))
      → Keeps P (on_list l m f)
  unfolding on_list
  Keeps-on_list [] m f km kf = km
  Keeps-on_list (x ∷ xs) m f km kf = kf x xs

  pub Keeps-on_found :
      (r : Found X) (f : X → M E A) (m : M E A) (g : String → M E A)
      → ((x : X) → Keeps P (f x))
      → Keeps P m
      → ((text : String) → Keeps P (g text))
      → Keeps P (on_found r f m g)
  unfolding on_found
  Keeps-on_found (found x) f m g kf km kg = kf x
  Keeps-on_found not_found f m g kf km kg = km
  Keeps-on_found (failed text) f m g kf km kg = kg text

  pub Keeps-on_try :
      {F : Type 0} (r : Try F X) (f : X → M E A) (g : F → M E A)
      → ((x : X) → Keeps P (f x))
      → ((e : F) → Keeps P (g e))
      → Keeps P (on_try r f g)
  unfolding on_try
  Keeps-on_try (value x) f g kf kg = kf x
  Keeps-on_try (error e) f g kf kg = kg e

module _ {P : World → History → Type 0} {E : Type 0} where
  pub Keeps-on_run :
      {A : Type 0} (r : RunResult) (f : Output → M E A) (m : M E A)
      → ((o : Output) → Keeps P (f o))
      → Keeps P m
      → Keeps P (on_run r f m)
  unfolding on_run
  Keeps-on_run (exited o) f m kf km = kf o
  Keeps-on_run not_started f m kf km = km

  pub Keeps-call : (c : Call) → Allows P c → Keeps P (call {E = E} c)
  unfolding call
  Keeps-call c a = record { at = a.step }

  pub Keeps-ask : Keeps P (ask {E = E})
  unfolding ask
  Keeps-ask = record { at = λ w h p. p }

  pub Keeps-range_over : (m : Dict String) → Keeps P (range_over {E = E} m)
  unfolding range_over
  Keeps-range_over m = record { at = λ w h p. p }

  pub Keeps-fail_if : (c : Bool) (e : E) → Keeps P (fail_if c e)
  unfolding fail_if
  Keeps-fail_if c e = record { at = λ w h p. p }

  pub Keeps-fail_on : {X : Type 0} (x : Option X) (e : E) → Keeps P (fail_on x e)
  unfolding fail_on
  Keeps-fail_on x e = record { at = λ w h p. p }

  pub Keeps-return_error : (e : Option E) → Keeps P (return_error e)
  unfolding return_error
  Keeps-return_error e = record { at = λ w h p. p }

module _ {P : World → History → Type 0} {E F A : Type 0} where
  pub Keeps-attempt : (m : M E A) → Keeps P m → Keeps P (attempt {F = F} m)
  unfolding attempt
  Keeps-attempt m k = record { at = k.at }

  pub Keeps-or_fail : (m : M E A) (e : F) → Keeps P m → Keeps P (or_fail m e)
  unfolding or_fail
  Keeps-or_fail m e k = record { at = k.at }

  pub Keeps-relay : (f : E → F) (m : M E A) → Keeps P m → Keeps P (relay f m)
  unfolding relay
  Keeps-relay f m k = record { at = k.at }

  pub Keeps-ignoring : (m : M E A) → Keeps P m → Keeps P (ignoring {F = F} m)
  unfolding ignoring
  Keeps-ignoring m k = record { at = k.at }

module _ {P : World → History → Type 0} {A : Type 0} where
  pub Keeps-returning : (m : M A A) → Keeps P m → Keeps P (returning m)
  unfolding returning
  Keeps-returning m k = record { at = k.at }

module _ {P : World → History → Type 0} {E A B : Type 0} where
  continue_at :
      (r : Outcome E A) (f : A → M E B) (w : World) (h : History)
      → ((a : A) → Keeps P (f a))
      → P w h
      → P w (continue r f w h).1
  continue_at (ok a) f w h k p = (k a).at w h p
  continue_at (err e) f w h k p = p
  continue_at panic f w h k p = p

  pub Keeps-bind :
      (first : M E A) (next : A → M E B)
      → Keeps P first
      → ((a : A) → Keeps P (next a))
      → Keeps P (first >>= next)
  unfolding ◌>>=◌
  Keeps-bind first next of_first of_next = record {
    at = λ w h p. continue_at (first w h).0 next w (first w h).1 of_next (of_first.at w h p);
  }

pub ruleset keeps_rules = (
  Keeps-pure, Keeps-fail, Keeps-crash, Keeps-deferring, Keeps-locked, Keeps-if, Keeps-call,
  Keeps-ask, Keeps-range_over, Keeps-fail_if, Keeps-fail_on, Keeps-return_error, Keeps-attempt,
  Keeps-or_fail, Keeps-relay, Keeps-ignoring, Keeps-returning, Keeps-bind, Keeps-on_option,
  Keeps-on_list, Keeps-on_found, Keeps-on_try, Keeps-on_run,
)
