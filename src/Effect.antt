-- ===== src/Effect.antt =====
-- Go functions that call the world: they return, return an error, or panic.
use open_cas_csi.Prelude.{String, Bool, Option, none, some, List, [], ◌∷◌, if◌then◌else◌}
use open_cas_csi.Prelude.Dict.{Dict}
use open_cas_csi.World.{
  World, History, Call, Response, Found, found, not_found, failed, RunResult, exited, not_started,
  Output,
}

pub data Outcome (E A : Type 0) : Type 0 where
  ok : A → Outcome E A
  err : E → Outcome E A
  panic : Outcome E A

-- What was called stays called, whatever the outcome.
abbrev pub M : Type 0 → Type 0 → Type 0
M E A = World → History → Outcome E A × History

-- `x, err := f()`: the error becomes a value of the caller.
pub data Try (E A : Type 0) : Type 0 where
  value : A → Try E A
  error : E → Try E A

module _ {E A : Type 0} where
  unfoldable pub pure : A → M E A
  pure a w h = (ok a, h)

  unfoldable pub fail : E → M E A
  fail e w h = (err e, h)

  -- A nil dereference or an index out of range.
  unfoldable pub crash : M E A
  crash w h = (panic, h)

  -- `defer c`: the call is made when the function ends, however it ends.
  unfoldable pub deferring : Call → M E A → M E A
  deferring c m w h = ((m w h).0, c ∷ (m w h).1)

  -- `mutex.LockKey(key); defer mutex.UnlockKey(key)`
  unfoldable pub locked : String → M E A → M E A
  locked key m w h = ((m w (Call.lock key ∷ h)).0, Call.unlock key ∷ (m w (Call.lock key ∷ h)).1)

-- One request to the world.
unfoldable pub call : {E : Type 0} (c : Call) → M E (Response c)
call c w h = (ok (w.answer h c), c ∷ h)

-- The environment and the settings are read through the world itself.
unfoldable pub ask : {E : Type 0} → M E World
ask w h = (ok w, h)

-- The entries of a map in the order in which `range` visits them.
unfoldable pub range_over : {E : Type 0} → Dict String → M E (Dict String)
range_over m w h = (ok (w.range h m), h)

-- `if c { return err }`
unfoldable pub fail_if : {E : Type 0} → Bool → E → M E (Unit {0})
fail_if c e w h = (if c then err e else ok tt, h)

abbrev check : {X E : Type 0} → Option X → E → Outcome E (Unit {0})
check none e = ok tt
check (some _) e = err e

-- `if err != nil { return … }`
unfoldable pub fail_on : {X E : Type 0} → Option X → E → M E (Unit {0})
fail_on x e w h = (check x e, h)

abbrev as_outcome : {E : Type 0} → Option E → Outcome E (Unit {0})
as_outcome none = ok tt
as_outcome (some e) = err e

-- `return err`
unfoldable pub return_error : {E : Type 0} → Option E → M E (Unit {0})
return_error e w h = (as_outcome e, h)

module _ {E F A : Type 0} where
  abbrev as_try : Outcome E A → Outcome F (Try E A)
  as_try (ok a) = ok (value a)
  as_try (err e) = ok (error e)
  as_try panic = panic

  unfoldable pub attempt : M E A → M F (Try E A)
  attempt m w h = (as_try (m w h).0, (m w h).1)

  abbrev recode : Outcome E A → F → Outcome F A
  recode (ok a) e = ok a
  recode (err _) e = err e
  recode panic e = panic

  -- `if err != nil { return nil, status.Error(…) }`, whatever the error says.
  unfoldable pub or_fail : M E A → F → M F A
  or_fail m e w h = (recode (m w h).0 e, (m w h).1)

  abbrev relabel : (E → F) → Outcome E A → Outcome F A
  relabel f (ok a) = ok a
  relabel f (err e) = err (f e)
  relabel f panic = panic

  unfoldable pub relay : (E → F) → M E A → M F A
  relay f m w h = (relabel f (m w h).0, (m w h).1)

  abbrev as_ignored : Outcome E A → Outcome F (Unit {0})
  as_ignored (ok _) = ok tt
  as_ignored (err _) = ok tt
  as_ignored panic = panic

  -- `f()` where the error that it returns is not read.
  unfoldable pub ignoring : M E A → M F (Unit {0})
  ignoring m w h = (as_ignored (m w h).0, (m w h).1)

-- Branching on a value: `if x != nil`, the error of a `Get`, the end of a command.
module _ {E A X : Type 0} where
  unfoldable pub on_option : Option X → M E A → (X → M E A) → M E A
  on_option none m f = m
  on_option (some x) m f = f x

  unfoldable pub on_list : List X → M E A → (X → List X → M E A) → M E A
  on_list [] m f = m
  on_list (x ∷ xs) m f = f x xs

  unfoldable pub on_found : Found X → (X → M E A) → M E A → (String → M E A) → M E A
  on_found (found x) f m g = f x
  on_found not_found f m g = m
  on_found (failed text) f m g = g text

  unfoldable pub on_try : {F : Type 0} → Try F X → (X → M E A) → (F → M E A) → M E A
  on_try (value x) f g = f x
  on_try (error e) f g = g e

module _ {E A : Type 0} where
  unfoldable pub on_run : RunResult → (Output → M E A) → M E A → M E A
  on_run (exited o) f m = f o
  on_run not_started f m = m

module _ {A : Type 0} where
  abbrev merge : Outcome A A → Outcome A A
  merge (ok a) = ok a
  merge (err a) = ok a
  merge panic = panic

  -- A body whose early returns are errors of the monad.
  unfoldable pub returning : M A A → M A A
  returning m w h = (merge (m w h).0, (m w h).1)

module _ {E A B : Type 0} where
  abbrev pub continue : Outcome E A → (A → M E B) → M E B
  continue (ok a) f w h = f a w h
  continue (err e) f w h = (err e, h)
  continue panic f w h = (panic, h)

  infixl 5 ◌>>=◌ ◌>>◌
  -- Opening this opens the other ways to build a function too.
  unfoldable pub ◌>>=◌ : M E A → (A → M E B) → M E B
  unfolding pure fail crash deferring locked call ask range_over fail_if fail_on return_error
      attempt or_fail relay ignoring returning on_option on_list on_found on_try on_run
  ◌>>=◌ m f w h = continue (m w h).0 f w (m w h).1

  abbrev pub ◌>>◌ : M E A → M E B → M E B
  m >> k = m >>= λ _. k
