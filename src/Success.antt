-- ===== src/Success.antt =====
-- What the success of a sequence of calls says about its parts.
use open_cas_csi.Prelude.{◌≡◌, refl, ◌∷◌, String, arith}
use open_cas_csi.World.{World, History, Call}
use open_cas_csi.Effect.{M, ok, err, panic, ◌>>=◌, continue, locked, or_fail}

-- A successful sequence has a successful beginning and a successful rest, with which it ends.
pub bind-ok :
    {E A B : Type 0} (m : M E A) (f : A → M E B) (w : World) (h : History) (b : B)
    → ((m >>= f) w h).0 ≡ ok b
    → (a : A) × ((m w h).0 ≡ ok a)
      × ((f a w (m w h).1).0 ≡ ok b)
      × (((m >>= f) w h).1 ≡ (f a w (m w h).1).1)
unfolding ◌>>=◌
bind-ok {E = E} {A = A} {B = B} m f w h b =
    elim (m w h).0
      as (λ r.
        (continue r f w (m w h).1).0 ≡ ok b
        → (a : A) × (r ≡ ok a)
          × ((f a w (m w h).1).0 ≡ ok b)
          × ((continue r f w (m w h).1).1 ≡ (f a w (m w h).1).1)) [
            | ok a ↦ λ e. (a, refl, e, refl)
            | err e' ↦ λ e. cc
            | panic ↦ λ e. cc
          ]

pub locked-ok :
    {E A : Type 0} (key : String) (m : M E A) (w : World) (h : History) (a : A)
    → (locked key m w h).0 ≡ ok a
    → (m w (Call.lock key ∷ h)).0 ≡ ok a
unfolding locked
locked-ok key m w h a e = e

pub ok-bind :
    {E A B : Type 0} (m : M E A) (f : A → M E B) (w : World) (h : History) (a : A) (b : B)
    → (m w h).0 ≡ ok a
    → (f a w (m w h).1).0 ≡ ok b
    → ((m >>= f) w h).0 ≡ ok b
unfolding ◌>>=◌
ok-bind m f w h a b first rest = rw first rest

pub locked-unlock :
    {E A : Type 0} (key : String) (m : M E A) (w : World) (h : History)
    → (locked key m w h).1 ≡ Call.unlock key ∷ (m w (Call.lock key ∷ h)).1
unfolding locked
locked-unlock key m w h = refl

pub or_fail-ok :
    {E F A : Type 0} (m : M E A) (e : F) (w : World) (h : History) (a : A)
    → (or_fail m e w h).0 ≡ ok a
    → ((m w h).0 ≡ ok a) × ((or_fail m e w h).1 ≡ (m w h).1)
unfolding or_fail
or_fail-ok m e w h a is = (ground arith, refl)
