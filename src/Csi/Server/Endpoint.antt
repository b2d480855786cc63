-- ===== src/Csi/Server/Endpoint.antt =====
-- What the parser of endpoints accepts: `ParseEndpoint` of pkg/csi-driver/server.go.
use Prim.Native.Char.{Char, code}
use Prim.Native.String.{◌++◌ as append}
use Prim.Native.String.append.{nil, cons}
use open_cas_csi.Prelude.{
  ◌≡◌, ◌≢◌, refl, ap, ◌∙◌, ◌⊎◌, inl, inr, ℕ, String, true, false, Option, none, some, List, [], ◌∷◌,
  ◌++◌, ◌==◌, arith, is_some,
}
use text.Mathlib.TextEquality.{Char-path}
use open_cas_csi.World.{World, History}
use open_cas_csi.Effect.{err, Outcome, ok, panic, ◌>>=◌}
use open_cas_csi.Csi.Controller.{to_lower}
use open_cas_csi.Csi.Server.{
  has_lower_prefix, after_separator, push_first, cut_here, split_scheme, parse_endpoint,
}

abbrev slash : Char
slash = "/"

abbrev colon : Char
colon = ":"

separator_chars :
    (c d x : Char) (s rest : String)
    → after_separator (String.◌∷◌ c (String.◌∷◌ d (String.◌∷◌ x s))) ≡ some rest
    → (code c ≡ 58) × (code d ≡ 47) × (code x ≡ 47) × (s ≡ rest)
unfolding after_separator
separator_chars c d x s rest e = ground arith

after_separator-append : (s rest : String) → after_separator s ≡ some rest → s ≡ append "://" rest
unfolding after_separator
after_separator-append String.[] rest e = cc
after_separator-append (String.◌∷◌ c String.[]) rest e = cc
after_separator-append (String.◌∷◌ c (String.◌∷◌ d String.[])) rest e = cc
after_separator-append (String.◌∷◌ c (String.◌∷◌ d (String.◌∷◌ x s))) rest e =
    let chars = separator_chars c d x s rest e in
    ap (λ t. String.◌∷◌ c (String.◌∷◌ d (String.◌∷◌ x t))) chars.3
    ∙ ap (λ t. String.◌∷◌ c (String.◌∷◌ d (String.◌∷◌ t rest))) (Char-path x slash chars.2)
    ∙ ap (λ t. String.◌∷◌ c (String.◌∷◌ t (String.◌∷◌ slash rest))) (Char-path d slash chars.1)
    ∙ ap (λ t. String.◌∷◌ t (String.◌∷◌ slash (String.◌∷◌ slash rest))) (Char-path c colon chars.0)
    ∙ rw (cons, cons, cons, nil) refl

-- The cut is at this place, or a later one.
cut_here-cases :
    (c : Char) (o : Option String) (later : Option (String × String)) (scheme rest : String)
    → cut_here o (push_first c later) ≡ some (scheme, rest)
    → ((scheme ≡ "") × (o ≡ some rest))
      ⊎ ((t : String) × (scheme ≡ String.◌∷◌ c t) × (later ≡ some (t, rest)))
cut_here-cases c (some r) later scheme rest e = inl (cc, cc)
cut_here-cases c none none scheme rest e = cc
cut_here-cases c none (some p) scheme rest e = inr (p.0, cc, cc)

cut_here-is_some :
    (c : Char) (o : Option String) (later : Option (String × String))
    → is_some later ≡ true
    → is_some (cut_here o (push_first c later)) ≡ true
cut_here-is_some c (some r) later e = refl
cut_here-is_some c none none e = cc
cut_here-is_some c none (some p) e = refl

split_scheme-append :
    (s scheme rest : String)
    → split_scheme s ≡ some (scheme, rest)
    → s ≡ append scheme (append "://" rest)
unfolding split_scheme
split_scheme-append String.[] scheme rest e = cc
split_scheme-append (String.◌∷◌ c s) scheme rest e =
    elim (cut_here-cases c (after_separator (String.◌∷◌ c s)) (split_scheme s) scheme rest e) [
      | inl here ↦ rw (here.0, nil) (after_separator-append _ rest here.1)
      | inr (t, is_scheme, later) ↦
          rw (is_scheme, cons) (ap (λ u. String.◌∷◌ c u) (split_scheme-append s t rest later))
    ]

separator_lem :
    (s : String) → has_lower_prefix (58 ∷ 47 ∷ 47 ∷ []) s ≡ true → is_some (split_scheme s) ≡ true
unfolding split_scheme after_separator has_lower_prefix to_lower
separator_lem String.[] e = cc
separator_lem (String.◌∷◌ c String.[]) e = ground arith
separator_lem (String.◌∷◌ c (String.◌∷◌ d String.[])) e = ground arith
separator_lem (String.◌∷◌ c (String.◌∷◌ d (String.◌∷◌ x s))) e = ground arith

later_lem :
    (c : Char) (s : String)
    → is_some (split_scheme s) ≡ true
    → is_some (split_scheme (String.◌∷◌ c s)) ≡ true
unfolding split_scheme
later_lem c s e = cut_here-is_some c (after_separator (String.◌∷◌ c s)) (split_scheme s) e

-- A text that starts with a scheme and a separator is cut somewhere.
prefix_lem :
    (scheme : List ℕ) (s : String)
    → has_lower_prefix (scheme ++ 58 ∷ 47 ∷ 47 ∷ []) s ≡ true
    → is_some (split_scheme s) ≡ true
unfolding has_lower_prefix
prefix_lem [] s e = separator_lem s e
prefix_lem (p ∷ ps) String.[] e = cc
prefix_lem (p ∷ ps) (String.◌∷◌ c s) e = later_lem c s (prefix_lem ps s (ground arith))

parse_endpoint-split_scheme :
    (endpoint scheme address : String) (w : World) (h : History)
    → (parse_endpoint endpoint w h).0 ≡ ok (scheme, address)
    → (split_scheme endpoint ≡ some (scheme, address)) × ((address == "") ≡ false)
unfolding parse_endpoint ◌>>=◌
parse_endpoint-split_scheme endpoint scheme address w h e = ground arith

abbrev unix_scheme : List ℕ
unix_scheme = 117 ∷ 110 ∷ 105 ∷ 120 ∷ []

abbrev tcp_scheme : List ℕ
tcp_scheme = 116 ∷ 99 ∷ 112 ∷ []

parse_endpoint-not_panic :
    (endpoint : String) (w : World) (h : History) → (parse_endpoint endpoint w h).0 ≢ panic
unfolding parse_endpoint ◌>>=◌
parse_endpoint-not_panic endpoint w h e =
    ground (arith, prefix_lem unix_scheme endpoint, prefix_lem tcp_scheme endpoint)

-- What an endpoint is cut into: a scheme and an address that is not empty.
abbrev pub IsCut : (endpoint : String) → Outcome String (String × String) → Type 0
IsCut endpoint (ok (scheme, address)) =
    (endpoint ≡ append scheme (append "://" address)) × ((address == "") ≡ false)
IsCut endpoint (err _) = Unit
IsCut endpoint panic = ⊥

cut_lem :
    (endpoint : String) (w : World) (h : History) (o : Outcome String (String × String))
    → (parse_endpoint endpoint w h).0 ≡ o
    → IsCut endpoint o
cut_lem endpoint w h (ok (scheme, address)) e =
    let parts = parse_endpoint-split_scheme endpoint scheme address w h e in
    (split_scheme-append endpoint scheme address parts.0, parts.1)
cut_lem endpoint w h (err text) e = tt
cut_lem endpoint w h panic e = parse_endpoint-not_panic endpoint w h e

-- An endpoint is refused, or it is the scheme and the address that are returned with "://" between them, and
-- the address is not empty. No endpoint makes the parser read a part that is not there.
pub parse_endpoint-IsCut :
    (endpoint : String) (w : World) (h : History) → IsCut endpoint (parse_endpoint endpoint w h).0
parse_endpoint-IsCut endpoint w h = cut_lem endpoint w h _ refl
