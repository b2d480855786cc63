-- ===== src/Csi/Server.antt =====
-- pkg/csi-driver/server.go: the endpoint that the driver listens at.
pub mod Endpoint
use Prim.Native.Char.{Char, code}
use Prim.Native.String.{◌++◌ as append}
use open_cas_csi.Prelude.{
  ℕ, String, Bool, true, false, Option, none, some, List, [], ◌∷◌, ◌==◌, eqb, ◌&&◌, ◌||◌,
  if◌then◌else◌,
}
use open_cas_csi.World.{Call, OsError}
use open_cas_csi.Effect.{M, pure, fail, crash, ◌>>=◌, ◌>>◌, call, fail_if, fail_on, on_option}
use open_cas_csi.Utils.{is_real}
use open_cas_csi.Csi.Controller.{to_lower}
use open_cas_csi.Csi.Driver.{Config, CsiDriver, new_csi_driver}

-- `strings.HasPrefix(strings.ToLower(s), prefix)`, with the prefix as code points
unfoldable pub has_lower_prefix : (prefix : List ℕ) → String → Bool
has_lower_prefix [] s = true
has_lower_prefix (p ∷ ps) String.[] = false
has_lower_prefix (p ∷ ps) (String.◌∷◌ c s) = eqb (to_lower (code c)) p && has_lower_prefix ps s

-- What follows "://" at the head of the text.
unfoldable pub after_separator : String → Option String
after_separator (String.◌∷◌ c (String.◌∷◌ d (String.◌∷◌ e s))) =
    if eqb (code c) 58 && (eqb (code d) 47 && eqb (code e) 47) then some s else none
after_separator _ = none

abbrev push_first : Char → Option (String × String) → Option (String × String)
push_first c none = none
push_first c (some (s, rest)) = some (String.◌∷◌ c s, rest)

abbrev cut_here : Option String → Option (String × String) → Option (String × String)
cut_here (some rest) later = some ("", rest)
cut_here none later = later

-- `strings.SplitN(s, "://", 2)`: the two parts, or `none` for one part.
unfoldable pub split_scheme : String → Option (String × String)
split_scheme String.[] = none
split_scheme (String.◌∷◌ c s) =
    cut_here (after_separator (String.◌∷◌ c s)) (push_first c (split_scheme s))

-- "unix://" and "tcp://"
abbrev pub unix_prefix : List ℕ
unix_prefix = 117 ∷ 110 ∷ 105 ∷ 120 ∷ 58 ∷ 47 ∷ 47 ∷ []

abbrev pub tcp_prefix : List ℕ
tcp_prefix = 116 ∷ 99 ∷ 112 ∷ 58 ∷ 47 ∷ 47 ∷ []

-- The second part is read by its index.
unfoldable pub parse_endpoint : String → M String (String × String)
parse_endpoint ep =
    if has_lower_prefix unix_prefix ep || has_lower_prefix tcp_prefix ep
    then on_option (split_scheme ep) crash
        (λ s. if s.1 == "" then fail "invalid endpoint" else pure s)
    else fail "invalid endpoint"

pub data Service : Type 0 where
  identity controller node : Service

-- `serve`, up to the blocking `Serve`: what is registered. `klog.Fatal` ends the process, here an error.
-- The servers arrive as interfaces made from pointers, so none of them is equal to nil, and all three
-- are registered.
unfoldable pub serve : (endpoint : String) → M String (List Service)
serve endpoint = do
  ep ← parse_endpoint endpoint
  let addr = if ep.0 == "unix" then append "/" ep.1 else ep.1
  if ep.0 == "unix"
      then (do removed ← call (Call.os_remove addr); fail_if (is_real removed) "failed to remove")
      else pure tt
  refused ← call (Call.listen ep.0 addr)
  fail_on refused "failed to listen"
  pure (identity ∷ controller ∷ node ∷ [])

-- `Run`, up to the blocking `Wait`: the services that are offered.
unfoldable pub run : CsiDriver → M String (List Service)
run driver = serve driver.config.endpoint

-- `Main` of main.go after the flags are read: what its exit code 0 and 1 stand for.
unfoldable pub start : Config → (version : String) → M String (List Service)
start cfg version = do driver ← new_csi_driver (record cfg { vendor_version = version }); run driver

-- `getLogLevel`
unfoldable pub get_log_level : (method : String) → ℕ
get_log_level method =
    if method == "/csi.v1.Identity/Probe"
      || (method == "/csi.v1.Node/NodeGetCapabilities"
          || method == "/csi.v1.Node/NodeGetVolumeStats")
    then 8
    else 2
