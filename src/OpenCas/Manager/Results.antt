-- ===== src/OpenCas/Manager/Results.antt =====
-- What a successful return of the manager's methods says: pkg/opencas/api.go.
use open_cas_csi.Prelude.{
  ◌≡◌, refl, sym, ◌∙◌, ap, ℕ, String, false, Option, none, some, List, [], ◌∷◌, ◌==◌, if◌then◌else◌,
  arith, All,
}
use text.Mathlib.TextEquality.{eq_iff}
use open_cas_csi.Prelude.Int.{ℤ, eq_int_iff}
use open_cas_csi.World.{World, History}
use open_cas_csi.Effect.{M, ok, ◌>>=◌, on_option, pure, fail}
use open_cas_csi.Success.{bind-ok}
use open_cas_csi.OpenCas.CacheList.{Cache}
use open_cas_csi.OpenCas.Manager.{
  OpenCas, new_open_cas_manager, find_by_device, find_by_id, list_caches, start_cache, stop_cache,
  set_cache_mode, Error, still_in_list, not_in_list, mode_not_changed,
}

find_by_device-path :
    (path : String) (cs : List Cache) (c : Cache)
    → find_by_device path cs ≡ some c
    → c.device_path ≡ path
unfolding find_by_device
find_by_device-path path [] c e = cc
find_by_device-path path (d ∷ cs) c e =
    ground (arith, eq_iff d.device_path path, find_by_device-path path cs c)

-- When starting a cache on a device succeeds, the cache that it returns is on this device.
pub start_cache-device_path :
    (cas : OpenCas) (path mode : String) (cls : ℕ) (w : World) (h : History) (c : Cache)
    → (start_cache cas path mode cls w h).0 ≡ ok c
    → c.device_path ≡ path
unfolding start_cache ◌>>=◌
start_cache-device_path cas path mode cls w h c e = grind (arith, find_by_device-path path)

-- No cache of the list is on the device.
abbrev pub NoneOn : (path : String) → List Cache → Type 0
NoneOn path cs = All (λ c. (c.device_path == path) ≡ false) cs

find_by_device-NoneOn :
    (path : String) (cs : List Cache) → find_by_device path cs ≡ none → NoneOn path cs
unfolding find_by_device
find_by_device-NoneOn path [] e = tt
find_by_device-NoneOn path (d ∷ cs) e = ground (arith, find_by_device-NoneOn path cs)

-- The calls so far end with a listing of the caches whose answer satisfies `P`.
abbrev pub EndsWithList : (List Cache → Type 0) → OpenCas → World → History → Type 0
EndsWithList P cas w end =
    (h : History) × (cs : List Cache) × ((list_caches cas w h).0 ≡ ok cs)
    × ((list_caches cas w h).1 ≡ end)
    × P cs

abbrev stop_check : (path cmd : String) → List Cache → M Error Unit
stop_check path cmd cs =
    on_option (find_by_device path cs) (pure tt) (λ _. fail (still_in_list cmd))

stop_check-NoneOn :
    (path cmd : String) (cs : List Cache) (w : World) (h : History)
    → (stop_check path cmd cs w h).0 ≡ ok tt
    → NoneOn path cs × ((stop_check path cmd cs w h).1 ≡ h)
unfolding ◌>>=◌
stop_check-NoneOn path cmd cs w h e = ground (arith, find_by_device-NoneOn path cs)

-- When stopping a cache succeeds, its calls end with a listing of the caches in which no cache is on
-- the stopped cache's device.
pub stop_cache-NoneOn :
    (cas : OpenCas) (c : Cache) (w : World) (h : History)
    → (stop_cache cas c w h).0 ≡ ok tt
    → EndsWithList (NoneOn c.device_path) cas w (stop_cache cas c w h).1
unfolding stop_cache
stop_cache-NoneOn cas c w h e =
    let ran = bind-ok _ _ w h tt e in
    let checked = bind-ok _ _ w _ tt ran.2 in
    let listed = bind-ok _ _ w _ tt checked.2 in
    let stopped = stop_check-NoneOn c.device_path _ listed.0 w _ listed.2 in
    (_, listed.0, listed.1, sym (ran.3 ∙ checked.3 ∙ listed.3 ∙ stopped.1), stopped.0)

-- The first cache with the id has the mode.
abbrev pub HasMode : ℤ → (mode : String) → List Cache → Type 0
HasMode id mode cs =
    (c : Cache) × (find_by_id id cs ≡ some c) × (c.cache_id ≡ id) × (c.cache_mode ≡ mode)

find_by_id-id : (id : ℤ) (cs : List Cache) (c : Cache) → find_by_id id cs ≡ some c → c.cache_id ≡ id
unfolding find_by_id
find_by_id-id id [] c e = cc
find_by_id-id id (d ∷ cs) c e = ground (arith, eq_int_iff d.cache_id id, find_by_id-id id cs c)

abbrev mode_check : (mode cmd : String) → Option Cache → M Error Unit
mode_check mode cmd o =
    on_option o (fail (not_in_list cmd))
      (λ cache. if cache.cache_mode == mode then pure tt else fail (mode_not_changed cmd))

mode_check-HasMode :
    (id : ℤ) (mode cmd : String) (cs : List Cache) (o : Option Cache) (w : World) (h : History)
    → find_by_id id cs ≡ o
    → (mode_check mode cmd o w h).0 ≡ ok tt
    → HasMode id mode cs × ((mode_check mode cmd o w h).1 ≡ h)
unfolding ◌>>=◌
mode_check-HasMode id mode cmd cs none w h found e = cc
mode_check-HasMode id mode cmd cs (some c) w h found e = (
  (c, found, find_by_id-id id cs c found, ground (arith, eq_iff c.cache_mode mode)),
  ground arith,
)

-- When changing a cache's mode succeeds, its calls end with a listing of the caches in which the
-- first cache with this id has the mode that was asked for.
pub set_cache_mode-HasMode :
    (cas : OpenCas) (c : Cache) (mode : String) (w : World) (h : History)
    → (set_cache_mode cas c mode w h).0 ≡ ok tt
    → EndsWithList (HasMode c.cache_id mode) cas w (set_cache_mode cas c mode w h).1
unfolding set_cache_mode
set_cache_mode-HasMode cas c mode w h e =
    let ran = bind-ok _ _ w h tt e in
    let checked = bind-ok _ _ w _ tt ran.2 in
    let listed = bind-ok _ _ w _ tt checked.2 in
    let set = mode_check-HasMode c.cache_id mode _ listed.0 _ w _ refl listed.2 in
    (_, listed.0, listed.1, sym (ran.3 ∙ checked.3 ∙ listed.3 ∙ set.1), set.0)

-- The first cache of the list that is on the device.
abbrev pub FoundOn : (path : String) → Cache → List Cache → Type 0
FoundOn path c cs = (find_by_device path cs ≡ some c) × (c.device_path ≡ path)

abbrev start_check : (cmd : String) → Option Cache → M Error Cache
start_check cmd o = on_option o (fail (not_in_list cmd)) (λ cache. pure cache)

start_check-FoundOn :
    (path cmd : String) (cs : List Cache) (o : Option Cache) (w : World) (h : History) (c : Cache)
    → find_by_device path cs ≡ o
    → (start_check cmd o w h).0 ≡ ok c
    → FoundOn path c cs × ((start_check cmd o w h).1 ≡ h)
unfolding ◌>>=◌
start_check-FoundOn path cmd cs none w h c found e = cc
start_check-FoundOn path cmd cs (some d) w h c found e =
    let same : d ≡ c = cc in
    ((found ∙ ap some same, find_by_device-path path cs c (found ∙ ap some same)), ground arith)

-- When starting a cache on a device succeeds, its calls end with a listing of the caches in which the
-- cache that it returns is the first on this device.
pub start_cache-FoundOn :
    (cas : OpenCas) (path mode : String) (cls : ℕ) (w : World) (h : History) (c : Cache)
    → (start_cache cas path mode cls w h).0 ≡ ok c
    → EndsWithList (FoundOn path c) cas w (start_cache cas path mode cls w h).1
unfolding start_cache
start_cache-FoundOn cas path mode cls w h c e =
    let ran = bind-ok _ _ w h c e in
    let checked = bind-ok _ _ w _ c ran.2 in
    let listed = bind-ok _ _ w _ c checked.2 in
    let found = start_check-FoundOn path _ listed.0 _ w _ c refl listed.2 in
    (_, listed.0, listed.1, sym (ran.3 ∙ checked.3 ∙ listed.3 ∙ found.1), found.0)

-- The manager that is made is the one of the node and the namespace.
pub new_open_cas_manager-same :
    (node_id ns : String) (w : World) (h : History) (cas : OpenCas)
    → (new_open_cas_manager node_id ns w h).0 ≡ ok cas
    → record { node_id = node_id; namespace = ns } ≡ cas
unfolding new_open_cas_manager ◌>>=◌
new_open_cas_manager-same node_id ns w h cas e = ground arith
