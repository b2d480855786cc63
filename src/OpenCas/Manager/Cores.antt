-- ===== src/OpenCas/Manager/Cores.antt =====
-- What a successful `AddCore` or `RemoveCore` of pkg/opencas/api.go says of the listing and of the device.
use Prim.Native.String.{◌++◌ as append}
use open_cas_csi.Prelude.{
  ◌≡◌, refl, sym, ◌∙◌, String, Bool, true, false, Option, none, some, List, [], ◌∷◌, ◌⊎◌,
  if◌then◌else◌, arith, All,
}
use open_cas_csi.Prelude.Dict.{lookup}
use open_cas_csi.World.{World, History, Call, RunResult, exited, not_started}
use open_cas_csi.Effect.{M, ok, ◌>>=◌, on_option, pure, fail}
use open_cas_csi.Success.{bind-ok}
use open_cas_csi.Utils.{exec_local_command}
use open_cas_csi.OpenCas.CacheList.{Cache, CachedVolume}
use open_cas_csi.OpenCas.Manager.{
  OpenCas, Error, is_zero, find_volume, list_caches, get_volume_from_cache_list,
  is_device_in_system, add_core, remove_core, not_in_list, not_in_system, still_in_list,
  still_in_system,
}

-- Some cache of the list has this volume for the backend.
abbrev pub HasVolume : (backend : String) → CachedVolume → List Cache → Type 0
HasVolume backend v [] = ⊥
HasVolume backend v (c ∷ cs) = (lookup backend c.volumes ≡ some v) ⊎ HasVolume backend v cs

-- No cache of the list has a volume for the backend.
abbrev pub NoVolume : (backend : String) → List Cache → Type 0
NoVolume backend cs = All (λ c. lookup backend c.volumes ≡ none) cs

find_volume-HasVolume :
    (backend : String) (cs : List Cache) (v : CachedVolume)
    → find_volume backend cs ≡ some v
    → HasVolume backend v cs
unfolding find_volume
find_volume-HasVolume backend [] v e = cc
find_volume-HasVolume backend (c ∷ cs) v e = ground (arith, find_volume-HasVolume backend cs v)

pub find_volume-NoVolume :
    (backend : String) (cs : List Cache) → find_volume backend cs ≡ none → NoVolume backend cs
unfolding find_volume
find_volume-NoVolume backend [] e = tt
find_volume-NoVolume backend (c ∷ cs) e = ground (arith, find_volume-NoVolume backend cs)

-- `ls` was run, and whether its exit status was 0.
abbrev pub Lists : Bool → RunResult → Type 0
Lists b (exited o) = is_zero o.exit_code ≡ b
Lists b not_started = ⊥

-- The calls end with a listing of the caches whose answer satisfies `P`, and then `ls` of the device, which exits with 0
-- exactly if the device should be there.
abbrev pub EndsWithDevice :
    (List Cache → Type 0) → (path : String) → (there : Bool) → OpenCas → World → History → Type 0
EndsWithDevice P path there cas w end =
    (h : History) × (before : History) × (cs : List Cache) × (list_caches cas w h ≡ (ok cs, before))
    × P cs
    × (end ≡ Call.shell (append "ls -1 " path) ∷ before)
    × Lists there (w.answer before (Call.shell (append "ls -1 " path)))

pub listed_lem :
    (cas : OpenCas) (backend : String) (w : World) (h : History) (o : Option CachedVolume)
    → (get_volume_from_cache_list cas backend w h).0 ≡ ok o
    → (cs : List Cache) × (list_caches cas w h
        ≡ (ok cs, (get_volume_from_cache_list cas backend w h).1))
      × (find_volume backend cs ≡ o)
unfolding get_volume_from_cache_list pure
listed_lem cas backend w h o e =
    let listed = bind-ok _ _ w h o e in
    (listed.0, (λ i. (listed.1 i, sym listed.3 i)), ground (arith, listed.2))

answer-Lists :
    (path : String) (w : World) (h : History) (b : Bool) (r : RunResult)
    → w.answer h (Call.shell (append "ls -1 " path)) ≡ r
    → (is_device_in_system path w h).0 ≡ ok b
    → Lists b r
unfolding is_device_in_system exec_local_command ◌>>=◌
answer-Lists path w h b (exited o) is e = ground arith
answer-Lists path w h b not_started is e = ground arith

in_system-Lists :
    (path : String) (w : World) (h : History) (b : Bool)
    → (is_device_in_system path w h).0 ≡ ok b
    → Lists b (w.answer h (Call.shell (append "ls -1 " path)))
      × ((is_device_in_system path w h).1 ≡ Call.shell (append "ls -1 " path) ∷ h)
unfolding is_device_in_system exec_local_command ◌>>=◌
in_system-Lists path w h b e = (answer-Lists path w h b _ refl e, ground arith)

abbrev core_check : (cmd : String) → Option CachedVolume → M Error CachedVolume
core_check cmd listed = on_option listed (fail (not_in_list cmd)) (λ core.
    is_device_in_system core.path >>= λ exists.
    if exists then pure core else fail (not_in_system cmd))

core_check-ok :
    (cmd : String) (listed : Option CachedVolume) (w : World) (h : History) (v : CachedVolume)
    → (core_check cmd listed w h).0 ≡ ok v
    → (listed ≡ some v)
      × ((is_device_in_system v.path w h).0 ≡ ok true)
      × ((core_check cmd listed w h).1 ≡ (is_device_in_system v.path w h).1)
unfolding ◌>>=◌
core_check-ok cmd none w h v e = cc
core_check-ok cmd (some core) w h v e = ground arith

abbrev gone_check : (cmd path : String) → Option CachedVolume → M Error Unit
gone_check cmd path listed =
    on_option listed
      (is_device_in_system path >>= λ exists.
        if exists then fail (still_in_system cmd) else pure tt)
      (λ _. fail (still_in_list cmd))

gone_check-ok :
    (cmd path : String) (listed : Option CachedVolume) (w : World) (h : History)
    → (gone_check cmd path listed w h).0 ≡ ok tt
    → (listed ≡ none)
      × ((is_device_in_system path w h).0 ≡ ok false)
      × ((gone_check cmd path listed w h).1 ≡ (is_device_in_system path w h).1)
unfolding ◌>>=◌
gone_check-ok cmd path none w h e = ground arith
gone_check-ok cmd path (some core) w h e = cc

-- When adding a core succeeds, its calls end with a listing of the caches in which a cache has the
-- volume that is returned for the backend, and with an `ls` that finds the volume's device.
pub add_core-HasVolume :
    (cas : OpenCas) (c : Cache) (path : String) (w : World) (h : History) (v : CachedVolume)
    → (add_core cas c path w h).0 ≡ ok v
    → EndsWithDevice (HasVolume path v) v.path true cas w (add_core cas c path w h).1
unfolding add_core
add_core-HasVolume cas c path w h v e =
    let ran = bind-ok _ _ w h v e in
    let checked = bind-ok _ _ w _ v ran.2 in
    let found = bind-ok _ _ w _ v checked.2 in
    let core = core_check-ok _ found.0 w _ v found.2 in
    let listed = listed_lem cas path w _ found.0 found.1 in
    let there = in_system-Lists v.path w _ true core.1 in
    (
      _,
      _,
      listed.0,
      listed.1,
      find_volume-HasVolume path listed.0 v (listed.2 ∙ core.0),
      ran.3 ∙ checked.3 ∙ found.3 ∙ core.2 ∙ there.1,
      there.0,
    )

-- When removing a core succeeds, its calls end with a listing of the caches in which no cache has a volume for
-- the backend, and with an `ls` that does not find the volume's device.
pub remove_core-NoVolume :
    (cas : OpenCas) (v : CachedVolume) (w : World) (h : History)
    → (remove_core cas v w h).0 ≡ ok tt
    → EndsWithDevice (NoVolume v.backend_path) v.path false cas w (remove_core cas v w h).1
unfolding remove_core
remove_core-NoVolume cas v w h e =
    let ran = bind-ok _ _ w h tt e in
    let checked = bind-ok _ _ w _ tt ran.2 in
    let found = bind-ok _ _ w _ tt checked.2 in
    let gone = gone_check-ok _ v.path found.0 w _ found.2 in
    let listed = listed_lem cas v.backend_path w _ found.0 found.1 in
    let there = in_system-Lists v.path w _ false gone.1 in
    (
      _,
      _,
      listed.0,
      listed.1,
      find_volume-NoVolume v.backend_path listed.0 (listed.2 ∙ gone.0),
      ran.3 ∙ checked.3 ∙ found.3 ∙ gone.2 ∙ there.1,
      there.0,
    )
