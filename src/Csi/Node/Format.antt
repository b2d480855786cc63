-- ===== src/Csi/Node/Format.antt =====
-- Which devices staging formats: pkg/csi-driver/node.go with `PrepareFs` of pkg/utils/utils.go.
use open_cas_csi.Prelude.{
  ◌≡◌, refl, String, Bool, true, false, Option, none, some, List, [], ◌∷◌, ◌==◌, arith,
}
use open_cas_csi.Prelude.Text.{trim_space}
use open_cas_csi.World.{World, History, Call}
use open_cas_csi.Effect.{◌>>=◌, M, locked}
use open_cas_csi.Keeps.{Keeps, Allows, keeps_rules, Keeps-locked}
use open_cas_csi.Utils
use open_cas_csi.Utils.{get_device_fs_type, prepare_fs, make_target}
use open_cas_csi.OpenCas.CacheList.{Cache}
use open_cas_csi.OpenCas.Manager.{OpenCas}
use open_cas_csi.OpenCas.Footprint.{
  is_read, AllowsReads, AllowsCmd, connect-Keeps, new_open_cas_manager-Keeps,
  provide_by_id_link_for_pv-Keeps, get_intermediate_pod_by_name-Keeps, get_cache_instances-Keeps,
  get_volume_from_cache_list-Keeps, add_core-Keeps,
}
use open_cas_csi.Csi.Types.{Code, Access, require_text}
use open_cas_csi.Csi.Node.Stage.{
  or_fail_none, labelled_cache, choose_cache, provide_volume, ensure_fs, mount_staged,
  NodeStageRequest, node_stage_volume, stage_device,
}

-- The latest call asked for the file system of this very device, and the answer was that it has none.
abbrev pub WasBlank : World → (path : String) → History → Type 0
WasBlank w path (Call.lsblk_fs_type p ∷ h) =
    let (fs_type, e) = w.answer h (Call.lsblk_fs_type p) in
    (p ≡ path) × (e ≡ none) × ((trim_space fs_type == "") ≡ true)
WasBlank w path _ = ⊥

-- Every `mkfs` so far came right after such an answer.
abbrev pub FormatsBlank : World → History → Type 0
FormatsBlank w [] = Unit
FormatsBlank w (Call.mkfs fs_type path ∷ h) = WasBlank w path h × FormatsBlank w h
FormatsBlank w (_ ∷ h) = FormatsBlank w h

abbrev is_mkfs : Call → Bool
is_mkfs (Call.mkfs _ _) = true
is_mkfs _ = false

Allows-other : (c : Call) → is_mkfs c ≡ false → Allows FormatsBlank c
Allows-other (Call.mkfs fs_type path) e = cc
Allows-other _ e = record { step = λ w h p. p }

prepare_fs-Keeps : (path fs_type : String) → Keeps FormatsBlank (prepare_fs path fs_type)
unfolding prepare_fs ◌>>=◌
prepare_fs-Keeps path fs_type = record { at = λ w h p. ground arith }

read-Allows : (c : Call) → is_read c ≡ true → Allows FormatsBlank c
read-Allows (Call.mkfs fs_type path) e = cc
read-Allows _ e = record { step = λ w h p. p }

reads : AllowsReads FormatsBlank
reads = record { read = read-Allows }

any_cmd : (cmd : String) → AllowsCmd FormatsBlank cmd
any_cmd cmd = record { job = λ w' node_id name ns. record { step = λ w h p. p } }

ruleset format_rules = (keeps_rules, Allows-other, refl, prepare_fs-Keeps)

require_text-Keeps : (s : String) → Keeps FormatsBlank (require_text s)
unfolding require_text
require_text-Keeps s = search format_rules

or_fail_none-Keeps :
    {A : Type 0} (o : Option A) (code : Code) → Keeps FormatsBlank (or_fail_none o code)
unfolding or_fail_none
or_fail_none-Keeps none code = search format_rules
or_fail_none-Keeps (some a) code = search format_rules

mount-Keeps :
    (source target fs_type : String) (options : List String) (raw : Bool)
    → Keeps FormatsBlank (Utils.mount source target fs_type options raw)
unfolding Utils.mount make_target
mount-Keeps source target fs_type options true = search format_rules depth 8
mount-Keeps source target fs_type options false = search format_rules depth 8

mount_staged-Keeps :
    (path target : String) (access : Access) → Keeps FormatsBlank (mount_staged path target access)
unfolding mount_staged ensure_fs get_device_fs_type
mount_staged-Keeps path target access = search (format_rules, mount-Keeps) depth 8

labelled_cache-Keeps :
    (label : Option String) (cs : List Cache) → Keeps FormatsBlank (labelled_cache label cs)
unfolding labelled_cache
labelled_cache-Keeps none cs = search format_rules
labelled_cache-Keeps (some id) cs = search format_rules

choose_cache-Keeps :
    (node_id : String) (cs : List Cache) → Keeps FormatsBlank (choose_cache node_id cs)
unfolding choose_cache
choose_cache-Keeps node_id [] = search format_rules
choose_cache-Keeps node_id (c ∷ cs) =
    search (format_rules, labelled_cache-Keeps, or_fail_none-Keeps)

provide_volume-Keeps :
    (cas : OpenCas) (node_id path : String) → Keeps FormatsBlank (provide_volume cas node_id path)
unfolding provide_volume
provide_volume-Keeps cas node_id path =
    search
      (
        keeps_rules,
        choose_cache-Keeps,
        any_cmd,
        get_volume_from_cache_list-Keeps reads,
        get_cache_instances-Keeps reads,
        add_core-Keeps reads,
      )
      depth 8

locked-Keeps :
    {A : Type 0} (key : String) (m : M Code A)
    → Keeps FormatsBlank m
    → Keeps FormatsBlank (locked key m)
locked-Keeps key m k =
    Keeps-locked key m (Allows-other (Call.lock key) refl) (Allows-other (Call.unlock key) refl) k

stage_device-Keeps :
    (node_id protected : String) (req : NodeStageRequest) (access : Access)
    → Keeps FormatsBlank (stage_device node_id protected req access)
unfolding stage_device
stage_device-Keeps node_id protected req access =
    search
      (
        keeps_rules,
        connect-Keeps reads,
        get_intermediate_pod_by_name-Keeps reads,
        new_open_cas_manager-Keeps reads,
        provide_by_id_link_for_pv-Keeps reads,
        provide_volume-Keeps,
        mount_staged-Keeps,
      )
      depth 12

node_stage_volume-Keeps :
    (node_id : String) (req : NodeStageRequest) → Keeps FormatsBlank (node_stage_volume node_id req)
unfolding node_stage_volume
node_stage_volume-Keeps node_id req =
    search (keeps_rules, locked-Keeps, require_text-Keeps, or_fail_none-Keeps, stage_device-Keeps)
      depth 8

-- Whatever the request and the world, staging runs `mkfs` on a device only when the call just before
-- asked for the file system of this device and the answer, without error, was a blank. The calls
-- made before staging are supposed to do so too.
pub node_stage_volume-FormatsBlank :
    (node_id : String) (req : NodeStageRequest) (w : World) (h : History)
    → FormatsBlank w h
    → FormatsBlank w (node_stage_volume node_id req w h).1
node_stage_volume-FormatsBlank node_id req = (node_stage_volume-Keeps node_id req).at
