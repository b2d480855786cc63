-- ===== src/Tests/Driver.antt =====
-- The theorems about the start of the driver of pkg/csi-driver, its endpoint and its volumes, applied.
use open_cas_csi.Prelude.{◌≡◌, refl, inl, inr, true, false, some, [], ◌∷◌, arith}
use open_cas_csi.Prelude.Dict.{insert}
use open_cas_csi.Prelude.Int.{pos}
use open_cas_csi.Prelude.Text.{show_int}
use open_cas_csi.World
use open_cas_csi.World.{World, Call, Response}
use open_cas_csi.Effect.{ok, ◌>>=◌}
use open_cas_csi.OpenCas.CacheList.{Cache}
use open_cas_csi.Csi.Types.{block}
use open_cas_csi.Csi.Controller.{
  CreateVolumeRequest, volume_of, create_volume, backend_storage_class, eq_lower, all_accessible,
}
use open_cas_csi.Csi.Controller.Succeeds.{Accepts, create_volume-ok}
use open_cas_csi.Csi.Driver.{Config, new_csi_driver}
use open_cas_csi.Csi.Driver.Start.{IsStart, new_csi_driver-IsStart}
use open_cas_csi.Csi.Server.{parse_endpoint}
use open_cas_csi.Csi.Server.Endpoint.{IsCut, parse_endpoint-IsCut}
use open_cas_csi.Csi.Node.Stage.{choose_cache}
use open_cas_csi.Csi.Node.Label.{set_operating_cache_label-choose_cache}
use open_cas_csi.Operator.Cache.{set_operating_cache_label}
use open_cas_csi.Tests.Worlds.{world, world_with, node, answers}

abbrev config : Config
config = record {
  driver_name = "csi.open-cas.com";
  endpoint = "unix:///csi/csi.sock";
  node_id = "node";
  vendor_version = "v1";
  start_controller_server = false;
  start_node_server = true;
}

new_csi_driver-IsStart_example : IsStart world config (new_csi_driver config world []).0
new_csi_driver-IsStart_example = new_csi_driver-IsStart config world []

parse_endpoint-IsCut_example :
    IsCut "UNIX:///csi/csi.sock" (parse_endpoint "UNIX:///csi/csi.sock" world []).0
parse_endpoint-IsCut_example = parse_endpoint-IsCut "UNIX:///csi/csi.sock" world []

abbrev empty_world : World
empty_world = world_with false

empty_world-Accepts : Accepts empty_world "backend"
empty_world-Accepts = record {
  config-accepted = λ h. refl;
  client-accepted = λ h. refl;
  class-there = λ h. refl;
  get-answered = λ h ns name. refl;
  create-accepted = λ h ns pvc full e. refl;
  update-accepted = λ h ns name labels e. refl;
  delete-accepted = λ h ns name e. refl;
  updated-delete-accepted = λ h ns name labels e. refl;
}

abbrev request : CreateVolumeRequest
request = record {
  name = "vol";
  volume_capabilities = block ∷ [];
  parameters = ("Backend-SC-name", "backend") ∷ [];
  required_bytes = pos 1024;
  limit_bytes = pos 0;
}

create_volume-ok_example : (create_volume request empty_world []).0 ≡ ok (volume_of request)
unfolding backend_storage_class eq_lower all_accessible
create_volume-ok_example =
    create_volume-ok empty_world "backend" empty_world-Accepts request [] (refl, refl, refl) refl
      refl

abbrev cache : Cache
cache = record {
  cache_id = pos 12;
  device_path = "/dev/sda";
  status = "Running";
  cache_mode = "wt";
  volumes = [];
}

abbrev labelled : World.Node
labelled = record node { labels = some (("csi.open-cas.com/operating-cache-id", "12") ∷ []) }

abbrev labelled_answers : (c : Call) → Response c
labelled_answers (Call.get_node _) = labelled.labels
labelled_answers c = answers true c

abbrev labelled_world : World
labelled_world = record world { answer = λ _ c. labelled_answers c }

set_operating_cache_label-choose_cache_example :
    (c : Cache) × ((choose_cache "node"
        (record cache { cache_id = pos 1 } ∷ cache ∷ [])
        labelled_world
        []).0
      ≡ ok c)
    × (c.cache_id ≡ pos 12)
unfolding set_operating_cache_label ◌>>=◌ insert show_int
set_operating_cache_label-choose_cache_example =
    set_operating_cache_label-choose_cache node labelled node labelled 12 world labelled_world [] []
      "node" (record cache { cache_id = pos 1 }) (cache ∷ []) (omega arith) refl refl refl
      (inr (inl refl))
