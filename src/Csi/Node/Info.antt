-- ===== src/Csi/Node/Info.antt =====
-- pkg/csi-driver/node.go: what the node service says of itself.
use open_cas_csi.Prelude.{String, List, [], ◌∷◌}
use open_cas_csi.Effect.{M, pure}
use open_cas_csi.Csi.Types.{Code}
use open_cas_csi.Csi.Driver.{Config}

-- `csi.NodeServiceCapability_RPC_Type`, as far as the driver names it
pub data NodeCapability : Type 0 where
  stage_unstage_volume single_node_multi_writer : NodeCapability

unfoldable pub node_get_capabilities : M Code (List NodeCapability)
node_get_capabilities = pure (stage_unstage_volume ∷ single_node_multi_writer ∷ [])

-- The answer holds the node's name only.
unfoldable pub node_get_info : Config → M Code String
node_get_info cfg = pure cfg.node_id
