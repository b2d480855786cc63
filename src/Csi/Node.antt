-- ===== src/Csi/Node.antt =====
-- pkg/csi-driver/node.go: the node service.
pub mod Stage
pub mod Unstage
pub mod Publish
pub mod Format
pub mod Info
pub mod Label
pub mod Released
pub mod Uncached
