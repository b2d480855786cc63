-- ===== src/Csi.antt =====
-- pkg/csi-driver: the gRPC services of the CSI driver
pub mod Types
pub mod Controller
pub mod Publish
pub mod Node
pub mod Checks
pub mod Locking
pub mod Driver
pub mod Server
