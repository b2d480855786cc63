-- ===== src/Operator.antt =====
-- pkg/csi-operator: the controllers of the operator
pub mod Common
pub mod Cache
pub mod Trigger
pub mod Labels
pub mod Workloads
pub mod Objects
pub mod Instance
pub mod Footprint
pub mod Locking
pub mod Start
