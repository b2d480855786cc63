-- ===== src/OpenCas.antt =====
-- pkg/opencas: the manager of the caches of one node
pub mod Casadm
pub mod Csv
pub mod CacheList
pub mod JobName
pub mod Job
pub mod Manager
pub mod Footprint
