-- ===== src/Tests.antt =====
-- Worlds, requests and runs at which the theorems are applied.
mod Worlds
mod Csi
mod Driver
mod Store
mod Settled
mod Steady
mod Carried
mod Together
mod OpenCas
mod Operator
mod K8sUtils
