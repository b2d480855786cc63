-- ===== src/K8sUtils.antt =====
-- pkg/k8sutils/k8sutils.go
pub mod Labelled
pub mod Settings
pub mod Specs
pub mod Objects
pub mod Create
pub mod Unprotect
pub mod Await
