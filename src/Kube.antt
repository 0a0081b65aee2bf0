-- ===== src/Kube.antt =====
-- The vocabulary of Kubernetes objects and calls that the controllers share.
pub mod Error
pub mod Meta
pub mod Exec
pub mod Objects
