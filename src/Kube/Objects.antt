-- ===== src/Kube/Objects.antt =====
-- The Kubernetes objects that the operator reads and writes, by the fields that it uses.
pub mod Pod
pub mod Workload
pub mod Storage
