-- ===== src/QuestDb/Build.antt =====
-- The objects that the QuestDB controller wants to exist.
pub mod Pods
pub mod Volumes
