-- ===== src/QuestDb.antt =====
-- internal/controller/questdb_controller.go: the objects of a database, and how they are kept.
pub mod Calls
pub mod Build
pub mod Objects
pub mod Store
pub mod Reconcile
