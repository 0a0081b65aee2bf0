-- ===== src/Snapshot.antt =====
-- internal/controller/questdbsnapshot_controller.go: the life of a snapshot.
pub mod Calls
pub mod Build
pub mod Phases
pub mod Life
pub mod Reconcile
