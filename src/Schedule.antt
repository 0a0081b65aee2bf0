-- ===== src/Schedule.antt =====
-- internal/controller/questdbsnapshotschedule_controller.go
pub mod Calls
pub mod Gc
pub mod Children
pub mod Reconcile
pub mod Admission
pub mod Completion
