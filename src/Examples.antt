-- ===== src/Examples.antt =====
-- Each theorem at a concrete input.
mod Admissions
pub mod Data
pub mod Clusters
mod Faults
mod Losses
pub mod Databases
mod Patience
mod Runs
pub mod Schedules
pub mod Snapshots
mod Sorting
mod Versions
mod Webhooks
