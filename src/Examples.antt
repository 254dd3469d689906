-- ===== src/Examples.antt =====
-- A small job, and the theorems at concrete inputs.
pub mod Jobs
pub mod Setup
pub mod Witnesses
pub mod Syncs
pub mod Handlers
pub mod FairQueue
pub mod Queues
pub mod Deletions
pub mod PodGroups
pub mod Copies
pub mod Processes
