-- ===== src/Controller.antt =====
-- The controller (pkg/controller/mpi_job_controller.go).
pub mod World
pub mod Resources
pub mod PodGroups
pub mod Workers
pub mod Status
pub mod Update
pub mod Ensure
pub mod Sync
pub mod Keeps
pub mod Legit
