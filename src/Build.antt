-- ===== src/Build.antt =====
-- The objects that the controller makes (mpi_job_controller.go): the ConfigMap, the Service, the
-- Secret, the worker pods and the launcher Job.
pub mod Config
pub mod Template
pub mod Launcher
pub mod Owned
pub mod Total
