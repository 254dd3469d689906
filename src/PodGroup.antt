-- ===== src/PodGroup.antt =====
-- The PodGroups of gang scheduling (pkg/controller/podgroup.go).
pub mod Resources
pub mod Order
pub mod Control
pub mod Limit
pub mod Iteration
pub mod Total
