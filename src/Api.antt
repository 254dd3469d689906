-- ===== src/Api.antt =====
-- The objects of the program: pkg/apis/kubeflow/v2beta1 (constants.go, types.go), and the fields of
-- the Kubernetes objects that the controller reads and writes.
pub mod Constants
pub mod Kube
pub mod Types
pub use Constants.*
pub use Kube.*
pub use Types.*
