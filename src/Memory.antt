-- ===== src/Memory.antt =====
-- Objects in memory, and their copies (pkg/apis/kubeflow/v2beta1/zz_generated.deepcopy.go).
pub mod Heap
pub mod Copier
pub mod Pointer
pub mod Fields
pub mod Objects
pub mod Slots
pub mod DeepCopy
