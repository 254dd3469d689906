-- ===== src/Memory/Objects.antt =====
-- A GroupJob in memory (pkg/apis/kubeflow/v2beta1/types.go): a field that is a pointer, a map or a slice is
-- nil or an address. The types of other packages are parameters.
use mpi_operator.Prelude.{ℕ, String, Bool, Option, List}
use mpi_operator.Prelude.Int.{ℤ}
use mpi_operator.Prelude.Assoc.{Assoc}
use mpi_operator.Api.{Time, Quantity, JobCondition}

-- The structs of metav1 and corev1, what is read of them, and what their copies put into memory.
pub record Foreign : Type 1 where
  pub ObjectMeta : Type 0
  pub ListMeta : Type 0
  pub PodTemplateSpec : Type 0
  pub LabelSelector : Type 0
  pub MetaView : Type 0
  pub ListMetaView : Type 0
  pub TemplateView : Type 0
  pub SelectorView : Type 0
  pub Stored : Type 0

pub record SchedulingPolicyObject : Type 0 where
  pub min_available : Option ℕ
  pub queue : String
  pub min_resources : Option ℕ
  pub priority_class : String
  pub schedule_timeout_seconds : Option ℕ

pub record RunPolicyObject : Type 0 where
  pub clean_pod_policy : Option ℕ
  pub ttl_seconds_after_finished : Option ℕ
  pub active_deadline_seconds : Option ℕ
  pub backoff_limit : Option ℕ
  pub scheduling_policy : Option ℕ
  pub suspend : Option ℕ
  pub managed_by : Option ℕ

pub record GroupJobSpecObject : Type 0 where
  pub slots_per_worker : Option ℕ
  pub run_launcher_as_worker : Option ℕ
  pub run_policy : RunPolicyObject
  pub replica_specs : Option ℕ
  pub ssh_auth_mount_path : String
  pub launcher_creation_policy : String
  pub mpi_implementation : String

pub record ReplicaStatusObject : Type 0 where
  pub active : ℤ
  pub succeeded : ℤ
  pub failed : ℤ
  pub label_selector : Option ℕ
  pub selector : String

pub record JobStatusObject : Type 0 where
  pub conditions : Option ℕ
  pub replica_statuses : Option ℕ
  pub start_time : Option ℕ
  pub completion_time : Option ℕ
  pub last_reconcile_time : Option ℕ

-- metav1.TypeMeta
pub record TypeMeta : Type 0 where
  pub kind : String
  pub api_version : String

-- An entry of a map of pointers.
abbrev pub Entry : Type 0
Entry = String × Option ℕ

pub record ReplicaSpecObject (F : Foreign) : Type 0 where
  pub replicas : Option ℕ
  pub template : F.PodTemplateSpec
  pub restart_policy : String

pub record GroupJobObject (F : Foreign) : Type 0 where
  pub type_meta : TypeMeta
  pub meta : F.ObjectMeta
  pub spec : GroupJobSpecObject
  pub status : JobStatusObject

pub record GroupJobListObject (F : Foreign) : Type 0 where
  pub type_meta : TypeMeta
  pub list_meta : F.ListMeta
  pub items : Option ℕ

-- What an address holds: what a pointer points to, the entries of a map, the elements of a slice.
pub data Cell (F : Foreign) : Type 0 where
  text : String → Cell F
  int : ℤ → Cell F
  bool : Bool → Cell F
  time : Time → Cell F
  resource_list : Option ℕ → Cell F
  quantities : Assoc Quantity → Cell F
  scheduling_policy : SchedulingPolicyObject → Cell F
  replica_spec : ReplicaSpecObject F → Cell F
  replica_status : ReplicaStatusObject → Cell F
  label_selector : F.LabelSelector → Cell F
  entries : List Entry → Cell F
  conditions : List JobCondition → Cell F
  group_job : GroupJobObject F → Cell F
  group_jobs : List (GroupJobObject F) → Cell F
  group_job_list : GroupJobListObject F → Cell F
  stored : F.Stored → Cell F
