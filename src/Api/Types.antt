-- ===== src/Api/Types.antt =====
-- The GroupJob resource (pkg/apis/kubeflow/v2beta1/types.go). A Go string type is a text, whatever
-- its constants; a pointer that may be nil is an `Option`; a map is an association list, with
-- `Option` where the code tells nil from empty. A map's entry that is itself nil is left out.
use mpi_operator.Prelude.{String, Bool, Option, none, some, List}
use mpi_operator.Prelude.Int.{ℤ}
use mpi_operator.Prelude.Assoc.{Assoc, lookup}
use mpi_operator.Api.Constants.{replica_type_worker, replica_type_launcher}
use mpi_operator.Api.Kube.{Time, ResourceList, ObjectMeta, PodTemplateSpec}

pub record SchedulingPolicy : Type 0 where
  pub min_available : Option ℤ
  pub queue : String
  pub min_resources : Option ResourceList
  pub priority_class : String
  pub schedule_timeout_seconds : Option ℤ

pub record RunPolicy : Type 0 where
  pub clean_pod_policy : Option String
  pub ttl_seconds_after_finished : Option ℤ
  pub active_deadline_seconds : Option ℤ
  pub backoff_limit : Option ℤ
  pub scheduling_policy : Option SchedulingPolicy
  pub suspend : Option Bool
  pub managed_by : Option String

pub record ReplicaSpec : Type 0 where
  pub replicas : Option ℤ
  pub template : PodTemplateSpec
  pub restart_policy : String

pub record GroupJobSpec : Type 0 where
  pub slots_per_worker : Option ℤ
  pub run_launcher_as_worker : Option Bool
  pub run_policy : RunPolicy
  pub replica_specs : Option (Assoc ReplicaSpec)
  pub ssh_auth_mount_path : String
  pub launcher_creation_policy : String
  pub mpi_implementation : String

pub record ReplicaStatus : Type 0 where
  pub active : ℤ
  pub succeeded : ℤ
  pub failed : ℤ

pub record JobCondition : Type 0 where
  pub type : String
  pub status : String
  pub reason : String
  pub message : String
  pub last_update_time : Time
  pub last_transition_time : Time

pub record JobStatus : Type 0 where
  pub conditions : List JobCondition
  pub replica_statuses : Option (Assoc ReplicaStatus)
  pub start_time : Option Time
  pub completion_time : Option Time

pub record GroupJob : Type 0 where
  pub meta : ObjectMeta
  pub spec : GroupJobSpec
  pub status : JobStatus

-- `specs[rtype]`, nil where the map is nil or has no such key.
abbrev pub spec_of : Option (Assoc ReplicaSpec) → String → Option ReplicaSpec
spec_of none rtype = none
spec_of (some specs) rtype = lookup rtype specs

-- The two entries that the code reads.
abbrev pub worker_spec : GroupJob → Option ReplicaSpec
worker_spec j = spec_of j.spec.replica_specs replica_type_worker

abbrev pub launcher_spec : GroupJob → Option ReplicaSpec
launcher_spec j = spec_of j.spec.replica_specs replica_type_launcher
