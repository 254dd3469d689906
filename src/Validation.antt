-- ===== src/Validation.antt =====
-- The validation of a GroupJob (pkg/apis/kubeflow/validation/validation.go).
pub mod Spec
mod Fields
pub mod Laws
pub mod Defaulted
use mpi_operator.Prelude.{
  String, Bool, true, false, ◌||◌, not, Option, none, some, List, [], ◌∷◌, ◌++◌, ◌==◌, suc,
}
use mpi_operator.Prelude.Tests.{if◌then◌else◌, is_empty, ◌⧺◌, nat_eq}
use mpi_operator.Prelude.Int.{ℤ, pos, negsuc, ◌-ℤ◌}
use mpi_operator.Prelude.Decimal.{itoa}
use mpi_operator.Prelude.Assoc.{Assoc, lookup}
use mpi_operator.Api.{
  GroupJob, GroupJobSpec, ReplicaSpec, RunPolicy, clean_pod_policy_none, clean_pod_policy_running,
  clean_pod_policy_all, open_mpi, intel, mpich, restart_policy_never, restart_policy_on_failure,
  multi_kueue_controller, kubeflow_job_controller, replica_type_launcher, replica_type_worker,
  worker_spec,
}
use mpi_operator.Machinery.{
  Machinery, FieldError, PathStep, child, key, ErrorKind, required, invalid, not_supported,
}

-- sets.String.Has
pub has : List String → String → Bool
has [] s = false
has (t ∷ ts) s = s == t || has ts s

abbrev pub valid_clean_policies : List String
valid_clean_policies = clean_pod_policy_none ∷ clean_pod_policy_running ∷ clean_pod_policy_all ∷ []

abbrev pub valid_mpi_implementations : List String
valid_mpi_implementations = open_mpi ∷ intel ∷ mpich ∷ []

abbrev pub valid_restart_policies : List String
valid_restart_policies = restart_policy_never ∷ restart_policy_on_failure ∷ []

abbrev pub valid_managed_by : List String
valid_managed_by = multi_kueue_controller ∷ kubeflow_job_controller ∷ []

-- One error, at a child of the path.
abbrev pub error_at : ErrorKind → List PathStep → String → FieldError
error_at kind path name = record { kind = kind; path = path ++ child name ∷ [] }

abbrev pub error_if : Bool → FieldError → List FieldError
error_if true e = e ∷ []
error_if false e = []

-- The number of workers for the longest host name: 1 where no positive number is given.
unfoldable name_replicas : Option ReplicaSpec → ℤ
name_replicas none = pos 1
name_replicas (some r) = elim r.replicas [
  | none ↦ pos 1
  | some (pos (suc n)) ↦ pos (suc n)
  | some _ ↦ pos 1
]

unfoldable pub maximum_pod_hostname : GroupJob → String
unfolding name_replicas
maximum_pod_hostname j = j.meta.name ⧺ "-worker-" ⧺ itoa (name_replicas (worker_spec j) -ℤ pos 1)

-- `spec.Replicas == nil`
pub replicas_errors : Option ℤ → List PathStep → List FieldError
replicas_errors none path = error_at required path "replicas" ∷ []
replicas_errors (some z) path = []

-- The tests of the restart policy and of the containers.
pub template_errors : ReplicaSpec → List PathStep → List FieldError
unfolding has
template_errors r path =
    error_if (not (has valid_restart_policies r.restart_policy))
      (error_at not_supported path "restartPolicy")
    ++ error_if (is_empty r.template.spec.containers) (record {
      kind = required;
      path = path ++ child "template" ∷ child "spec" ∷ child "containers" ∷ [];
    })

pub validate_replica_spec : ReplicaSpec → List PathStep → List FieldError
unfolding replicas_errors template_errors
validate_replica_spec r path = replicas_errors r.replicas path ++ template_errors r path

-- `*spec.Replicas != 1`
abbrev pub is_one : ℤ → Bool
is_one (pos n) = nat_eq n 1
is_one (negsuc n) = false

-- `*spec.Replicas <= 0`
abbrev pub is_not_positive : ℤ → Bool
is_not_positive (pos n) = nat_eq n 0
is_not_positive (negsuc n) = true

-- `test` of the number, if there is one
abbrev pub some_and : (ℤ → Bool) → Option ℤ → Bool
some_and test none = false
some_and test (some z) = test z

pub validate_launcher_replica_spec : Option ReplicaSpec → List PathStep → List FieldError
unfolding validate_replica_spec
validate_launcher_replica_spec none path = record { kind = required; path = path } ∷ []
validate_launcher_replica_spec (some r) path =
    validate_replica_spec r path
    ++ error_if (some_and (λ z. not (is_one z)) r.replicas) (error_at invalid path "replicas")

pub validate_worker_replica_spec : Option ReplicaSpec → List PathStep → List FieldError
unfolding validate_replica_spec
validate_worker_replica_spec none path = []
validate_worker_replica_spec (some r) path =
    validate_replica_spec r path
    ++ error_if (some_and is_not_positive r.replicas) (error_at invalid path "replicas")

pub validate_replica_specs : Option (Assoc ReplicaSpec) → List PathStep → List FieldError
unfolding validate_launcher_replica_spec validate_worker_replica_spec
validate_replica_specs none path = record { kind = required; path = path } ∷ []
validate_replica_specs (some specs) path =
    validate_launcher_replica_spec (lookup replica_type_launcher specs)
      (path ++ key replica_type_launcher ∷ [])
    ++ validate_worker_replica_spec (lookup replica_type_worker specs)
        (path ++ key replica_type_worker ∷ [])

pub clean_pod_policy_errors : Option String → List PathStep → List FieldError
unfolding has
clean_pod_policy_errors none path = error_at required path "cleanPodPolicy" ∷ []
clean_pod_policy_errors (some policy) path =
    error_if (not (has valid_clean_policies policy)) (error_at not_supported path "cleanPodPolicy")

pub managed_by_errors : Option String → List PathStep → List FieldError
unfolding has
managed_by_errors none path = []
managed_by_errors (some manager) path =
    error_if (not (has valid_managed_by manager)) (error_at not_supported path "managedBy")

module _ (m : Machinery) where
  pub validate_group_job_name : GroupJob → List FieldError
  validate_group_job_name j =
      error_if (not (is_empty (m.is_dns1035_label (maximum_pod_hostname j))))
        (record { kind = invalid; path = child "metadata" ∷ child "name" ∷ [] })

  -- A number that must not be negative, where it is given.
  abbrev pub nonnegative_or_nil : Option ℤ → List PathStep → List FieldError
  nonnegative_or_nil none path = []
  nonnegative_or_nil (some z) path = m.validate_nonnegative z path

  pub validate_run_policy : RunPolicy → List PathStep → List FieldError
  unfolding clean_pod_policy_errors managed_by_errors
  validate_run_policy p path =
      clean_pod_policy_errors p.clean_pod_policy path
      ++ (nonnegative_or_nil p.ttl_seconds_after_finished
            (path ++ child "ttlSecondsAfterFinished" ∷ [])
          ++ (nonnegative_or_nil p.active_deadline_seconds
                (path ++ child "activeDeadlineSeconds" ∷ [])
              ++ (nonnegative_or_nil p.backoff_limit (path ++ child "backoffLimit" ∷ [])
                  ++ managed_by_errors p.managed_by path)))

  pub slots_errors : Option ℤ → List PathStep → List FieldError
  slots_errors none path = error_at required path "slotsPerWorker" ∷ []
  slots_errors (some z) path = m.validate_nonnegative z (path ++ child "slotsPerWorker" ∷ [])

  pub validate_group_job_spec : GroupJobSpec → List PathStep → List FieldError
  unfolding validate_replica_specs validate_run_policy slots_errors
  validate_group_job_spec s path =
      validate_replica_specs s.replica_specs (path ++ child "mpiReplicaSpecs" ∷ [])
      ++ (slots_errors s.slots_per_worker path
          ++ (validate_run_policy s.run_policy (path ++ child "runPolicy" ∷ [])
              ++ (error_if (s.ssh_auth_mount_path == "") (error_at required path "sshAuthMountPath")
                  ++ error_if (not (has valid_mpi_implementations s.mpi_implementation))
                      (error_at not_supported path "mpiImplementation"))))

  pub validate_group_job : GroupJob → List FieldError
  validate_group_job j =
      validate_group_job_name j ++ validate_group_job_spec j.spec (child "spec" ∷ [])
