-- ===== src/Validation/Spec.antt =====
-- What a valid GroupJob is, by its fields and with no reference to the validator.
use mpi_operator.Prelude.{String, ℕ, suc, ◌≡◌, ◌≢◌, ◌⊎◌, Option, none, some, []}
use mpi_operator.Prelude.Int.{ℤ, pos}
use mpi_operator.Api.{
  GroupJob, ReplicaSpec, RunPolicy, clean_pod_policy_none, clean_pod_policy_running,
  clean_pod_policy_all, open_mpi, intel, mpich, restart_policy_never, restart_policy_on_failure,
  multi_kueue_controller, kubeflow_job_controller, worker_spec, launcher_spec,
}
use mpi_operator.Machinery.{Machinery}
use mpi_operator.Names.{worker_name}

abbrev pub IsRestartPolicy : String → Type 0
IsRestartPolicy s = (s ≡ restart_policy_never) ⊎ (s ≡ restart_policy_on_failure)

abbrev pub IsCleanPodPolicy : String → Type 0
IsCleanPodPolicy s =
    (s ≡ clean_pod_policy_none) ⊎ ((s ≡ clean_pod_policy_running) ⊎ (s ≡ clean_pod_policy_all))

abbrev pub IsMpiImplementation : String → Type 0
IsMpiImplementation s = (s ≡ open_mpi) ⊎ ((s ≡ intel) ⊎ (s ≡ mpich))

abbrev pub IsManagedBy : Option String → Type 0
IsManagedBy o =
    (o ≡ none) ⊎ ((o ≡ some multi_kueue_controller) ⊎ (o ≡ some kubeflow_job_controller))

abbrev pub IsNonnegativeOrNil : Option ℤ → Type 0
IsNonnegativeOrNil o = (o ≡ none) ⊎ ((n : ℕ) × (o ≡ some (pos n)))

-- A pod can be made of the spec: it has a container and a restart policy.
pub record IsPodSpec (r : ReplicaSpec) : Type 0 where
  pub restart : IsRestartPolicy r.restart_policy
  pub containers : r.template.spec.containers ≢ []

abbrev pub IsLauncher : Option ReplicaSpec → Type 0
IsLauncher o = (r : ReplicaSpec) × (o ≡ some r) × (r.replicas ≡ some (pos 1)) × IsPodSpec r

-- No workers, or at least one.
abbrev pub IsWorker : Option ReplicaSpec → Type 0
IsWorker o =
    (o ≡ none)
    ⊎ ((r : ReplicaSpec) × (n : ℕ) × (o ≡ some r) × (r.replicas ≡ some (pos (suc n))) × IsPodSpec r)

pub record IsRunPolicy (p : RunPolicy) : Type 0 where
  pub clean : (s : String) × (p.clean_pod_policy ≡ some s) × IsCleanPodPolicy s
  pub ttl : IsNonnegativeOrNil p.ttl_seconds_after_finished
  pub deadline : IsNonnegativeOrNil p.active_deadline_seconds
  pub backoff : IsNonnegativeOrNil p.backoff_limit
  pub manager : IsManagedBy p.managed_by

-- The greatest index of the pods that the job asks for: that of its last worker, and 0 with no workers.
abbrev pub IsLastIndex : Option ReplicaSpec → ℕ → Type 0
IsLastIndex o n =
    ((o ≡ none) × (n ≡ 0)) ⊎ ((r : ReplicaSpec) × (o ≡ some r) × (r.replicas ≡ some (pos (suc n))))

pub record IsValid (m : Machinery) (j : GroupJob) : Type 0 where
  pub host_name :
      (n : ℕ) × IsLastIndex (worker_spec j) n × (m.is_dns1035_label (worker_name j n) ≡ [])
  pub launcher : IsLauncher (launcher_spec j)
  pub worker : IsWorker (worker_spec j)
  pub slots : (n : ℕ) × (j.spec.slots_per_worker ≡ some (pos n))
  pub run_policy : IsRunPolicy j.spec.run_policy
  pub ssh_path : j.spec.ssh_auth_mount_path ≢ ""
  pub mpi : IsMpiImplementation j.spec.mpi_implementation
