-- ===== src/Names.antt =====
-- Names, labels and small tests of mpi_job_controller.go.
pub mod Laws
use mpi_operator.Prelude.{String, ℕ, suc, ◌+◌, Bool, true, false, Option, none, some, [], ◌∷◌, ◌==◌}
use mpi_operator.Prelude.Tests.{if◌then◌else◌, deref_or, ◌⧺◌}
use mpi_operator.Prelude.Int.{pos}
use mpi_operator.Prelude.Assoc.{Assoc}
use mpi_operator.Prelude.Decimal.{itoa}
use mpi_operator.Api.{
  GroupJob, Job, launcher_suffix, worker_suffix, operator_name, operator_name_label, job_name_label,
  job_role_label, kubeflow_job_controller,
}

unfoldable pub worker_name : GroupJob → ℕ → String
worker_name j index = j.meta.name ⧺ worker_suffix ⧺ "-" ⧺ itoa (pos index)

pub launcher_name : GroupJob → String
launcher_name j = j.meta.name ⧺ launcher_suffix

unfoldable pub run_launcher_as_worker : GroupJob → Bool
run_launcher_as_worker j = deref_or j.spec.run_launcher_as_worker false

unfoldable pub is_group_job_suspended : GroupJob → Bool
is_group_job_suspended j = deref_or j.spec.run_policy.suspend false

unfoldable pub is_job_suspended : Job → Bool
is_job_suspended job = deref_or job.suspend false

unfoldable pub worker_replica_index_label : GroupJob → ℕ → String
unfolding run_launcher_as_worker
worker_replica_index_label j index =
    if run_launcher_as_worker j then itoa (pos (index + 1)) else itoa (pos index)

pub default_labels : (job_name role : String) → Assoc String
default_labels job_name role =
    (operator_name_label, operator_name) ∷ (job_name_label, job_name) ∷ (job_role_label, role) ∷ []

-- The manager's name where it is not this controller.
pub managed_by_external_controller : Option String → Option String
managed_by_external_controller none = none
managed_by_external_controller (some name) =
    if name == kubeflow_job_controller then none else some name
