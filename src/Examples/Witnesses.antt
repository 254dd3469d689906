-- ===== src/Examples/Witnesses.antt =====
-- The theorems at concrete inputs.
use mpi_operator.Prelude.{String, ℕ, ◌≡◌, refl, inl, ◌<◌, none, some, [], ◌∷◌, arith}
use Prim.Native.Nat.{min}
use mpi_operator.Prelude.Tests.{if◌then◌else◌}
use mpi_operator.Prelude.Int.{ℤ, pos, negsuc, wrap32}
use mpi_operator.Prelude.Decimal.{atoi}
use mpi_operator.Prelude.Assoc.{lookup}
use mpi_operator.Api.{
  GroupJob, JobStatus, JobCondition, condition_true, job_running, job_failed, replica_type_launcher,
  replica_type_worker,
}
use mpi_operator.Outcome.{panic, Succeeds}
use mpi_operator.Status.{get_condition, new_condition}
use mpi_operator.Status.View.{view, assign_all, view-set_conditions}
use mpi_operator.Status.History.{IsUnique, IsExclusive, set_conditions, set_conditions_invariant}
use mpi_operator.Defaults.{set_defaults}
use mpi_operator.Defaults.Laws.{set_defaults_idempotent}
use mpi_operator.Validation.{validate_group_job}
use mpi_operator.PodGroup.Resources.{add_resources, added, or_else, lookup-add_resources}
use mpi_operator.PodGroup.Order.{ReplicaPriority, collect_order, sort_reverse, limit_order}
use mpi_operator.PodGroup.Iteration.{counted_as, counted_as-iteration}
use mpi_operator.PodGroup.Control.{volcano, new_pod_group, calculate_min_available}
use mpi_operator.PodGroup.Limit.{counted_of, limit_order_launcher_first, limit_order_overcounts}
use mpi_operator.PodGroup.Total.{launcher_worker, new_pod_group-Succeeds, new_pod_group_panics}
use mpi_operator.Names.{worker_replica_index_label, run_launcher_as_worker}
use mpi_operator.Names.Laws.{worker_name-injective, atoi-worker_replica_index_label}
use mpi_operator.Prelude.{◌≢◌}
use mpi_operator.Validation.Defaulted.{open_worker_replicas_rejected}
use mpi_operator.Examples.Jobs.{
  open_worker, open_job, pi_job, job_of, replica_spec, run_policy, first_container,
}
use mpi_operator.Examples.Setup.{machinery, machinery-NonnegativeLaw, ops}

abbrev running : JobCondition
running = new_condition 3 job_running condition_true "running" ""

abbrev over : JobCondition
over = new_condition 5 job_failed condition_true "failed" ""

abbrev running_status : JobStatus
running_status = record {
  conditions = running ∷ [];
  replica_statuses = none;
  start_time = none;
  completion_time = none;
}

set_conditions_invariant_example :
    IsUnique (set_conditions pi_job.status (running ∷ over ∷ [])).conditions
    × IsExclusive (set_conditions pi_job.status (running ∷ over ∷ [])).conditions
unfolding get_condition
set_conditions_invariant_example =
    set_conditions_invariant pi_job.status (running ∷ over ∷ []) tt (inl refl)

view-set_conditions_example :
    view (set_conditions pi_job.status (running ∷ over ∷ []))
    ≡ assign_all (view pi_job.status) (running ∷ over ∷ [])
view-set_conditions_example = view-set_conditions pi_job.status (running ∷ over ∷ [])

new_pod_group-Succeeds_example : Succeeds (new_pod_group machinery ops none volcano pi_job)
unfolding calculate_min_available wrap32 lookup
new_pod_group-Succeeds_example =
    new_pod_group-Succeeds machinery ops none volcano pi_job 3 (launcher_worker refl refl) refl

abbrev negative_job : GroupJob
negative_job =
    let j = job_of ((replica_type_launcher, replica_spec 1) ∷ []) in
    record j {
      spec = record j.spec {
        run_policy = record run_policy {
          scheduling_policy = some (record {
            min_available = some (negsuc 0);
            queue = "";
            min_resources = none;
            priority_class = "";
            schedule_timeout_seconds = none;
          });
        };
      };
    }

new_pod_group_panics_example : new_pod_group machinery ops none volcano negative_job ≡ panic
unfolding calculate_min_available
new_pod_group_panics_example =
    new_pod_group_panics machinery ops none volcano negative_job (replica_spec 1) 0 refl refl refl
      refl

abbrev entry : ℤ → String → ℕ → ReplicaPriority
entry priority role n = record { priority = priority; replica_type = role; spec = replica_spec n }

limit_order_launcher_first_example :
    counted_of (
      limit_order
        (pos 2)
        (entry (pos 0) replica_type_launcher 1 ∷ entry (pos 0) replica_type_worker 4 ∷ []))
    ≡ min 2 5
limit_order_launcher_first_example =
    limit_order_launcher_first (entry (pos 0) replica_type_launcher 1)
      (entry (pos 0) replica_type_worker 4) 4 1 (record { role_is = refl; count_is = refl })
      (record { role_is = refl; count_is = refl }) (omega arith) (omega arith)

counted_as-iteration_example :
    counted_as replica_type_worker (
      limit_order (pos 2) (
        sort_reverse [] (
          collect_order none (
            (replica_type_launcher, replica_spec 1) ∷ (replica_type_worker, replica_spec 4) ∷ []))))
    ≡ counted_as replica_type_worker (
        limit_order (pos 2) (
          sort_reverse [] (
            collect_order none (
              (replica_type_worker, replica_spec 4)
              ∷ (replica_type_launcher, replica_spec 1)
              ∷ []))))
counted_as-iteration_example =
    counted_as-iteration none (replica_spec 1) (replica_spec 4) (pos 2) replica_type_worker

limit_order_overcounts_example :
    2
    < counted_of (
        limit_order
          (pos 2)
          (entry (pos 9) replica_type_worker 4 ∷ entry (pos 0) replica_type_launcher 1 ∷ []))
limit_order_overcounts_example =
    limit_order_overcounts (entry (pos 9) replica_type_worker 4)
      (entry (pos 0) replica_type_launcher 1) 4 1 (record { role_is = refl; count_is = refl })
      (record { role_is = refl; count_is = refl }) refl (omega arith) (omega arith) (omega arith)

lookup-add_resources_example :
    lookup "cpu" (add_resources ops [] first_container (pos 2))
    ≡ added ops
        (lookup "cpu" [])
        (or_else (lookup "cpu" first_container.requests) (lookup "cpu" first_container.limits))
        (pos 2)
unfolding lookup
lookup-add_resources_example = lookup-add_resources ops [] first_container (pos 2) "cpu" (refl, tt)

set_defaults_idempotent_example : set_defaults (set_defaults pi_job) ≡ set_defaults pi_job
set_defaults_idempotent_example = set_defaults_idempotent pi_job

worker_name-injective_example : ◌≡◌ {A = ℕ} 3 3
worker_name-injective_example = worker_name-injective pi_job 3 3 refl

atoi-worker_replica_index_label_example :
    atoi (worker_replica_index_label pi_job 7)
    ≡ some (pos (if run_launcher_as_worker pi_job then 8 else 7))
atoi-worker_replica_index_label_example = atoi-worker_replica_index_label pi_job 7 (omega arith)

open_worker_replicas_rejected_example : validate_group_job machinery (set_defaults open_job) ≢ []
unfolding lookup
open_worker_replicas_rejected_example =
    open_worker_replicas_rejected machinery machinery-NonnegativeLaw open_job open_worker refl refl
