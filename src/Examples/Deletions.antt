-- ===== src/Examples/Deletions.antt =====
-- The theorems on deletions and on suspension at concrete inputs.
use mpi_operator.Prelude.{◌<◌, ◌==◌, ℕ, zero, suc, ◌≡◌, refl, true, some, none, [], ◌∷◌, arith}
use mpi_operator.Prelude.Tests.{if◌then◌else◌}
use mpi_operator.Prelude.Int.{pos}
use mpi_operator.Prelude.Assoc.{lookup}
use mpi_operator.Api.{Job, Pod, GroupJob, clean_pod_policy_running, clean_pod_policy_all}
use mpi_operator.Outcome.{ok, panic, failure, not_found}
use mpi_operator.Names.{worker_name, launcher_name, is_group_job_suspended, is_job_suspended}
use mpi_operator.Controller.World.{State, found, failed, update_job, ◌>>=◌}
use mpi_operator.Controller.Resources.{owned_or_refuse}
use mpi_operator.Controller.Workers.{
  create_for_spec, delete_one, delete_worker, delete_by_policy, delete_checked,
  delete_worker_of_answer, delete_workers, delete_worker_pods,
}
use mpi_operator.Controller.Workers.Errors.{
  IsMissing, delete_worker_pods_panics, create_for_spec_gives_up,
}
use mpi_operator.Controller.Workers.Deleted.{IsHandled, delete_worker_pods-IsHandled}
use mpi_operator.Controller.Sync.{align_suspension}
use mpi_operator.Controller.Sync.Suspension.{realigned, align_suspension_once}
use mpi_operator.Prelude.Decimal.{itoa}
use mpi_operator.Examples.Jobs.{plain_meta, pi_job, replica_spec, plain_pod_spec}
use mpi_operator.Examples.Setup.{owned_pod, full_state, env, empty_cache}

abbrev cleaned_job : GroupJob
cleaned_job = record pi_job {
  spec = record pi_job.spec {
    run_policy = record pi_job.spec.run_policy { clean_pod_policy = some clean_pod_policy_all };
  };
}

abbrev cleaned_state : State
cleaned_state = record full_state { job = cleaned_job }

delete_worker_pods-IsHandled_example :
    IsHandled cleaned_state
      (delete_worker_pods env cleaned_state).1.trace
      (worker_name cleaned_job 1)
unfolding delete_worker_pods delete_workers delete_one delete_worker_of_answer delete_checked
    delete_by_policy delete_worker owned_or_refuse ◌>>=◌ worker_name itoa lookup
delete_worker_pods-IsHandled_example =
    delete_worker_pods-IsHandled env (replica_spec 2) 2 cleaned_state
      (delete_worker_pods env cleaned_state).1 refl refl refl 1 (omega arith)

-- The first worker is missing, the lister fails on the second, and the policy is Running.
abbrev failing_state : State
failing_state = record full_state {
  job = record pi_job {
    spec = record pi_job.spec {
      run_policy = record pi_job.spec.run_policy {
        clean_pod_policy = some clean_pod_policy_running;
      };
    };
  };
  cache = record empty_cache {
    pods = λ namespace name.
        if name == "pi-worker-0" then failed (not_found "") else failed (failure "timeout");
  };
}

first-IsMissing : (i : ℕ) → i < 1 → IsMissing failing_state i
unfolding worker_name itoa
first-IsMissing zero h = (not_found "", refl, refl)
first-IsMissing (suc i) h = absurd (omega arith)

delete_worker_pods_panics_example : delete_worker_pods env failing_state ≡ (panic, failing_state)
unfolding worker_name itoa lookup
delete_worker_pods_panics_example =
    delete_worker_pods_panics env failing_state (replica_spec 2) (failure "timeout") 1 2 refl refl
      (omega arith) first-IsMissing refl refl refl

abbrev unlabelled_pod : Pod
unlabelled_pod = record (owned_pod "pi-worker-0") { meta = plain_meta "pi-worker-0" }

abbrev listed_state : State
listed_state = record full_state {
  cache = record empty_cache {
    list_pods = λ namespace labels. found (unlabelled_pod ∷ unlabelled_pod ∷ []);
  };
}

create_for_spec_gives_up_example :
    create_for_spec env (replica_spec 1) listed_state ≡ (ok [], listed_state)
unfolding lookup
create_for_spec_gives_up_example =
    create_for_spec_gives_up env (replica_spec 1) listed_state unlabelled_pod (unlabelled_pod ∷ [])
      1 refl refl (omega arith) refl

-- A launcher that is suspended, as its job is not.
abbrev suspended_launcher : Job
suspended_launcher = record {
  meta = plain_meta "pi-launcher";
  ttl_seconds_after_finished = none;
  active_deadline_seconds = none;
  backoff_limit = none;
  suspend = some true;
  selector = [];
  template = record { labels = []; annotations = []; owner_references = []; spec = plain_pod_spec };
  conditions = [];
  failed = pos 0;
  completion_time = none;
}

align_suspension_once_example :
    ((align_suspension env true (some suspended_launcher) full_state).1.trace
      ≡ update_job (realigned suspended_launcher full_state) ∷ full_state.trace)
    × ((align_suspension env true (some suspended_launcher) full_state).1.cache.jobs "default"
          (launcher_name pi_job)
        ≡ found (realigned suspended_launcher full_state))
    × (align_suspension env true
          (some (realigned suspended_launcher full_state))
          (align_suspension env true (some suspended_launcher) full_state).1
        ≡ (
          ok (some (realigned suspended_launcher full_state)),
          (align_suspension env true (some suspended_launcher) full_state).1,
        ))
unfolding is_group_job_suspended is_job_suspended
align_suspension_once_example = align_suspension_once env suspended_launcher full_state refl
