-- ===== src/Examples/Syncs.antt =====
-- The theorems on the operations of a sync at concrete inputs.
use mpi_operator.Prelude.{◌<◌, ◌==◌, ◌||◌, zero, suc, ℕ, true, ◌≢◌, ◌≡◌, refl, List, [], ◌∷◌, arith}
use mpi_operator.Prelude.Tests.{All, if◌then◌else◌}
use mpi_operator.Prelude.Int.{pos}
use mpi_operator.Prelude.Assoc.{lookup}
use mpi_operator.Api.{Pod, PodPhase, pod_running, pod_failed, pod_succeeded}
use mpi_operator.Status.{zero_replica_status}
use mpi_operator.Names.{worker_name, worker_replica_index_label, run_launcher_as_worker}
use mpi_operator.Controller.Legit.{IsLegit}
use mpi_operator.Controller.Legit.Handler.{sync_job-IsLegit}
use mpi_operator.Controller.Sync.{sync_job}
use mpi_operator.Controller.Status.{tally_workers}
use mpi_operator.Controller.Status.Counts.{
  tally_of, in_phase, count_pods, is_evicted, tally_workers-counts,
}
use mpi_operator.Prelude.Tests.{length, ltb}
use mpi_operator.Prelude.Decimal.{itoa}
use mpi_operator.Controller.World.{Answer, State, found, failed, ◌>>=◌, delete_pod}
use mpi_operator.Controller.Resources.{owned_or_refuse}
use mpi_operator.Controller.Workers.{
  create_workers, get_or_create_one, worker_of_answer, checked_worker, scale_down_pod,
}
use mpi_operator.Controller.Workers.Created.{AreWorkersFrom, create_workers-IsOurs}
use mpi_operator.Controller.Workers.Scaling.{
  label_index, scale_down_pod_trace, scale_down_pod_deletes_last,
}
use mpi_operator.Controller.Workers.Steady.{IsThere, pods_from, create_workers_steady}
use mpi_operator.Outcome.{ok, panic, Error, not_found, failure, is_not_found}
use mpi_operator.Controller.Sync.Handler.{sync_handler}
use mpi_operator.Controller.Legit.Panics.{sync_handler_calm}
use mpi_operator.Examples.Jobs.{as_worker_job, pi_job, plain_pod_spec, plain_meta}
use mpi_operator.Examples.Setup.{
  machinery-NonnegativeLaw, owned_pod, full_state, labelled_pod, env, empty_cache,
}

sync_job-IsLegit_example :
    All
      (IsLegit env pi_job)
      (sync_job env (record { job = pi_job; cache = empty_cache; trace = [] })).1.trace
sync_job-IsLegit_example = sync_job-IsLegit env pi_job empty_cache

abbrev worker_pod : PodPhase → Pod
worker_pod phase = record {
  meta = plain_meta "pi-worker-0";
  spec = plain_pod_spec;
  phase = phase;
  conditions = [];
  reason = "Evicted";
  message = "";
}

abbrev three_workers : List Pod
three_workers = worker_pod pod_running ∷ worker_pod pod_failed ∷ worker_pod pod_running ∷ []

tally_workers-counts_example :
    tally_workers (record { status = zero_replica_status; running = 0; evict = 0 }) three_workers
    ≡ tally_of
        (in_phase pod_running three_workers)
        (in_phase pod_succeeded three_workers)
        (in_phase pod_failed three_workers)
        (in_phase pod_running three_workers)
        (count_pods is_evicted three_workers)
tally_workers-counts_example = tally_workers-counts three_workers (omega arith)

abbrev two_pods : List Pod
two_pods = owned_pod "pi-worker-0" ∷ owned_pod "pi-worker-1" ∷ []

create_workers-IsOurs_example :
    ◌≡◌ {A = ℕ} (length two_pods) 2 × AreWorkersFrom env pi_job full_state.cache 0 two_pods
unfolding create_workers get_or_create_one worker_of_answer checked_worker owned_or_refuse ◌>>=◌
    worker_name itoa
create_workers-IsOurs_example = create_workers-IsOurs env full_state 0 2 two_pods refl

scale_down_pod_trace_example :
    (scale_down_pod env (pos 1) labelled_pod full_state).1.trace
    ≡ (if ltb (label_index pi_job 2) 1 then [] else delete_pod "default" "pi-worker-1" ∷ [])
unfolding lookup worker_replica_index_label run_launcher_as_worker itoa
scale_down_pod_trace_example =
    scale_down_pod_trace env pi_job 2 1 labelled_pod full_state (omega arith) refl

scale_down_pod_deletes_last_example :
    (scale_down_pod env (pos 2) labelled_pod full_state).1.trace
    ≡ delete_pod "default" "pi-worker-1" ∷ []
unfolding lookup worker_replica_index_label run_launcher_as_worker itoa
scale_down_pod_deletes_last_example =
    scale_down_pod_deletes_last env as_worker_job 1 labelled_pod full_state (omega arith) refl refl

abbrev pi_pods : ℕ → Pod
pi_pods i = owned_pod (worker_name pi_job i)

-- The cache has the two workers of the job, and no other pod.
abbrev steady_state : State
steady_state = record full_state {
  cache = record empty_cache {
    pods = λ namespace name.
        if name == "pi-worker-0" || name == "pi-worker-1"
        then found (owned_pod name)
        else failed (not_found "");
  };
}

both-IsThere : (i : ℕ) → i < 2 → IsThere env steady_state pi_pods i
unfolding worker_name itoa
both-IsThere zero h = record { cached = refl; controlled = refl }
both-IsThere (suc zero) h = record { cached = refl; controlled = refl }
both-IsThere (suc (suc i)) h = absurd (omega arith)

create_workers_steady_example :
    create_workers env 0 2 steady_state ≡ (ok (pods_from pi_pods 0 2), steady_state)
create_workers_steady_example =
    create_workers_steady env steady_state pi_pods 0 2 (λ i low high. both-IsThere i (omega arith))

missing_pod :
    (e : Error) → ◌≡◌ {A = Answer Pod} (failed (not_found "")) (failed e) → is_not_found e ≡ true
missing_pod (not_found t) h = refl
missing_pod (failure t) h = cc

sync_handler_calm_example : (sync_handler env "pi" empty_cache []).result ≢ panic
sync_handler_calm_example =
    sync_handler_calm env "pi" empty_cache machinery-NonnegativeLaw λ namespace name shared e.
      record { only_missing = λ n m x h. missing_pod x h; pod_group_made = λ g status h. cc }
