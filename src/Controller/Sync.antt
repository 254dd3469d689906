-- ===== src/Controller/Sync.antt =====
-- syncHandler and cleanUpWorkerPods.
pub mod Handler
pub mod Suspension
use mpi_operator.Prelude.{
  String, Bool, true, false, ◌&&◌, ◌||◌, not, Option, none, some, List, [], ◌∷◌, ◌==◌,
}
use mpi_operator.Prelude.Tests.{if◌then◌else◌, is_nil, is_empty, ◌⧺◌}
use mpi_operator.Prelude.Int.{pos}
use mpi_operator.Api.{
  GroupJob, Pod, Job, condition_true, created_reason, job_created, replica_type_worker,
  clean_pod_policy_all, clean_pod_policy_running,
}
use mpi_operator.Outcome.{deref}
use mpi_operator.Names.{
  is_group_job_suspended, is_job_suspended, launcher_name, managed_by_external_controller,
}
use mpi_operator.Machinery.{FieldError}
use mpi_operator.Status.{initialize_statuses, is_finished}
use mpi_operator.Validation.{validate_group_job}
use mpi_operator.PodGroup.Control.{GangScheduler}
use mpi_operator.Controller.World.{
  found, Env, State, Sync, update_job, update_status, event, normal, warning, count_created, ◌>>=◌,
  ◌>>◌, pure, lift, perform, emit, modify_job, when,
}
use mpi_operator.Controller.Resources.{get_launcher_job}
use mpi_operator.Controller.PodGroups.{delete_pod_groups}
use mpi_operator.Controller.Workers.{delete_worker_pods}
use mpi_operator.Controller.Status.{is_job_finished, truncate_message, full_name}
use mpi_operator.Controller.Update.{
  modify_status, set_start, set_job_condition, update_group_job_status,
}
use mpi_operator.Controller.Ensure.{ensure_all}

-- `*cleanPodPolicy` is All or Running.
pub is_clean_up_pods : String → Bool
is_clean_up_pods policy = policy == clean_pod_policy_all || policy == clean_pod_policy_running

abbrev pub is_done : Option Job → Bool
is_done none = false
is_done (some launcher) = is_job_finished launcher

-- The launcher that came from the cache is the cache's own object: it is changed in place.
unfoldable pub store_launcher : Bool → Job → State → State
store_launcher false launcher s = s
store_launcher true launcher s = record s {
  cache = record s.cache {
    jobs = λ namespace name.
        if namespace == s.job.meta.namespace && name == launcher_name s.job
        then found launcher
        else s.cache.jobs namespace name;
  };
}

abbrev pub same_bool : Bool → Bool → Bool
same_bool true b = b
same_bool false b = not b

-- `CompletionTime` is set and a condition says that the job has ended.
pub is_ended : GroupJob → Bool
is_ended j = is_finished j.status && not (is_nil j.status.completion_time)

module _ (env : Env) where
  unfoldable pub delete_gang : Option GangScheduler → Sync (Unit {0})
  delete_gang none = pure tt
  delete_gang (some g) = delete_pod_groups env

  unfoldable pub clean_up_worker_pods : Sync (Unit {0})
  unfolding delete_gang
  clean_up_worker_pods = do
    delete_worker_pods env
    modify_job (initialize_statuses replica_type_worker)
    delete_gang env.gang
    modify_status replica_type_worker (λ r. record r { active = pos 0 })

  -- The status has no condition yet: the job is new.
  unfoldable pub record_created : Sync (Unit {0})
  record_created s =
      (do
        set_job_condition env job_created condition_true created_reason message
        emit (event normal "GroupJobCreated" message)
        emit count_created)
        s
    where
      message : String
      message = "GroupJob " ⧺ full_name s.job ⧺ " is created."

  -- A finished job: its pods are cleaned up if its policy says so.
  unfoldable pub sync_finished : Sync (Unit {0})
  unfolding clean_up_worker_pods is_clean_up_pods
  sync_finished s =
      (do
        policy ← lift (deref s.job.spec.run_policy.clean_pod_policy)
        when (is_clean_up_pods policy) (
            clean_up_worker_pods >> λ t.
            (perform (update_status t.job) env.client.on_group_job >> pure tt) t))
        s

  unfoldable pub start_time : Sync (Unit {0})
  start_time s =
      (if is_nil s.job.status.start_time && not (is_group_job_suspended s.job)
          then modify_job (set_start (env.now s.trace))
          else pure tt)
        s

  unfoldable pub reconcile : Option Job → Sync (Option Job × List Pod)
  unfolding ensure_all
  reconcile launcher = if is_done launcher then pure (launcher, []) else ensure_all env launcher

  -- The object is changed, then the API server is called.
  unfoldable pub change_launcher : Bool → Job → Sync (Option Job)
  unfolding store_launcher
  change_launcher cached launcher s =
      (perform (update_job launcher) env.client.on_job >> pure (some launcher))
        (store_launcher cached launcher s)

  unfoldable pub align_suspension : Bool → Option Job → Sync (Option Job)
  unfolding change_launcher
  align_suspension cached none s = pure none s
  align_suspension cached (some launcher) s =
      (if same_bool (is_group_job_suspended s.job) (is_job_suspended launcher)
          then pure (some launcher)
          else change_launcher cached
              (record launcher { suspend = some (is_group_job_suspended s.job) }))
        s

  unfoldable pub clean_up_if_suspended : Sync (Unit {0})
  unfolding clean_up_worker_pods
  clean_up_if_suspended s =
      (if is_group_job_suspended s.job then clean_up_worker_pods else pure tt) s

  -- The part of `syncHandler` for a job that has not finished.
  unfoldable pub sync_active : Sync (Unit {0})
  unfolding start_time reconcile align_suspension clean_up_if_suspended
  sync_active = do
    start_time
    cached ← get_launcher_job env
    (launcher, workers) ← reconcile cached
    launcher' ← align_suspension (not (is_nil cached)) launcher
    clean_up_if_suspended
    update_group_job_status env launcher' workers

  unfoldable pub record_if_new : Sync (Unit {0})
  unfolding record_created
  record_if_new s = when (is_empty s.job.status.conditions) record_created s

  unfoldable pub sync_by_state : Sync (Unit {0})
  unfolding sync_finished sync_active is_ended
  sync_by_state s = (if is_ended s.job then sync_finished else sync_active) s

  unfoldable pub sync_valid : Sync (Unit {0})
  unfolding record_if_new sync_by_state
  sync_valid = do record_if_new; sync_by_state

  unfoldable pub report_invalid : List FieldError → Sync (Unit {0})
  report_invalid errs = emit (
      event warning "ValidationError"
        (truncate_message ("Found validation errors: " ⧺ env.machinery.aggregate errs)))

  -- The branch on the errors that the validator found.
  unfoldable pub sync_checked : List FieldError → Sync (Unit {0})
  unfolding report_invalid sync_valid
  sync_checked [] = sync_valid
  sync_checked (e ∷ es) = report_invalid (e ∷ es)

  -- `syncHandler` behind the defaulting.
  unfoldable pub sync_job : Sync (Unit {0})
  unfolding sync_checked
  sync_job s =
      (if not (is_nil (managed_by_external_controller s.job.spec.run_policy.managed_by))
          then pure tt
          else if not (is_nil s.job.meta.deletion_timestamp)
          then pure tt
          else sync_checked (validate_group_job env.machinery s.job))
        s
