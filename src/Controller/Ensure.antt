-- ===== src/Controller/Ensure.antt =====
-- The part of syncHandler that gets or creates the objects of a job.
use mpi_operator.Prelude.{◌||◌, Option, none, some, List, [], ◌∷◌, ◌==◌}
use mpi_operator.Prelude.Tests.{if◌then◌else◌, nat_eq, length, ◌⧺◌}
use mpi_operator.Api.{Pod, Job, launcher_creation_policy_at_startup, failed_reason}
use mpi_operator.Outcome.{error_text, wrap}
use mpi_operator.Names.{is_group_job_suspended}
use mpi_operator.PodGroup.Control.{GangScheduler}
use mpi_operator.Build.Config.{new_job_service}
use mpi_operator.Build.Launcher.{new_launcher_job, overrides_restart_policy}
use mpi_operator.Controller.World.{
  Answer, found, failed, Env, Sync, create_job, event, warning, ◌>>=◌, ◌>>◌, pure, raise, lift,
  emit, when, with_text,
}
use mpi_operator.Controller.Resources.{
  get_or_create_service, get_or_create_config_map, get_or_create_ssh_auth_secret,
}
use mpi_operator.Controller.PodGroups.{get_or_create_pod_groups}
use mpi_operator.Controller.Workers.{get_or_create_worker, count_ready_worker_pods}

module _ (env : Env) where
  unfoldable pub ensure_pod_groups : Option GangScheduler → Sync (Unit {0})
  ensure_pod_groups none = pure tt
  ensure_pod_groups (some g) = get_or_create_pod_groups env g >> pure tt

  -- The workers of a job that is not suspended.
  unfoldable pub ensure_workers : Sync (List Pod)
  unfolding ensure_pod_groups
  ensure_workers s =
      (if is_group_job_suspended s.job
          then pure []
          else ensure_pod_groups env.gang >> get_or_create_worker env)
        s

  unfoldable pub launcher_of_create : Answer Job → Sync Job
  launcher_of_create (found l) = pure l
  launcher_of_create (failed e) = do
    emit (event warning failed_reason ("launcher pod created failed: " ⧺ error_text e))
    raise (wrap "creating launcher Pod" e)

  unfoldable pub submit_launcher : Sync Job
  unfolding launcher_of_create
  submit_launcher s =
      (do
        when (overrides_restart_policy s.job) (
            emit (
              event warning "SetPodTemplateRestartPolicy"
                "Restart policy in pod template overridden by restart policy in replica spec"))
        launcher ← lift (new_launcher_job env.machinery env.gang s.job)
        λ t.
            launcher_of_create (env.client.on_job t.trace (create_job launcher))
              (record t { trace = create_job launcher ∷ t.trace }))
        s

  -- The launcher is created at once, or when all workers are ready.
  unfoldable pub create_launcher : List Pod → Sync (Option Job)
  unfolding submit_launcher
  create_launcher workers s =
      (if s.job.spec.launcher_creation_policy == launcher_creation_policy_at_startup
            || nat_eq (count_ready_worker_pods workers) (length workers)
          then submit_launcher >>= (λ l. pure (some l))
          else pure none)
        s

  unfoldable pub ensure_launcher : Option Job → List Pod → Sync (Option Job)
  unfolding create_launcher
  ensure_launcher (some launcher) workers = pure (some launcher)
  ensure_launcher none workers = create_launcher workers

  -- The objects of a job whose launcher has not finished.
  unfoldable pub ensure_all : Option Job → Sync (Option Job × List Pod)
  unfolding ensure_workers ensure_launcher
  ensure_all launcher s =
      (do
        with_text "getting or creating Service to front workers"
            (get_or_create_service env (new_job_service env.machinery s.job))
        with_text "getting or creating ConfigMap" (get_or_create_config_map env)
        with_text "creating SSH auth secret" (get_or_create_ssh_auth_secret env)
        workers ← ensure_workers
        launcher' ← ensure_launcher launcher workers
        pure (launcher', workers))
        s
