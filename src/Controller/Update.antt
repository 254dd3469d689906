-- ===== src/Controller/Update.antt =====
-- updateGroupJobStatus and updateGroupJobFailedStatus, on the state of a sync.
use mpi_operator.Prelude.{String, ℕ, Bool, ◌&&◌, not, Option, none, some, List}
use mpi_operator.Prelude.Tests.{if◌then◌else◌, ltb, leb, nat_eq, length, filter_by, is_nil, ◌⧺◌}
use mpi_operator.Prelude.Int.{pos, wrap32}
use mpi_operator.Prelude.Assoc.{lookup}
use mpi_operator.Prelude.Decimal.{itoa}
use mpi_operator.Api.{
  GroupJob, JobStatus, ReplicaStatus, Pod, Job, Time, condition_true, condition_false,
  batch_job_failed, job_suspended, job_running, job_succeeded, job_failed, suspended_reason,
  resumed_reason, succeeded_reason, evicted_reason, running_reason, replica_type_launcher,
  replica_type_worker,
}
use mpi_operator.Outcome.{ok, wrap, deref}
use mpi_operator.Names.{is_group_job_suspended}
use mpi_operator.Status.{
  initialize_statuses, set_status, statuses_or_empty, zero_replica_status, get_condition,
  update_conditions,
}
use mpi_operator.Controller.World.{
  found, failed, Env, Sync, update_status, event, normal, warning, count_succeeded, count_failed,
  set_job_info, ◌>>=◌, ◌>>◌, pure, raise, crash, lift, perform, emit, modify_job, when,
}
use mpi_operator.Controller.Status.{
  get_job_condition, is_job_succeeded, is_job_failed, count_running_pods, tally_workers,
  same_status, failed_reason_message, full_name,
}

-- A change of the status that the map has for a role, through its pointer.
unfoldable pub modify_status : String → (ReplicaStatus → ReplicaStatus) → Sync (Unit {0})
modify_status rtype f s = elim (lookup rtype (statuses_or_empty s.job.status.replica_statuses)) [
  | none ↦ crash s
  | some r ↦
      (ok tt, record s { job = record s.job { status = set_status s.job.status rtype (f r) } })
]

abbrev pub set_start : Time → GroupJob → GroupJob
set_start now j = record j { status = record j.status { start_time = some now } }

-- A completion time that is there stays.
unfoldable pub set_completion : Option Time → GroupJob → GroupJob
set_completion time j = record j {
  status = record j.status {
    completion_time = elim j.status.completion_time [ none ↦ time | some t ↦ some t ];
  };
}

module _ (env : Env) where
  unfoldable pub set_job_condition : (type status reason message : String) → Sync Bool
  set_job_condition type status reason message s =
      let (j, changed) = update_conditions (env.now s.trace) type status reason message s.job in
      (ok changed, record s { job = j })

  -- The job is not suspended now, and was before: the start time is set again.
  unfoldable pub restart : Sync (Unit {0})
  restart s = modify_job (set_start (env.now s.trace)) s

  unfoldable pub suspend : Sync (Unit {0})
  unfolding set_job_condition
  suspend = do
    changed ← set_job_condition job_suspended condition_true suspended_reason "GroupJob suspended"
    when changed (emit (event normal "GroupJobSuspended" "GroupJob suspended"))

  unfoldable pub resume : Sync (Unit {0})
  unfolding set_job_condition restart
  resume = do
    changed ← set_job_condition job_suspended condition_false resumed_reason "GroupJob resumed"
    when changed (emit (event normal "GroupJobResumed" "GroupJob resumed") >> restart)

  unfoldable pub update_suspended : Sync (Unit {0})
  unfolding suspend resume
  update_suspended s =
      (if is_group_job_suspended s.job
          then suspend
          else if is_nil (get_condition s.job.status.conditions job_suspended)
          then pure tt
          else resume)
        s

  -- The pods that the launcher Job controls.
  unfoldable pub job_pods : Job → Sync (List Pod)
  job_pods launcher s = elim (s.cache.list_pods launcher.meta.namespace launcher.selector) [
    | found pods ↦
        pure (filter_by (λ p. env.machinery.is_controlled_by p.meta launcher.meta) pods) s
    | failed e ↦ raise (wrap "checking launcher pods running" (wrap "obtaining pods" e)) s
  ]

  unfoldable pub update_succeeded : Job → Sync (Unit {0})
  unfolding set_job_condition modify_status
  update_succeeded launcher s =
      (do
        modify_status replica_type_launcher (λ r. record r { succeeded = pos 1 })
        emit (event normal succeeded_reason message)
        modify_job (set_completion launcher.completion_time)
        set_job_condition job_succeeded condition_true succeeded_reason message
        emit count_succeeded)
        s
    where
      message : String
      message = "GroupJob " ⧺ full_name s.job ⧺ " successfully completed."

  unfoldable pub complete_now : Sync (Unit {0})
  complete_now s = modify_job (set_completion (some (env.now s.trace))) s

  unfoldable pub update_failed : Job → List Pod → Sync (Unit {0})
  unfolding set_job_condition complete_now
  update_failed launcher launcher_pods s =
      (do
        c ← lift (deref (get_job_condition launcher.conditions batch_job_failed))
        let (reason, message) = failed_reason_message s.job c launcher_pods
        emit (event warning reason message)
        complete_now
        set_job_condition job_failed condition_true reason message
        emit count_failed)
        s

  -- The branch on the state of the launcher Job.
  unfoldable pub update_end : Job → List Pod → Sync (Unit {0})
  unfolding update_succeeded update_failed modify_status
  update_end launcher launcher_pods =
      if is_job_succeeded launcher
      then update_succeeded launcher
      else if is_job_failed launcher
      then update_failed launcher launcher_pods
      else modify_status replica_type_launcher
          (λ r. record r { active = wrap32 (pos (count_running_pods launcher_pods)) })

  -- The launcher's part; the result is the number of its running pods.
  unfoldable pub update_launcher : Option Job → Sync ℕ
  unfolding job_pods modify_status update_end
  update_launcher none = pure 0
  update_launcher (some launcher) = do
    launcher_pods ← job_pods launcher
    modify_job (initialize_statuses replica_type_launcher)
    modify_status replica_type_launcher (λ r. record r { failed = launcher.failed })
    update_end launcher launcher_pods
    λ s. emit (set_job_info launcher.meta.name s.job.meta.namespace) s
    pure (count_running_pods launcher_pods)

  unfoldable pub report_evicted : (evict workers : ℕ) → Sync (Unit {0})
  unfolding set_job_condition
  report_evicted evict workers = do
    set_job_condition job_failed condition_true evicted_reason message
    emit (event warning evicted_reason message)
    where
      message : String
      message = itoa (pos evict) ⧺ "/" ⧺ itoa (pos workers) ⧺ " workers are evicted"

  -- The workers' part; the result is the number of running workers.
  unfoldable pub update_workers : List Pod → Sync ℕ
  unfolding modify_status report_evicted
  update_workers workers =
      let t =
        tally_workers (record { status = zero_replica_status; running = 0; evict = 0 }) workers in
      do
        modify_job (initialize_statuses replica_type_worker)
        modify_status replica_type_worker (λ _. t.status)
        when (ltb 0 t.evict) (report_evicted t.evict (length workers))
        pure t.running

  unfoldable pub report_not_running : Sync (Unit {0})
  unfolding set_job_condition
  report_not_running s =
      (do
        set_job_condition job_running condition_false suspended_reason
            ("GroupJob " ⧺ full_name s.job ⧺ " is suspended.")
        pure tt)
        s

  unfoldable pub report_running : Sync (Unit {0})
  unfolding set_job_condition
  report_running s =
      (do
        set_job_condition job_running condition_true running_reason
            ("GroupJob " ⧺ full_name s.job ⧺ " is running.")
        emit (event normal "GroupJobRunning" ("GroupJob " ⧺ full_name s.job ⧺ " is running")))
        s

  unfoldable pub update_running : Bool → (launcher_pods running workers : ℕ) → Sync (Unit {0})
  unfolding report_not_running report_running
  update_running launched launcher_pods running workers s =
      (if is_group_job_suspended s.job
          then report_not_running
          else if launched && (leb 1 launcher_pods && nat_eq running workers)
          then report_running
          else pure tt)
        s

  -- The API server is called only where the status has changed.
  unfoldable pub write_if_changed : JobStatus → Sync (Unit {0})
  write_if_changed old s =
      (if same_status old s.job.status
          then pure tt
          else perform (update_status s.job) env.client.on_group_job >> pure tt)
        s

  unfoldable pub update_group_job_status : Option Job → List Pod → Sync (Unit {0})
  unfolding update_suspended update_launcher update_workers update_running write_if_changed
  update_group_job_status launcher workers s =
      (do
        update_suspended
        launcher_pods ← update_launcher launcher
        running ← update_workers workers
        update_running (not (is_nil launcher)) launcher_pods running (length workers)
        write_if_changed s.job.status)
        s
