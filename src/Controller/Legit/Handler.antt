-- ===== src/Controller/Legit/Handler.antt =====
-- All calls of a sync are legitimate.
use mpi_operator.Prelude.{
  ◌≢◌, refl, Bool, true, false, ◌&&◌, not, Option, none, some, List, [], ◌∷◌,
}
use mpi_operator.Prelude.Tests.{is_nil, is_empty, All}
use mpi_operator.Machinery.{FieldError}
use mpi_operator.Prelude.{String}
use mpi_operator.Api.{GroupJob, Pod, Job, replica_type_worker}
use mpi_operator.Outcome.{deref, panic}
use mpi_operator.Names.{is_group_job_suspended, is_job_suspended, managed_by_external_controller}
use mpi_operator.Validation.{validate_group_job}
use mpi_operator.PodGroup.Control.{GangScheduler}
use mpi_operator.Controller.World.{Answer, Cache, Env, State, update_job, count_created}
use mpi_operator.Controller.Sync.{
  is_clean_up_pods, delete_gang, clean_up_worker_pods, record_created, sync_finished, start_time,
  store_launcher, same_bool, change_launcher, align_suspension, clean_up_if_suspended, sync_active,
  is_ended, record_if_new, sync_by_state, sync_valid, report_invalid, sync_checked, sync_job,
}
use mpi_operator.Controller.Keeps.{
  ok_calm, Keeps, Keeps-pure, Keeps-lift, Keeps-if, Keeps-bind, Keeps-when,
}
use mpi_operator.Controller.Legit.{Calm, IsLegit, Inv, run, perform-Keeps, emit-Keeps, event-Keeps}
use mpi_operator.Controller.Legit.Resources.{get_launcher_job-Keeps}
use mpi_operator.Controller.Legit.PodGroups.{delete_pod_groups-Keeps}
use mpi_operator.Controller.Legit.Valid.{policy_there}
use mpi_operator.Controller.Legit.Deletion.{delete_worker_pods-Keeps}
use mpi_operator.Controller.Legit.Roles.{initialize-Keeps, modify_role-Keeps}
use mpi_operator.Controller.Legit.Ensure.{reconcile-Keeps}
use mpi_operator.Controller.Legit.Conditions.{set_start-Keeps, set_job_condition-Keeps}
use mpi_operator.Controller.Legit.Update.{write-Inv, update_group_job_status-Keeps}

module _ {env : Env} {j : GroupJob} {pods : String → String → Answer Pod} {R : List String} where
  delete_gang-Keeps :
      (gang : Option GangScheduler)
      → Keeps (Calm env j pods) (Inv env j pods R) (delete_gang env gang)
  unfolding delete_gang
  delete_gang-Keeps none = Keeps-pure tt
  delete_gang-Keeps (some g) = delete_pod_groups-Keeps

module _ {env : Env} {j : GroupJob} {pods : String → String → Answer Pod} {R : List String} where
  clean_up_worker_pods-Keeps : Keeps (Calm env j pods) (Inv env j pods R) (clean_up_worker_pods env)
  unfolding clean_up_worker_pods
  clean_up_worker_pods-Keeps = Keeps-bind _ _ delete_worker_pods-Keeps λ t.
      initialize-Keeps replica_type_worker _ λ u.
        Keeps-bind _ _ (delete_gang-Keeps env.gang) λ v. modify_role-Keeps replica_type_worker _

  record_created-Keeps : Keeps (Calm env j pods) (Inv env j pods R) (record_created env)
  unfolding record_created
  record_created-Keeps = record {
    preserved = λ s h.
        run
          (Keeps-bind _ _ (set_job_condition-Keeps _ _ _ _)
            λ t. Keeps-bind _ _ event-Keeps (λ u. emit-Keeps count_created tt))
          h;
  }

  sync_finished-Keeps : Keeps (Calm env j pods) (Inv env j pods R) (sync_finished env)
  unfolding sync_finished
  sync_finished-Keeps = record {
    preserved = λ s h.
        run
          (Keeps-bind _ _
            (Keeps-lift (deref s.job.spec.run_policy.clean_pod_policy) (λ n. policy_there n h))
            λ policy. Keeps-when (is_clean_up_pods policy) _ (
              Keeps-bind _ _ clean_up_worker_pods-Keeps
                (λ t. record { preserved = λ s' h'. write-Inv h' })))
          h;
  }

  start_time-Keeps : Keeps (Calm env j pods) (Inv env j pods R) (start_time env)
  unfolding start_time
  start_time-Keeps = record {
    preserved = λ s h.
        run
          (Keeps-if (is_nil s.job.status.start_time && not (is_group_job_suspended s.job)) _ _
            (set_start-Keeps s) (Keeps-pure tt))
          h;
  }

  -- The caches are not a part of the invariant.
  store_launcher-Inv :
      (cached : Bool) (launcher : Job) {s : State}
      → Inv env j pods R s
      → Inv env j pods R (store_launcher cached launcher s)
  unfolding store_launcher
  store_launcher-Inv false launcher h = h
  store_launcher-Inv true launcher h = record {
    same_meta = h.same_meta;
    same_spec = h.same_spec;
    same_pods = h.same_pods;
    legit = h.legit;
    roles = h.roles;
  }

  change_launcher-Keeps :
      (cached : Bool) (launcher : Job)
      → Keeps (Calm env j pods) (Inv env j pods R) (change_launcher env cached launcher)
  unfolding change_launcher
  change_launcher-Keeps cached launcher = record {
    preserved = λ s h.
        run
          (Keeps-bind _ _ (perform-Keeps (update_job launcher) env.client.on_job tt)
            (λ t. Keeps-pure (some launcher)))
          (store_launcher-Inv cached launcher h);
  }

  align_suspension-Keeps :
      (cached : Bool) (launcher : Option Job)
      → Keeps (Calm env j pods) (Inv env j pods R) (align_suspension env cached launcher)
  unfolding align_suspension
  align_suspension-Keeps cached none = record { preserved = λ s h. (h, λ n. ok_calm none) }
  align_suspension-Keeps cached (some launcher) = record {
    preserved = λ s h.
        run
          (Keeps-if (same_bool (is_group_job_suspended s.job) (is_job_suspended launcher)) _ _
            (Keeps-pure (some launcher)) (change_launcher-Keeps cached _))
          h;
  }

  clean_up_if_suspended-Keeps :
      Keeps (Calm env j pods) (Inv env j pods R) (clean_up_if_suspended env)
  unfolding clean_up_if_suspended
  clean_up_if_suspended-Keeps = record {
    preserved = λ s h.
        run (Keeps-if (is_group_job_suspended s.job) _ _ clean_up_worker_pods-Keeps (Keeps-pure tt))
          h;
  }

  sync_active-Keeps : Keeps (Calm env j pods) (Inv env j pods R) (sync_active env)
  unfolding sync_active
  sync_active-Keeps = Keeps-bind _ _ start_time-Keeps λ t.
      Keeps-bind _ _ get_launcher_job-Keeps λ cached.
        Keeps-bind _ _ (reconcile-Keeps cached) λ both.
          Keeps-bind _ _ (align_suspension-Keeps _ both.0) λ launcher.
            Keeps-bind _ _ clean_up_if_suspended-Keeps
              λ u. update_group_job_status-Keeps launcher both.1

  record_if_new-Keeps : Keeps (Calm env j pods) (Inv env j pods R) (record_if_new env)
  unfolding record_if_new
  record_if_new-Keeps = record {
    preserved = λ s h. run (Keeps-when (is_empty s.job.status.conditions) _ record_created-Keeps) h;
  }

  sync_by_state-Keeps : Keeps (Calm env j pods) (Inv env j pods R) (sync_by_state env)
  unfolding sync_by_state
  sync_by_state-Keeps = record {
    preserved = λ s h. run (Keeps-if (is_ended s.job) _ _ sync_finished-Keeps sync_active-Keeps) h;
  }

  sync_checked-Keeps :
      (errs : List FieldError) → Keeps (Calm env j pods) (Inv env j pods R) (sync_checked env errs)
  unfolding sync_checked sync_valid report_invalid
  sync_checked-Keeps [] = Keeps-bind _ _ record_if_new-Keeps (λ t. sync_by_state-Keeps)
  sync_checked-Keeps (e ∷ es) = event-Keeps

  sync_job-Keeps : Keeps (Calm env j pods) (Inv env j pods R) (sync_job env)
  unfolding sync_job
  sync_job-Keeps = record {
    preserved = λ s h.
        run
          (Keeps-if (not (is_nil (managed_by_external_controller s.job.spec.run_policy.managed_by)))
            _ _ (Keeps-pure tt)
            (Keeps-if (not (is_nil s.job.meta.deletion_timestamp)) _ _ (Keeps-pure tt)
              (sync_checked-Keeps (validate_group_job env.machinery s.job))))
          h;
  }

begun :
    (env : Env) (j : GroupJob) (cache : Cache)
    → Inv env j cache.pods [] (record { job = j; cache = cache; trace = [] })
begun env j cache = record {
  same_meta = refl;
  same_spec = refl;
  same_pods = refl;
  legit = tt;
  roles = tt;
}

-- Whatever the caches hold and the API server answers, all calls of a sync are legitimate: it creates
-- no pod while the job is suspended, each object that it creates stands in the job's namespace and has
-- the job as its only owner and controller, it updates a Service, ConfigMap, Secret or PodGroup only if
-- the job controls it, and the job that it writes has the metadata and the spec that it was given.
pub sync_job-IsLegit :
    (env : Env) (j : GroupJob) (cache : Cache)
    → All (IsLegit env j) (sync_job env (record { job = j; cache = cache; trace = [] })).1.trace
sync_job-IsLegit env j cache =
    (sync_job-Keeps.preserved (record { job = j; cache = cache; trace = [] })
      (begun env j cache)).0.legit

-- Let the job be valid, let the pods' lister fail only for pods that are missing, and let a PodGroup be
-- made for the job if there is a gang scheduler. Then a sync does not panic, whatever the caches hold and
-- the API server answers.
pub sync_job_no_panic :
    (env : Env) (j : GroupJob) (cache : Cache)
    → Calm env j cache.pods
    → (sync_job env (record { job = j; cache = cache; trace = [] })).0 ≢ panic
sync_job_no_panic env j cache =
    (sync_job-Keeps.preserved (record { job = j; cache = cache; trace = [] }) (begun env j cache)).1
