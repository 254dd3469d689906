-- ===== src/Controller/Legit/Conditions.antt =====
-- What a sync writes in the conditions and the times of the status keeps the invariant.
use mpi_operator.Prelude.{sym, subst, String, ℕ, refl, some, List}
use mpi_operator.Prelude.Tests.{All, is_nil}
use mpi_operator.Api.{GroupJob, Pod, Job, job_suspended}
use mpi_operator.Names.{is_group_job_suspended}
use mpi_operator.Status.{get_condition, update_conditions, new_condition}
use mpi_operator.Controller.World.{Answer, Env, State, modify_job}
use mpi_operator.Controller.Update.{
  set_start, set_completion, set_job_condition, restart, suspend, resume, update_suspended,
  job_pods, complete_now, report_evicted,
}
use mpi_operator.Controller.Legit.Roles.{statuses-set_condition}
use mpi_operator.Controller.Keeps.{
  ok_calm, err_calm, Keeps, Keeps-pure, Keeps-if, Keeps-bind, Keeps-when,
}
use mpi_operator.Controller.Legit.{
  Calm, HasRole, Inv, run, answer-Inv, event-Keeps, modify_status-Keeps,
}

module _ {env : Env} {j : GroupJob} {pods : String → String → Answer Pod} {R : List String} where
  pub set_start-Keeps :
      (s : State)
      → Keeps (Calm env j pods) (Inv env j pods R) (modify_job (set_start (env.now s.trace)))
  set_start-Keeps s = modify_status-Keeps (set_start (env.now s.trace)) (λ k. (refl, refl, refl))

  pub set_job_condition-Keeps :
      (type status reason message : String)
      → Keeps
          (Calm env j pods)
          (Inv env j pods R)
          (set_job_condition env type status reason message)
  unfolding set_job_condition update_conditions
  set_job_condition-Keeps type status reason message = record {
    preserved = λ s h. (
      record {
        same_meta = h.same_meta;
        same_spec = h.same_spec;
        same_pods = h.same_pods;
        legit = h.legit;
        roles =
            subst (λ o. All (HasRole o) R)
              (sym (
                statuses-set_condition s.job.status
                  (new_condition (env.now s.trace) type status reason message)))
              h.roles;
      },
      λ n. ok_calm _,
    );
  }

  restart-Keeps : Keeps (Calm env j pods) (Inv env j pods R) (restart env)
  unfolding restart
  restart-Keeps = record { preserved = λ s h. run (set_start-Keeps s) h }

  suspend-Keeps : Keeps (Calm env j pods) (Inv env j pods R) (suspend env)
  unfolding suspend
  suspend-Keeps =
      Keeps-bind _ _ (set_job_condition-Keeps _ _ _ _) λ changed. Keeps-when changed _ (event-Keeps)

  resume-Keeps : Keeps (Calm env j pods) (Inv env j pods R) (resume env)
  unfolding resume
  resume-Keeps =
      Keeps-bind _ _ (set_job_condition-Keeps _ _ _ _)
        λ changed. Keeps-when changed _ (Keeps-bind _ _ (event-Keeps) (λ t. restart-Keeps))

  pub update_suspended-Keeps : Keeps (Calm env j pods) (Inv env j pods R) (update_suspended env)
  unfolding update_suspended
  update_suspended-Keeps = record {
    preserved = λ s h.
        run
          (Keeps-if (is_group_job_suspended s.job) _ _ suspend-Keeps (
            Keeps-if (is_nil (get_condition s.job.status.conditions job_suspended)) _ _
              (Keeps-pure tt) resume-Keeps))
          h;
  }

  pub job_pods-Keeps :
      (launcher : Job) → Keeps (Calm env j pods) (Inv env j pods R) (job_pods env launcher)
  unfolding job_pods
  job_pods-Keeps launcher = record {
    preserved = λ s h.
        answer-Inv (s.cache.list_pods launcher.meta.namespace launcher.selector) _ _
          (λ found_pods. (h, λ n. ok_calm _)) λ e. (h, λ n. err_calm _);
  }

  pub complete_now-Keeps : Keeps (Calm env j pods) (Inv env j pods R) (complete_now env)
  unfolding complete_now set_completion
  complete_now-Keeps = record {
    preserved = λ s h.
        run
          (modify_status-Keeps (set_completion (some (env.now s.trace))) (λ k. (refl, refl, refl)))
          h;
  }

  pub report_evicted-Keeps :
      (evict workers : ℕ)
      → Keeps (Calm env j pods) (Inv env j pods R) (report_evicted env evict workers)
  unfolding report_evicted
  report_evicted-Keeps evict workers =
      Keeps-bind _ _ (set_job_condition-Keeps _ _ _ _) (λ t. event-Keeps)
