-- ===== src/Controller/Legit/Update.antt =====
-- The computation and the writing of the status keep the invariant.
use mpi_operator.Prelude.{
  ◌≡◌, ◌≢◌, true, ◌∷◌, String, ℕ, refl, Bool, ◌&&◌, Option, none, some, List, inl, inr,
}
use mpi_operator.Prelude.Tests.{leb, nat_eq, length, Bool-cases}
use mpi_operator.Api.{
  GroupJob, JobStatus, ObjectCondition, Pod, Job, batch_job_failed, replica_type_launcher,
  replica_type_worker,
}
use mpi_operator.Outcome.{panic, deref}
use mpi_operator.Names.{is_group_job_suspended}
use mpi_operator.Controller.World.{
  Answer, Env, State, update_status, count_succeeded, count_failed, set_job_info, ◌>>◌, pure,
  perform,
}
use mpi_operator.Controller.Status.{
  is_true, get_job_condition, is_job_succeeded, is_job_failed, count_running_pods, same_status,
}
use mpi_operator.Controller.Update.{
  set_completion, update_succeeded, update_failed, update_end, update_launcher, update_workers,
  report_not_running, report_running, update_running, write_if_changed, update_group_job_status,
}
use mpi_operator.Controller.Legit.Roles.{initialize-Keeps, modify_role-Keeps}
use mpi_operator.Controller.Keeps.{
  Ends, ok_calm, Keeps-if_tested, Keeps, Keeps-pure, Keeps-lift, Keeps-if, Keeps-bind, Keeps-when,
}
use mpi_operator.Controller.Legit.{
  Calm, Inv, Inv-record, run, perform-Keeps, emit-Keeps, event-Keeps, modify_status-Keeps,
}
use mpi_operator.Controller.Legit.Conditions.{
  set_job_condition-Keeps, update_suspended-Keeps, job_pods-Keeps, complete_now-Keeps,
  report_evicted-Keeps,
}

-- A failed Job has the condition that says so.
failed_condition_there :
    (launcher : Job)
    → is_job_failed launcher ≡ true
    → deref (get_job_condition launcher.conditions batch_job_failed) ≢ panic
unfolding is_job_failed
failed_condition_there launcher h = go (get_job_condition launcher.conditions batch_job_failed) h
  where
    go : (o : Option ObjectCondition) → is_true o ≡ true → deref o ≢ panic
    go none e p = cc
    go (some c) e p = cc

module _ {env : Env} {j : GroupJob} {pods : String → String → Answer Pod} {R : List String} where
  update_succeeded-Keeps :
      (launcher : Job)
      → Keeps
          (Calm env j pods)
          (Inv env j pods (replica_type_launcher ∷ R))
          (update_succeeded env launcher)
  unfolding update_succeeded set_completion
  update_succeeded-Keeps launcher = record {
    preserved = λ s h.
        run
          (Keeps-bind _ _ (modify_role-Keeps replica_type_launcher _) λ t.
            Keeps-bind _ _ (event-Keeps) λ u.
              Keeps-bind _ _
                (modify_status-Keeps (set_completion launcher.completion_time)
                  (λ k. (refl, refl, refl)))
                λ v.
                  Keeps-bind _ _ (set_job_condition-Keeps _ _ _ _)
                    (λ w. emit-Keeps count_succeeded tt))
          h;
  }

  update_failed-Keeps :
      (launcher : Job) (launcher_pods : List Pod)
      → is_job_failed launcher ≡ true
      → Keeps
          (Calm env j pods)
          (Inv env j pods (replica_type_launcher ∷ R))
          (update_failed env launcher launcher_pods)
  unfolding update_failed
  update_failed-Keeps launcher launcher_pods has_failed = record {
    preserved = λ s h.
        run
          (Keeps-bind _ _
            (Keeps-lift (deref (get_job_condition launcher.conditions batch_job_failed))
              (λ n. failed_condition_there launcher has_failed))
            λ c. Keeps-bind _ _ (event-Keeps) λ u. Keeps-bind _ _ complete_now-Keeps λ v.
              Keeps-bind _ _ (set_job_condition-Keeps _ _ _ _) (λ w. emit-Keeps count_failed tt))
          h;
  }

  update_end-Keeps :
      (launcher : Job) (launcher_pods : List Pod)
      → Keeps
          (Calm env j pods)
          (Inv env j pods (replica_type_launcher ∷ R))
          (update_end env launcher launcher_pods)
  unfolding update_end
  update_end-Keeps launcher launcher_pods =
      Keeps-if (is_job_succeeded launcher) _ _ (update_succeeded-Keeps launcher) (
        Keeps-if_tested (is_job_failed launcher) _ _ (update_failed-Keeps launcher launcher_pods)
          (λ other. modify_role-Keeps replica_type_launcher _))

module _ {env : Env} {j : GroupJob} {pods : String → String → Answer Pod} {R : List String} where
  update_launcher-Keeps :
      (launcher : Option Job)
      → Keeps (Calm env j pods) (Inv env j pods R) (update_launcher env launcher)
  unfolding update_launcher
  update_launcher-Keeps none = Keeps-pure 0
  update_launcher-Keeps (some launcher) = Keeps-bind _ _ (job_pods-Keeps launcher) λ pods.
      initialize-Keeps replica_type_launcher _ λ t.
        Keeps-bind _ _ (modify_role-Keeps replica_type_launcher _) λ u.
          Keeps-bind _ _ (update_end-Keeps launcher pods) λ v.
            Keeps-bind _ _
              (record { preserved = λ s h. (Inv-record (set_job_info _ _) tt h, λ n. ok_calm tt) })
              λ w. Keeps-pure (count_running_pods pods)

  update_workers-Keeps :
      (workers : List Pod) → Keeps (Calm env j pods) (Inv env j pods R) (update_workers env workers)
  unfolding update_workers
  update_workers-Keeps workers = initialize-Keeps replica_type_worker _ λ t.
      Keeps-bind _ _ (modify_role-Keeps replica_type_worker _) λ u.
        Keeps-bind _ _ (Keeps-when _ _ (report_evicted-Keeps _ (length workers))) λ v. Keeps-pure _

  report_not_running-Keeps : Keeps (Calm env j pods) (Inv env j pods R) (report_not_running env)
  unfolding report_not_running
  report_not_running-Keeps = record {
    preserved =
        λ s h. run (Keeps-bind _ _ (set_job_condition-Keeps _ _ _ _) (λ t. Keeps-pure tt)) h;
  }

  report_running-Keeps : Keeps (Calm env j pods) (Inv env j pods R) (report_running env)
  unfolding report_running
  report_running-Keeps = record {
    preserved = λ s h. run (Keeps-bind _ _ (set_job_condition-Keeps _ _ _ _) (λ t. event-Keeps)) h;
  }

  update_running-Keeps :
      (launched : Bool) (launcher_pods running workers : ℕ)
      → Keeps
          (Calm env j pods)
          (Inv env j pods R)
          (update_running env launched launcher_pods running workers)
  unfolding update_running
  update_running-Keeps launched launcher_pods running workers = record {
    preserved = λ s h.
        run
          (Keeps-if (is_group_job_suspended s.job) _ _ report_not_running-Keeps (
            Keeps-if (launched && (leb 1 launcher_pods && nat_eq running workers)) _ _
              report_running-Keeps (Keeps-pure tt)))
          h;
  }

  -- The status that is written is one of this job.
  pub write-Inv :
      {s : State}
      → Inv env j pods R s
      → Ends
          (Calm env j pods)
          (Inv env j pods R)
          ((◌>>◌ {0, 0} (perform (update_status s.job) env.client.on_group_job) (pure (tt {0}))) s)
  write-Inv {s} h =
      run
        (Keeps-bind _ _
          (perform-Keeps (update_status s.job) env.client.on_group_job (h.same_meta, h.same_spec))
          (λ k. Keeps-pure tt))
        h

  write_if_changed-Keeps :
      (old : JobStatus) → Keeps (Calm env j pods) (Inv env j pods R) (write_if_changed env old)
  unfolding write_if_changed
  write_if_changed-Keeps old = record {
    preserved = λ s h. elim (Bool-cases (same_status old s.job.status)) [
      | inl same ↦ rw same (h, λ n. ok_calm tt)
      | inr other ↦ rw other (write-Inv h)
    ];
  }

  pub update_group_job_status-Keeps :
      (launcher : Option Job) (workers : List Pod)
      → Keeps (Calm env j pods) (Inv env j pods R) (update_group_job_status env launcher workers)
  unfolding update_group_job_status
  update_group_job_status-Keeps launcher workers = record {
    preserved = λ s h.
        run
          (Keeps-bind _ _ update_suspended-Keeps λ t.
            Keeps-bind _ _ (update_launcher-Keeps launcher) λ launcher_pods.
              Keeps-bind _ _ (update_workers-Keeps workers) λ running.
                Keeps-bind _ _ (update_running-Keeps _ launcher_pods running (length workers))
                  λ u. write_if_changed-Keeps s.job.status)
          h;
  }
