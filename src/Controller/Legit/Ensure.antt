-- ===== src/Controller/Legit/Ensure.antt =====
-- Making the objects of a job keeps the invariant.
use mpi_operator.Prelude.{
  ◌≡◌, ◌≢◌, refl, ap, sym, ◌∙◌, inl, inr, false, ◌||◌, Option, none, some, List, [], ◌==◌,
}
use mpi_operator.Prelude.Tests.{nat_eq, length, Bool-cases, deref_or}
use mpi_operator.Build.Total.{new_launcher_job-Succeeds}
use mpi_operator.Prelude.Int.{pos}
use mpi_operator.Prelude.{String}
use mpi_operator.Api.{
  spec_of, replica_type_launcher, GroupJob, Pod, Job, launcher_creation_policy_at_startup,
}
use mpi_operator.Outcome.{panic}
use mpi_operator.Names.{is_group_job_suspended}
use mpi_operator.PodGroup.Control.{GangScheduler}
use mpi_operator.Build.Config.{new_job_service}
use mpi_operator.Build.Launcher.{new_launcher_job, overrides_restart_policy}
use mpi_operator.Build.Owned.{new_job_service-IsOwnedBy, new_launcher_job-IsOwnedBy}
use mpi_operator.Controller.World.{Answer, found, failed, Env, State, create_job}
use mpi_operator.Controller.Workers.{count_ready_worker_pods}
use mpi_operator.Controller.Ensure.{
  ensure_pod_groups, ensure_workers, launcher_of_create, submit_launcher, create_launcher,
  ensure_launcher, ensure_all,
}
use mpi_operator.Controller.Sync.{is_done, reconcile}
use mpi_operator.Controller.Keeps.{
  ok_calm, KeepsTo-lift, Keeps-bind_to, Keeps, Keeps-pure, Keeps-raise, Keeps-if, Keeps-bind,
  Keeps-when, Keeps-with_text,
}
use mpi_operator.Controller.Legit.{
  Calm, built-IsOwnedBy, built-Yields, Inv, Inv-record, run, event-Keeps,
}
use mpi_operator.Controller.Legit.Resources.{
  get_or_create_service-Keeps, get_or_create_config_map-Keeps, get_or_create_ssh_auth_secret-Keeps,
}
use mpi_operator.Controller.Legit.PodGroups.{get_or_create_pod_groups-Keeps}
use mpi_operator.Controller.Legit.Valid.{container_there, Succeeds-calm}
use mpi_operator.Controller.Legit.Workers.{get_or_create_worker-Keeps}

suspended_of_spec :
    (j k : GroupJob) → k.spec ≡ j.spec → is_group_job_suspended k ≡ is_group_job_suspended j
unfolding is_group_job_suspended
suspended_of_spec j k e = ap (λ s. deref_or s.run_policy.suspend false) e

module _ {env : Env} {j : GroupJob} {pods : String → String → Answer Pod} {R : List String} where
  launcher_made :
      {s : State}
      → Calm env j pods
      → Inv env j pods R s
      → new_launcher_job env.machinery env.gang s.job ≢ panic
  launcher_made {s} n h =
      let (r, e, _, pod) = n.valid.launcher in
      let (slots, e') = n.valid.slots in
      Succeeds-calm _ (
        new_launcher_job-Succeeds env.machinery env.gang s.job r (pos slots)
          (ap (λ x. spec_of x.replica_specs replica_type_launcher) h.same_spec ∙ e)
          (container_there r.template.spec pod.containers)
          (ap (λ x. x.slots_per_worker) h.same_spec ∙ e'))

  ensure_pod_groups-Keeps :
      (gang : Option GangScheduler)
      → env.gang ≡ gang
      → Keeps (Calm env j pods) (Inv env j pods R) (ensure_pod_groups env gang)
  unfolding ensure_pod_groups
  ensure_pod_groups-Keeps none e = Keeps-pure tt
  ensure_pod_groups-Keeps (some g) e =
      Keeps-bind _ _ (get_or_create_pod_groups-Keeps g e) (λ t. Keeps-pure tt)

  ensure_workers-Keeps : Keeps (Calm env j pods) (Inv env j pods R) (ensure_workers env)
  unfolding ensure_workers
  ensure_workers-Keeps = record {
    preserved = λ s h. elim (Bool-cases (is_group_job_suspended s.job)) [
      | inl suspended ↦ rw suspended (h, λ n. ok_calm [])
      | inr live ↦ rw live (
          run
            (Keeps-bind _ _ (ensure_pod_groups-Keeps env.gang refl) (λ t.
              get_or_create_worker-Keeps (sym (suspended_of_spec j s.job h.same_spec) ∙ live)))
            h)
    ];
  }

  launcher_of_create-Keeps :
      (a : Answer Job) → Keeps (Calm env j pods) (Inv env j pods R) (launcher_of_create env a)
  unfolding launcher_of_create
  launcher_of_create-Keeps (found l) = Keeps-pure l
  launcher_of_create-Keeps (failed e) = Keeps-bind _ _ event-Keeps (λ t. Keeps-raise _)

  submit_launcher-Keeps : Keeps (Calm env j pods) (Inv env j pods R) (submit_launcher env)
  unfolding submit_launcher
  submit_launcher-Keeps = record {
    preserved = λ s h.
        run
          (Keeps-bind _ _ (Keeps-when (overrides_restart_policy s.job) _ event-Keeps) λ t.
            Keeps-bind_to _ _
              (KeepsTo-lift (new_launcher_job env.machinery env.gang s.job) (λ n. launcher_made n h)
                (built-Yields (λ l. l.meta) _ h
                  (new_launcher_job-IsOwnedBy env.machinery s.job env.gang)))
              λ launcher owned. record {
                preserved = λ t' h'.
                    run (launcher_of_create-Keeps _) (Inv-record (create_job launcher) owned h');
              })
          h;
  }

  create_launcher-Keeps :
      (workers : List Pod)
      → Keeps (Calm env j pods) (Inv env j pods R) (create_launcher env workers)
  unfolding create_launcher
  create_launcher-Keeps workers = record {
    preserved = λ s h.
        run
          (Keeps-if
            (s.job.spec.launcher_creation_policy == launcher_creation_policy_at_startup
              || nat_eq (count_ready_worker_pods workers) (length workers))
            _ _ (Keeps-bind _ _ submit_launcher-Keeps (λ l. Keeps-pure (some l))) (Keeps-pure none))
          h;
  }

  ensure_launcher-Keeps :
      (launcher : Option Job) (workers : List Pod)
      → Keeps (Calm env j pods) (Inv env j pods R) (ensure_launcher env launcher workers)
  unfolding ensure_launcher
  ensure_launcher-Keeps none workers = create_launcher-Keeps workers
  ensure_launcher-Keeps (some launcher) workers = Keeps-pure (some launcher)

  ensure_all-Keeps :
      (launcher : Option Job) → Keeps (Calm env j pods) (Inv env j pods R) (ensure_all env launcher)
  unfolding ensure_all
  ensure_all-Keeps launcher = record {
    preserved = λ s h.
        run
          (Keeps-bind _ _
            (Keeps-with_text _
              (get_or_create_service-Keeps (new_job_service env.machinery s.job)
                (built-IsOwnedBy h (new_job_service-IsOwnedBy env.machinery s.job)))
              _)
            λ t. Keeps-bind _ _ (Keeps-with_text _ get_or_create_config_map-Keeps _) λ u.
              Keeps-bind _ _ (Keeps-with_text _ get_or_create_ssh_auth_secret-Keeps _) λ v.
                Keeps-bind _ _ ensure_workers-Keeps λ workers.
                  Keeps-bind _ _ (ensure_launcher-Keeps launcher workers)
                    λ l. Keeps-pure (l, workers))
          h;
  }

  pub reconcile-Keeps :
      (launcher : Option Job) → Keeps (Calm env j pods) (Inv env j pods R) (reconcile env launcher)
  unfolding reconcile
  reconcile-Keeps launcher =
      Keeps-if (is_done launcher) _ _ (Keeps-pure (launcher, [])) (ensure_all-Keeps launcher)
