-- ===== src/Controller/Legit/Workers.antt =====
-- Making the worker pods, and scaling them down, keeps the invariant.
use mpi_operator.Prelude.{◌∙◌, String, ℕ, zero, suc, ◌≡◌, true, false, some, List, [], ◌∷◌}
use mpi_operator.Prelude.Tests.{ltb, length}
use mpi_operator.Prelude.Int.{ℤ, to_ℕ, ltb_ℤ}
use mpi_operator.Prelude.Assoc.{lookup}
use mpi_operator.Prelude.Decimal.{atoi}
use mpi_operator.Api.{GroupJob, Pod, ReplicaSpec, worker_spec, replica_index_label, worker_role}
use mpi_operator.Outcome.{Error, is_not_found, deref}
use mpi_operator.Names.{default_labels, is_group_job_suspended}
use mpi_operator.Build.Template.{new_worker}
use mpi_operator.Build.Owned.{IsOwnedBy, new_worker-IsOwnedBy}
use mpi_operator.Controller.World.{
  Answer, found, failed, Env, create_pod, delete_pod, pure, to_outcome,
}
use mpi_operator.Controller.Workers.{
  scale_down_pod, scale_down, worker_failed, checked_worker, create_worker, worker_of_answer,
  get_or_create_one, create_workers, create_for_spec, get_or_create_worker,
}
use mpi_operator.Controller.Keeps.{
  to_outcome_calm, ok_calm, Keeps, KeepsTo-lift, Keeps-bind_to, Keeps-pure, Keeps-raise, Keeps-lift,
  Keeps-if, Keeps-bind, Keeps-option,
}
use mpi_operator.Controller.Legit.{
  Calm, Inv, built-Yields, Inv-record, run, perform-Keeps, event-Keeps, option-Inv,
}
use mpi_operator.Controller.Legit.Resources.{owned-Keeps}
use mpi_operator.Controller.Legit.Valid.{IsAtWork, replicas_there, workers_of_spec, worker_made}

module _ {env : Env} {j : GroupJob} {pods : String → String → Answer Pod} {R : List String} where
  scale_down_pod-Keeps :
      (replicas : ℤ) (p : Pod)
      → Keeps (Calm env j pods) (Inv env j pods R) (scale_down_pod env replicas p)
  unfolding scale_down_pod
  scale_down_pod-Keeps replicas p =
      Keeps-option (lookup replica_index_label p.meta.labels) _ _ (Keeps-pure false) λ text.
        Keeps-option (atoi text) _ _ (Keeps-pure true) λ index.
          Keeps-if (ltb_ℤ index replicas) _ _ (Keeps-pure true) (
            Keeps-bind _ _
              (perform-Keeps (delete_pod p.meta.namespace p.meta.name) env.client.on_delete tt)
              (λ a. Keeps-pure true))

  scale_down-Keeps :
      (replicas : ℤ) (ps : List Pod)
      → Keeps (Calm env j pods) (Inv env j pods R) (scale_down env replicas ps)
  unfolding scale_down
  scale_down-Keeps replicas [] = Keeps-pure true
  scale_down-Keeps replicas (p ∷ ps) =
      Keeps-bind _ _ (scale_down_pod-Keeps replicas p)
        λ next. Keeps-if next _ _ (scale_down-Keeps replicas ps) (Keeps-pure false)

  worker_failed-Keeps :
      {A : Type 0} (e : Error)
      → Keeps (Calm env j pods) (Inv env j pods R) (worker_failed env {A = A} e)
  unfolding worker_failed
  worker_failed-Keeps e = Keeps-bind _ _ (event-Keeps) (λ t. Keeps-raise e)

  checked_worker-Keeps :
      (a : Answer Pod) → Keeps (Calm env j pods) (Inv env j pods R) (checked_worker env a)
  unfolding checked_worker
  checked_worker-Keeps (found p) = owned-Keeps p.meta p.meta.kind _ (λ c. Keeps-pure p)
  checked_worker-Keeps (failed e) = worker_failed-Keeps e

  -- The API server's pod is recorded as a call, and then checked.
  submit-Keeps :
      IsAtWork j
      → (p : Pod) → IsOwnedBy env.machinery j.meta p.meta
      → Keeps (Calm env j pods) (Inv env j pods R) (λ t.
        checked_worker env
          (env.client.on_pod t.trace (create_pod p))
          (record t { trace = create_pod p ∷ t.trace }))
  submit-Keeps live p owned = record {
    preserved = λ s h. run (checked_worker-Keeps _) (Inv-record (create_pod p) (live.0, owned) h);
  }

  create_worker-Keeps :
      IsAtWork j → (i : ℕ) → Keeps (Calm env j pods) (Inv env j pods R) (create_worker env i)
  unfolding create_worker
  create_worker-Keeps live i = record {
    preserved = λ s h.
        run
          (Keeps-bind_to _ _
            (KeepsTo-lift (new_worker env.machinery env.gang s.job i)
              (λ n. worker_made s i n live h)
              (built-Yields (λ p. p.meta) _ h
                (new_worker-IsOwnedBy env.machinery s.job env.gang i)))
            (submit-Keeps live))
          h;
  }

  worker_of_answer-Keeps :
      IsAtWork j
      → (i : ℕ) (a : Answer Pod)
      → Keeps (Calm env j pods) (Inv env j pods R) (worker_of_answer env i a)
  unfolding worker_of_answer
  worker_of_answer-Keeps live i (found p) = checked_worker-Keeps (found p)
  worker_of_answer-Keeps live i (failed e) =
      Keeps-if (is_not_found e) _ _ (create_worker-Keeps live i) (checked_worker-Keeps (failed e))

  get_or_create_one-Keeps :
      IsAtWork j → (i : ℕ) → Keeps (Calm env j pods) (Inv env j pods R) (get_or_create_one env i)
  unfolding get_or_create_one
  get_or_create_one-Keeps live i = record {
    preserved = λ s h. run (worker_of_answer-Keeps live i _) h;
  }

  create_workers-Keeps :
      IsAtWork j
      → (index rounds : ℕ)
      → Keeps (Calm env j pods) (Inv env j pods R) (create_workers env index rounds)
  unfolding create_workers
  create_workers-Keeps live index zero = Keeps-pure []
  create_workers-Keeps live index (suc rounds) =
      Keeps-bind _ _ (get_or_create_one-Keeps live index) λ p.
        Keeps-bind _ _ (create_workers-Keeps live (suc index) rounds) (λ ps. Keeps-pure (p ∷ ps))

  create_for_spec-Keeps :
      IsAtWork j
      → (r : ReplicaSpec) → worker_spec j ≡ some r
      → Keeps (Calm env j pods) (Inv env j pods R) (create_for_spec env r)
  unfolding create_for_spec
  create_for_spec-Keeps live r there = record {
    preserved = λ s h.
        run
          (Keeps-bind _ _
            (Keeps-lift
              (to_outcome (
                s.cache.list_pods s.job.meta.namespace
                  (default_labels s.job.meta.name worker_role)))
              (λ n. to_outcome_calm (
                s.cache.list_pods s.job.meta.namespace
                  (default_labels s.job.meta.name worker_role))))
            λ pods.
              Keeps-bind _ _ (Keeps-lift (deref r.replicas) (λ n. replicas_there r n there))
                λ replicas.
                  Keeps-bind _ _
                    (Keeps-if (ltb (to_ℕ replicas) (length pods)) _ _
                      (scale_down-Keeps replicas pods) (Keeps-pure true))
                    λ next.
                      Keeps-if next _ _ (create_workers-Keeps live 0 (to_ℕ replicas))
                        (Keeps-pure []))
          h;
  }

  pub get_or_create_worker-Keeps :
      is_group_job_suspended j ≡ false
      → Keeps (Calm env j pods) (Inv env j pods R) (get_or_create_worker env)
  unfolding get_or_create_worker
  get_or_create_worker-Keeps live = record {
    preserved = λ s h.
        option-Inv (worker_spec s.job) (pure [] s) (λ r. create_for_spec env r s)
          (λ none_there. (h, λ n. ok_calm []))
          (λ r e.
            let there : worker_spec j ≡ some r = workers_of_spec j s.job h.same_spec ∙ e in
            run (create_for_spec-Keeps (live, r, there) r there) h);
  }
