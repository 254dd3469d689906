-- ===== src/Controller/Legit/Deletion.antt =====
-- Deleting the worker pods keeps the invariant.
use mpi_operator.Prelude.{
  ◌≢◌, refl, sym, ap, ◌∙◌, String, ℕ, zero, suc, ◌≡◌, true, ◌&&◌, not, Option, none, some, List,
  ◌∷◌, ◌==◌,
}
use mpi_operator.Prelude.Int.{to_ℕ}
use mpi_operator.Api.{GroupJob, Pod, worker_spec, clean_pod_policy_running}
use mpi_operator.Outcome.{Error, is_not_found, deref, panic}
use mpi_operator.Names.{worker_name}
use mpi_operator.Controller.World.{Answer, found, failed, Env, delete_pod}
use mpi_operator.Controller.Resources.{is_pod_running, is_pod_pending}
use mpi_operator.Controller.Workers.{
  delete_worker, delete_by_policy, delete_checked, delete_worker_of_answer, delete_one,
  delete_workers, delete_worker_pods,
}
use mpi_operator.Controller.Keeps.{
  ok_calm, Keeps-if_tested, Keeps, Keeps-pure, Keeps-raise, Keeps-lift, Keeps-if, Keeps-bind,
}
use mpi_operator.Controller.Legit.{Calm, Inv, Inv-record, run, option-Inv, answer-Inv}
use mpi_operator.Controller.Legit.Resources.{owned-Keeps}
use mpi_operator.Controller.Legit.Valid.{replicas_there, workers_of_spec, policy_there}

module _ {env : Env} {j : GroupJob} {pods : String → String → Answer Pod} {R : List String} where
  delete_worker-Keeps :
      (name : String) → Keeps (Calm env j pods) (Inv env j pods R) (delete_worker env name)
  unfolding delete_worker
  delete_worker-Keeps name = record {
    preserved = λ s h.
        let a = delete_pod s.job.meta.namespace name in
        let h' : Inv env j pods R (record s { trace = a ∷ s.trace }) = Inv-record a tt h in
        answer-Inv (env.client.on_delete s.trace a) _ _ (λ u. (h', λ n. ok_calm u))
          λ e. run (Keeps-if (is_not_found e) _ _ (Keeps-pure tt) (Keeps-raise e)) h';
  }

  delete_by_policy-Keeps :
      (name policy : String) (p : Option Pod)
      → (Calm env j pods → p ≢ none)
      → Keeps (Calm env j pods) (Inv env j pods R) (delete_by_policy env name policy p)
  unfolding delete_by_policy
  delete_by_policy-Keeps name policy none there =
      Keeps-if (policy == clean_pod_policy_running) _ _ (Keeps-lift panic (λ n e. there n refl))
        (delete_worker-Keeps name)
  delete_by_policy-Keeps name policy (some p) there =
      Keeps-if
        (policy == clean_pod_policy_running && (not (is_pod_running p) && not (is_pod_pending p))) _
        _ (Keeps-pure tt) (delete_worker-Keeps name)

  delete_checked-Keeps :
      (name : String) (p : Option Pod)
      → (Calm env j pods → p ≢ none)
      → Keeps (Calm env j pods) (Inv env j pods R) (delete_checked env name p)
  unfolding delete_checked
  delete_checked-Keeps name p there = record {
    preserved = λ s h.
        run
          (Keeps-bind _ _
            (Keeps-lift (deref s.job.spec.run_policy.clean_pod_policy) (λ n. policy_there n h))
            λ policy. delete_by_policy-Keeps name policy p there)
          h;
  }

  delete_worker_of_answer-Keeps :
      (name : String) (a : Answer Pod)
      → (Calm env j pods → (e : Error) → a ≡ failed e → is_not_found e ≡ true)
      → Keeps (Calm env j pods) (Inv env j pods R) (delete_worker_of_answer env name a)
  unfolding delete_worker_of_answer
  delete_worker_of_answer-Keeps name (found p) missing =
      owned-Keeps p.meta p.meta.kind _ (λ c. delete_checked-Keeps name (some p) (λ n e. cc))
  delete_worker_of_answer-Keeps name (failed e) missing =
      Keeps-if_tested (is_not_found e) _ _ (λ gone. Keeps-pure tt)
        λ other. delete_checked-Keeps name none (λ n f. cc (missing n e refl, other))

  delete_one-Keeps : (i : ℕ) → Keeps (Calm env j pods) (Inv env j pods R) (delete_one env i)
  unfolding delete_one
  delete_one-Keeps i = record {
    preserved = λ s h.
        run
          (delete_worker_of_answer-Keeps (worker_name s.job i) _ λ n e f.
            n.only_missing s.job.meta.namespace (worker_name s.job i) e
              (ap (λ q. q s.job.meta.namespace (worker_name s.job i)) (sym h.same_pods) ∙ f))
          h;
  }

  delete_workers-Keeps :
      (index rounds : ℕ)
      → Keeps (Calm env j pods) (Inv env j pods R) (delete_workers env index rounds)
  unfolding delete_workers
  delete_workers-Keeps index zero = Keeps-pure tt
  delete_workers-Keeps index (suc rounds) =
      Keeps-bind _ _ (delete_one-Keeps index) (λ t. delete_workers-Keeps (suc index) rounds)

  pub delete_worker_pods-Keeps : Keeps (Calm env j pods) (Inv env j pods R) (delete_worker_pods env)
  unfolding delete_worker_pods
  delete_worker_pods-Keeps = record {
    preserved = λ s h.
        option-Inv (worker_spec s.job) _ _ (λ none_there. (h, λ n. ok_calm tt))
          λ r e.
            run
              (Keeps-bind _ _
                (Keeps-lift (deref r.replicas)
                  (λ n. replicas_there r n (workers_of_spec j s.job h.same_spec ∙ e)))
                λ replicas. delete_workers-Keeps 0 (to_ℕ replicas))
              h;
  }
