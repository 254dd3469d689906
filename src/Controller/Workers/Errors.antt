-- ===== src/Controller/Workers/Errors.antt =====
-- What the operations on the worker pods do on two unusual answers of the caches.
use mpi_operator.Prelude.{
  ℕ, zero, suc, ◌+◌, ◌≤◌, ◌≡◌, refl, ◌⊎◌, inl, inr, ◌<◌, true, false, none, some, List, [], ◌∷◌,
  arith,
}
use mpi_operator.Prelude.Tests.{ltb, length}
use mpi_operator.Prelude.Int.{pos}
use mpi_operator.Prelude.Assoc.{lookup}
use mpi_operator.Api.{
  worker_spec, Pod, ReplicaSpec, replica_index_label, worker_role, clean_pod_policy_running,
}
use mpi_operator.Outcome.{Error, is_not_found, ok, panic}
use mpi_operator.Names.{worker_name, default_labels}
use mpi_operator.Controller.World.{found, failed, Env, State, ◌>>=◌}
use mpi_operator.Controller.Workers.{
  scale_down_pod, scale_down, create_for_spec, delete_by_policy, delete_checked,
  delete_worker_of_answer, delete_one, delete_workers, delete_worker_pods,
}

-- With the policy Running, the deletion of one worker panics on another error than that it is missing.
delete_one_panics :
    (env : Env) (i : ℕ) (s : State) (e : Error)
    → s.cache.pods s.job.meta.namespace (worker_name s.job i) ≡ failed e
    → is_not_found e ≡ false
    → s.job.spec.run_policy.clean_pod_policy ≡ some clean_pod_policy_running
    → delete_one env i s ≡ (panic, s)
unfolding delete_one delete_worker_of_answer delete_checked delete_by_policy ◌>>=◌
delete_one_panics env i s e missing other running = rw missing (rw other (rw running refl))

-- The deletion of a worker that is missing does nothing.
delete_one_missing :
    (env : Env) (i : ℕ) (s : State) (e : Error)
    → s.cache.pods s.job.meta.namespace (worker_name s.job i) ≡ failed e
    → is_not_found e ≡ true
    → delete_one env i s ≡ (ok tt, s)
unfolding delete_one delete_worker_of_answer
delete_one_missing env i s e missing none_there = rw missing (rw none_there refl)

-- The cache says that the worker is missing.
abbrev pub IsMissing : State → ℕ → Type 0
IsMissing s i =
    (e : Error) × (s.cache.pods s.job.meta.namespace (worker_name s.job i) ≡ failed e)
    × (is_not_found e ≡ true)

eq_or_less : (i k : ℕ) → i ≤ k → (i ≡ k) ⊎ (i < k)
eq_or_less i k h = ground arith

-- The loop gets to the worker whose lookup fails, and panics.
delete_workers_panics :
    (env : Env) (s : State) (e : Error) (k index rounds : ℕ)
    → index ≤ k
    → k < index + rounds
    → ((i : ℕ) → i < k → IsMissing s i)
    → s.cache.pods s.job.meta.namespace (worker_name s.job k) ≡ failed e
    → is_not_found e ≡ false
    → s.job.spec.run_policy.clean_pod_policy ≡ some clean_pod_policy_running
    → delete_workers env index rounds s ≡ (panic, s)
unfolding delete_workers ◌>>=◌
delete_workers_panics env s e k index zero low high missing fails other running =
    absurd (omega arith)
delete_workers_panics env s e k index (suc rounds) low high missing fails other running =
    elim (eq_or_less index k low) [
      | inl here ↦ rw (delete_one_panics env index s e (rw here fails) other running) refl
      | inr later ↦
          let (e', gone, none_there) = missing index later in
          rw (delete_one_missing env index s e' gone none_there) (
            delete_workers_panics env s e k (suc index) rounds later (omega arith) missing fails
              other running)
    ]

-- Let the policy be Running. Where the lister fails on a worker that the job asks for, for another reason
-- than that it is missing, and the workers before it are missing, `deleteWorkerPods` panics: the pod is
-- nil.
pub delete_worker_pods_panics :
    (env : Env) (s : State) (r : ReplicaSpec) (e : Error) (k replicas : ℕ)
    → worker_spec s.job ≡ some r
    → r.replicas ≡ some (pos replicas)
    → k < replicas
    → ((i : ℕ) → i < k → IsMissing s i)
    → s.cache.pods s.job.meta.namespace (worker_name s.job k) ≡ failed e
    → is_not_found e ≡ false
    → s.job.spec.run_policy.clean_pod_policy ≡ some clean_pod_policy_running
    → delete_worker_pods env s ≡ (panic, s)
unfolding delete_worker_pods ◌>>=◌
delete_worker_pods_panics env s r e k replicas workers count below missing fails other running =
    rw (delete_worker_pods, workers)
      (rw count (
        delete_workers_panics env s e k 0 replicas (omega arith) (omega arith) missing fails other
          running))

-- When a job is scaled down and the first pod of the list has no index label, the workers are given up:
-- no error is returned, and no pod.
pub create_for_spec_gives_up :
    (env : Env) (r : ReplicaSpec) (s : State) (p : Pod) (pods : List Pod) (n : ℕ)
    → s.cache.list_pods s.job.meta.namespace (default_labels s.job.meta.name worker_role)
      ≡ found (p ∷ pods)
    → r.replicas ≡ some (pos n)
    → n < length (p ∷ pods)
    → lookup replica_index_label p.meta.labels ≡ none
    → create_for_spec env r s ≡ (ok [], s)
unfolding create_for_spec scale_down scale_down_pod ◌>>=◌
create_for_spec_gives_up env r s p pods n listed replicas fewer unlabelled = rw listed (
    rw replicas
      (rw (below n (length (p ∷ pods)) fewer) (rw (scale_down, scale_down_pod, unlabelled) refl)))
  where
    below : (a b : ℕ) → a < b → ltb a b ≡ true
    below a b h = ground arith
