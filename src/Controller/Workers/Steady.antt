-- ===== src/Controller/Workers/Steady.antt =====
-- `getOrCreateWorker` on a job whose worker pods are all there.
use mpi_operator.Prelude.{ℕ, zero, suc, ◌+◌, ◌≤◌, ◌<◌, ◌≡◌, refl, true, List, [], ◌∷◌, arith}
use mpi_operator.Api.{Pod}
use mpi_operator.Outcome.{ok}
use mpi_operator.Names.{worker_name}
use mpi_operator.Controller.World.{found, Env, State, ◌>>=◌}
use mpi_operator.Controller.Resources.{owned_or_refuse}
use mpi_operator.Controller.Workers.{
  checked_worker, worker_of_answer, get_or_create_one, create_workers,
}

-- The cache has the worker of an index, and the job controls it.
pub record IsThere (env : Env) (s : State) (pods : ℕ → Pod) (i : ℕ) : Type 0 where
  pub cached : s.cache.pods s.job.meta.namespace (worker_name s.job i) ≡ found (pods i)
  pub controlled : env.machinery.is_controlled_by (pods i).meta s.job.meta ≡ true

-- The pods of `rounds` indices.
abbrev pub pods_from : (ℕ → Pod) → (index rounds : ℕ) → List Pod
pods_from pods index zero = []
pods_from pods index (suc rounds) = pods index ∷ pods_from pods (suc index) rounds

module _ (env : Env) (s : State) (pods : ℕ → Pod) where
  get_or_create_one-IsThere :
      (i : ℕ) → IsThere env s pods i → get_or_create_one env i s ≡ (ok (pods i), s)
  unfolding get_or_create_one worker_of_answer checked_worker owned_or_refuse
  get_or_create_one-IsThere i h = rw (get_or_create_one, h.cached) (rw h.controlled refl)

  -- Where the cache has a pod that the job controls for each index of the loop, the loop returns these
  -- pods, in order, and makes no call and no change.
  pub create_workers_steady :
      (index rounds : ℕ)
      → ((i : ℕ) → index ≤ i → i < index + rounds → IsThere env s pods i)
      → create_workers env index rounds s ≡ (ok (pods_from pods index rounds), s)
  unfolding create_workers ◌>>=◌
  create_workers_steady index zero there = refl
  create_workers_steady index (suc rounds) there =
      rw (get_or_create_one-IsThere index (there index (omega arith) (omega arith))) (
        rw
          (create_workers_steady (suc index) rounds
            (λ i low high. there i (omega arith) (omega arith)))
          refl)
