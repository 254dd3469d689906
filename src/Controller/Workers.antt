-- ===== src/Controller/Workers.antt =====
-- The worker pods: getOrCreateWorker, deleteWorkerPods, countReadyWorkerPods.
pub mod Created
pub mod Scaling
pub mod Steady
pub mod Errors
pub mod Deletion
pub mod Deleted
use mpi_operator.Prelude.{
  String, ℕ, zero, suc, Bool, true, false, ◌&&◌, not, Option, none, some, List, [], ◌∷◌, ◌==◌,
}
use mpi_operator.Prelude.Tests.{if◌then◌else◌, ltb, length, ◌⧺◌}
use mpi_operator.Prelude.Int.{ℤ, to_ℕ, ltb_ℤ}
use mpi_operator.Prelude.Assoc.{lookup}
use mpi_operator.Prelude.Decimal.{atoi}
use mpi_operator.Api.{
  Pod, ObjectCondition, ReplicaSpec, worker_spec, replica_index_label, worker_role, condition_true,
  pod_ready, clean_pod_policy_running, failed_reason,
}
use mpi_operator.Outcome.{Error, is_not_found, error_text, deref}
use mpi_operator.Names.{worker_name, default_labels}
use mpi_operator.Build.Template.{new_worker}
use mpi_operator.Controller.World.{
  Answer, found, failed, Env, Sync, create_pod, delete_pod, event, warning, ◌>>=◌, ◌>>◌, pure,
  raise, crash, lift, perform, emit, to_outcome,
}
use mpi_operator.Controller.Resources.{owned_or_refuse, is_pod_running, is_pod_pending}

is_ready : List ObjectCondition → Bool
is_ready [] = false
is_ready (c ∷ cs) = if c.type == pod_ready && c.status == condition_true then true else is_ready cs

pub count_ready_worker_pods : List Pod → ℕ
unfolding is_ready
count_ready_worker_pods [] = 0
count_ready_worker_pods (p ∷ ps) =
    let rest = count_ready_worker_pods ps in if is_ready p.conditions then suc rest else rest

module _ (env : Env) where
  -- The body of the loop that removes pods when the job is scaled down. `false` is the `return nil, err`
  -- on a pod with no index, where `err` is nil.
  unfoldable pub scale_down_pod : ℤ → Pod → Sync Bool
  scale_down_pod replicas p = elim (lookup replica_index_label p.meta.labels) [
    | none ↦ pure false
    | some text ↦ elim (atoi text) [
      | none ↦ pure true
      | some index ↦
          if ltb_ℤ index replicas
          then pure true
          else do perform (delete_pod p.meta.namespace p.meta.name) env.client.on_delete; pure true
    ]
  ]

  unfoldable pub scale_down : ℤ → List Pod → Sync Bool
  unfolding scale_down_pod
  scale_down replicas [] = pure true
  scale_down replicas (p ∷ ps) =
      let rest = scale_down replicas ps in
      do next ← scale_down_pod replicas p; if next then rest else pure false

  -- A failed `Get` or `Create` of a worker.
  unfoldable pub worker_failed : {A : Type 0} → Error → Sync A
  worker_failed e = do
    emit (event warning failed_reason ("worker pod created failed: " ⧺ error_text e))
    raise e

  unfoldable pub checked_worker : Answer Pod → Sync Pod
  unfolding worker_failed
  checked_worker (found p) = owned_or_refuse env p.meta p.meta.kind (pure p)
  checked_worker (failed e) = worker_failed e

  unfoldable pub create_worker : ℕ → Sync Pod
  unfolding checked_worker
  create_worker i s =
      (do
        p ← lift (new_worker env.machinery env.gang s.job i)
        λ t.
            checked_worker (env.client.on_pod t.trace (create_pod p))
              (record t { trace = create_pod p ∷ t.trace }))
        s

  -- The body of the loop over the indices: the pod is taken from the cache or created.
  unfoldable pub worker_of_answer : ℕ → Answer Pod → Sync Pod
  unfolding create_worker
  worker_of_answer i (found p) = checked_worker (found p)
  worker_of_answer i (failed e) =
      if is_not_found e then create_worker i else checked_worker (failed e)

  unfoldable pub get_or_create_one : ℕ → Sync Pod
  unfolding worker_of_answer
  get_or_create_one i s =
      worker_of_answer i (s.cache.pods s.job.meta.namespace (worker_name s.job i)) s

  -- `for i := index; …`, for a number of rounds.
  unfoldable pub create_workers : (index rounds : ℕ) → Sync (List Pod)
  unfolding get_or_create_one
  create_workers index zero = pure []
  create_workers index (suc rounds) =
      let rest = create_workers (suc index) rounds in
      do p ← get_or_create_one index; ps ← rest; pure (p ∷ ps)

  unfoldable pub create_for_spec : ReplicaSpec → Sync (List Pod)
  unfolding scale_down create_workers
  create_for_spec r s =
      (do
        pods ← lift (
            to_outcome
              (s.cache.list_pods s.job.meta.namespace (default_labels s.job.meta.name worker_role)))
        replicas ← lift (deref r.replicas)
        next ← if ltb (to_ℕ replicas) (length pods) then scale_down replicas pods else pure true
        if next then create_workers 0 (to_ℕ replicas) else pure [])
        s

  unfoldable pub get_or_create_worker : Sync (List Pod)
  unfolding create_for_spec
  get_or_create_worker s = elim (worker_spec s.job) [
    | none ↦ pure [] s
    | some r ↦ create_for_spec r s
  ]

  -- The delete call of `deleteWorkerPods`, for which a missing pod is no error.
  unfoldable pub delete_worker : String → Sync (Unit {0})
  delete_worker name s =
      let a = delete_pod s.job.meta.namespace name in
      let t = record s { trace = a ∷ s.trace } in
      elim (env.client.on_delete s.trace a) [
        | found u ↦ pure u t
        | failed e ↦ (if is_not_found e then pure tt else raise e) t
      ]

  -- The pod is kept by the policy Running if it neither runs nor will run. The pod is nil after an
  -- error of the lister that is not NotFound.
  unfoldable pub delete_by_policy : String → String → Option Pod → Sync (Unit {0})
  unfolding delete_worker
  delete_by_policy name policy none =
      if policy == clean_pod_policy_running then crash else delete_worker name
  delete_by_policy name policy (some p) =
      if policy == clean_pod_policy_running && (not (is_pod_running p) && not (is_pod_pending p))
      then pure tt
      else delete_worker name

  unfoldable pub delete_checked : String → Option Pod → Sync (Unit {0})
  unfolding delete_by_policy
  delete_checked name p s =
      (do
        policy ← lift (deref s.job.spec.run_policy.clean_pod_policy)
        delete_by_policy name policy p)
        s

  unfoldable pub delete_worker_of_answer : String → Answer Pod → Sync (Unit {0})
  unfolding delete_checked
  delete_worker_of_answer name (found p) =
      owned_or_refuse env p.meta p.meta.kind (delete_checked name (some p))
  delete_worker_of_answer name (failed e) =
      if is_not_found e then pure tt else delete_checked name none

  unfoldable pub delete_one : ℕ → Sync (Unit {0})
  unfolding delete_worker_of_answer
  delete_one i s =
      delete_worker_of_answer (worker_name s.job i)
        (s.cache.pods s.job.meta.namespace (worker_name s.job i)) s

  unfoldable pub delete_workers : (index rounds : ℕ) → Sync (Unit {0})
  unfolding delete_one
  delete_workers index zero = pure tt
  delete_workers index (suc rounds) =
      let rest = delete_workers (suc index) rounds in do delete_one index; rest

  unfoldable pub delete_worker_pods : Sync (Unit {0})
  unfolding delete_workers
  delete_worker_pods s = elim (worker_spec s.job) [
    | none ↦ pure tt s
    | some r ↦ (do replicas ← lift (deref r.replicas); delete_workers 0 (to_ℕ replicas)) s
  ]
