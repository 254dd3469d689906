-- ===== src/Controller/Workers/Scaling.antt =====
-- Which pods `getOrCreateWorker` deletes when a job is scaled down.
use mpi_operator.Prelude.{ℕ, ◌+◌, ◌^◌, ◌<◌, ◌≡◌, refl, inl, inr, ◌∙◌, true, false, some, ◌∷◌, arith}
use mpi_operator.Prelude.Tests.{if◌then◌else◌, Bool-cases, ltb}
use mpi_operator.Prelude.Int.{pos, ltb_ℤ}
use mpi_operator.Prelude.Assoc.{lookup}
use mpi_operator.Api.{GroupJob, Pod, replica_index_label}
use mpi_operator.Outcome.{Outcome, ok, err, panic}
use mpi_operator.Names.{run_launcher_as_worker, worker_replica_index_label}
use mpi_operator.Names.Laws.{atoi-worker_replica_index_label}
use mpi_operator.Controller.World.{Env, State, delete_pod, ◌>>=◌, continue, to_outcome, pure}
use mpi_operator.Controller.Workers.{scale_down_pod}

ltb_ℤ-pos : (a n : ℕ) → ltb_ℤ (pos a) (pos n) ≡ ltb a n
ltb_ℤ-pos a n = ground arith

not_below : (n : ℕ) → ltb n n ≡ false
not_below n = ground arith

continue-pure :
    {A B : Type 0} (r : Outcome A) (b : B) (t : State)
    → (continue r (λ a. pure b) t).1.trace ≡ t.trace
continue-pure (ok a) b t = refl
continue-pure (err e) b t = refl
continue-pure panic b t = refl

-- The index in the label of worker `i`.
abbrev pub label_index : GroupJob → ℕ → ℕ
label_index j i = if run_launcher_as_worker j then i + 1 else i

-- For a pod with the index label of worker i, the loop deletes the pod exactly if the index of the label
-- is not below the number of replicas, and else makes no call.
pub scale_down_pod_trace :
    (env : Env) (j : GroupJob) (i n : ℕ) (p : Pod) (s : State)
    → i + 1 < 2 ^ 63
    → lookup replica_index_label p.meta.labels ≡ some (worker_replica_index_label j i)
    → (scale_down_pod env (pos n) p s).1.trace ≡ (
        if ltb (label_index j i) n
        then s.trace
        else delete_pod p.meta.namespace p.meta.name ∷ s.trace)
unfolding scale_down_pod ◌>>=◌
scale_down_pod_trace env j i n p s small label = elim (Bool-cases (ltb (label_index j i) n)) [
  | inl stays ↦
      rw (scale_down_pod, label)
        (rw (atoi-worker_replica_index_label j i small)
          (rw (ltb_ℤ-pos (label_index j i) n) (rw stays refl)))
  | inr goes ↦
      rw (scale_down_pod, label)
        (rw (atoi-worker_replica_index_label j i small)
          (rw (ltb_ℤ-pos (label_index j i) n) (rw goes (continue-pure (to_outcome _) true _))))
]

-- Scaled down to i + 1 replicas, a job that runs its launcher as a worker loses worker i, which it is to
-- keep: the index in the worker's label is i + 1.
pub scale_down_pod_deletes_last :
    (env : Env) (j : GroupJob) (i : ℕ) (p : Pod) (s : State)
    → i + 1 < 2 ^ 63
    → run_launcher_as_worker j ≡ true
    → lookup replica_index_label p.meta.labels ≡ some (worker_replica_index_label j i)
    → (scale_down_pod env (pos (i + 1)) p s).1.trace
      ≡ delete_pod p.meta.namespace p.meta.name ∷ s.trace
scale_down_pod_deletes_last env j i p s small as_worker label =
    scale_down_pod_trace env j i (i + 1) p s small label
    ∙ rw as_worker (rw (not_below (i + 1)) refl)
