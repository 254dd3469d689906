-- ===== src/Names/Laws.antt =====
-- Pod names and index labels tell the workers apart.
use text.Mathlib.TextLemmas.{append_cancel_left}
use mpi_operator.Prelude.{ℕ, ◌+◌, ◌<◌, ◌^◌, ◌≡◌, inl, inr, some, arith}
use mpi_operator.Prelude.Tests.{if◌then◌else◌, Bool-cases}
use mpi_operator.Prelude.Int.{pos}
use mpi_operator.Prelude.Decimal.{itoa-injective, atoi, atoi-itoa}
use mpi_operator.Api.{GroupJob, worker_suffix}
use mpi_operator.Names.{worker_name, run_launcher_as_worker, worker_replica_index_label}

-- Two workers of a job with one pod name are one worker.
pub worker_name-injective : (j : GroupJob) (i k : ℕ) → worker_name j i ≡ worker_name j k → i ≡ k
unfolding worker_name
worker_name-injective j i k h = itoa-injective i k (
    append_cancel_left "-" _ _
      (append_cancel_left worker_suffix _ _ (append_cancel_left j.meta.name _ _ h)))

-- The replica index of worker i that is read back from its label: i, or i + 1 where the launcher runs
-- as a worker and has the index 0.
pub atoi-worker_replica_index_label :
    (j : GroupJob) (i : ℕ)
    → i + 1 < 2 ^ 63
    → atoi (worker_replica_index_label j i)
      ≡ some (pos (if run_launcher_as_worker j then i + 1 else i))
unfolding worker_replica_index_label
atoi-worker_replica_index_label j i h = elim (Bool-cases (run_launcher_as_worker j)) [
  | inl e ↦ rw e (atoi-itoa (i + 1) h)
  | inr e ↦ rw e (atoi-itoa i (omega arith))
]
