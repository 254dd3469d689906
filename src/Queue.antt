-- ===== src/Queue.antt =====
-- The work queue's side of the controller (processNextWorkItem, runWorker and the closure in it, of
-- pkg/controller/mpi_job_controller.go). The queue is client-go's: its operations are a parameter.
pub mod Laws
pub mod Pending
pub mod Worker
pub mod React
use mpi_operator.Prelude.{String, ℕ, zero, suc, Bool, true, false, Option, none, some, List, ◌∷◌}
use mpi_operator.Prelude.Tests.{◌⧺◌}
use mpi_operator.Outcome.{Error, failure, error_text, Outcome, ok, err, panic}
use mpi_operator.Controller.World.{Cache, Env, Action}
use mpi_operator.Controller.Sync.Handler.{Synced, sync_handler}

-- What comes off the queue: a string, or another value by its text.
pub data Item : Type 0 where
  key : String → Item
  other : (text : String) → Item

-- workqueue.TypedRateLimitingInterface[any]. `get` blocks; it answers `none` when the queue shuts down.
pub record WorkQueue : Type 1 where
  pub Queue : Type 0
  pub get : Queue → Option (Item × Queue)
  pub done : Item → Queue → Queue
  pub forget : Item → Queue → Queue
  pub add_rate_limited : Item → Queue → Queue

-- What the worker shares with the handlers, and the errors that it has reported, newest first.
pub record Operator (w : WorkQueue) : Type 0 where
  pub queue : w.Queue
  pub cache : Cache
  pub trace : List Action
  pub reported : List Error

module _ (w : WorkQueue) where
  -- The queue after the closure: `Forget` or `AddRateLimited` by the result, and the deferred `Done`,
  -- which runs on a panic as well.
  unfoldable pub settle : Item → Outcome (Unit {0}) → w.Queue → w.Queue
  settle (other text) result q = w.done (other text) (w.forget (other text) q)
  settle (key name) (ok done) q = w.done (key name) (w.forget (key name) q)
  settle (key name) (err e) q = w.done (key name) (w.add_rate_limited (key name) q)
  settle (key name) panic q = w.done (key name) q

  -- The errors that are handed to `runtime.HandleError`.
  report_result : Item → Outcome (Unit {0}) → List Error → List Error
  report_result (other text) result reported =
      failure ("expected string in workqueue but got " ⧺ text) ∷ reported
  report_result (key name) (err e) reported =
      failure ("error syncing '" ⧺ name ⧺ "': " ⧺ error_text e) ∷ reported
  report_result (key name) _ reported = reported

  -- The worker goes on, unless the sync panics.
  abbrev pub goes_on : Outcome (Unit {0}) → Outcome Bool
  goes_on panic = panic
  goes_on _ = ok true

  module _ (env : Env) where
    -- An item that is no string is not synced.
    pub sync_item : Item → Cache → List Action → Synced
    sync_item (other text) cache trace = record { result = ok tt; cache = cache; trace = trace }
    sync_item (key name) cache trace = sync_handler env name cache trace

    pub process_item : Item → Operator w → Outcome Bool × Operator w
    unfolding settle report_result sync_item
    process_item i c =
        let s = sync_item i c.cache c.trace in
        (
          goes_on s.result,
          record {
            queue = settle i s.result c.queue;
            cache = s.cache;
            trace = s.trace;
            reported = report_result i s.result c.reported;
          },
        )

    pub process_next_work_item : Operator w → Outcome Bool × Operator w
    unfolding process_item
    process_next_work_item c = elim (w.get c.queue) [
      | none ↦ (ok false, c)
      | some (i, rest) ↦ process_item i (record c { queue = rest })
    ]

    -- `for c.processNextWorkItem() {}`, for a number of rounds; `none` when they are used up.
    pub run_worker : ℕ → Operator w → Option (Outcome (Unit {0})) × Operator w
    unfolding process_next_work_item
    run_worker zero c = (none, c)
    run_worker (suc rounds) c =
        let (r, c') = process_next_work_item c in
        elim r [
          | ok true ↦ run_worker rounds c'
          | ok false ↦ (some (ok tt), c')
          | err e ↦ (some (err e), c')
          | panic ↦ (some panic, c')
        ]
