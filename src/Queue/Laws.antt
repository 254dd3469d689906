-- ===== src/Queue/Laws.antt =====
-- What is documented of the work queue, and the steps of the handlers and of several workers on it, as a
-- relation.
use mpi_operator.Prelude.{String, ◌≡◌, ◌⊎◌, Bool, false, not, ◌&&◌, ◌||◌, some, List, [], ◌∷◌, ◌==◌}
use mpi_operator.Outcome.{Outcome, err}
use mpi_operator.Queue.{Item, key, other, WorkQueue, settle}

-- Some number of Gets hand out the item.
pub data HandedOut (w : WorkQueue) (k : Item) : w.Queue → Type 0 where
  now : {q rest : w.Queue} → w.get q ≡ some (k, rest) → HandedOut w k q
  later :
      {q rest : w.Queue} {i : Item}
      → w.get q ≡ some (i, rest)
      → HandedOut w k rest
      → HandedOut w k q

-- What is documented of the queue, while it is not shut down. A `Marked` item needs processing: "Add marks
-- item as needing processing", and AddRateLimited does so after a while. A `Held` item was handed out and is
-- not done: it is not handed out again, even if it is marked in the meantime, until Done is called
-- for it ("You must call Done with item when you have finished processing it"). Forget only clears the
-- rate limiter. The queue is fair: a marked item that is not held has its turn.
pub record PendingLaws (w : WorkQueue) (IsOpen : w.Queue → Type 0)
    (Marked Held : w.Queue → Item → Type 0) : Type 0 where
  pub add_open : (i : Item) (q : w.Queue) → IsOpen q → IsOpen (w.add_rate_limited i q)
  pub done_open : (i : Item) (q : w.Queue) → IsOpen q → IsOpen (w.done i q)
  pub forget_open : (i : Item) (q : w.Queue) → IsOpen q → IsOpen (w.forget i q)
  pub get_open : (i : Item) (q rest : w.Queue) → w.get q ≡ some (i, rest) → IsOpen q → IsOpen rest
  pub add_marks : (i : Item) (q : w.Queue) → IsOpen q → Marked (w.add_rate_limited i q) i
  pub add_keeps : (i k : Item) (q : w.Queue) → Marked q k → Marked (w.add_rate_limited i q) k
  pub done_keeps : (i k : Item) (q : w.Queue) → Marked q k → Marked (w.done i q) k
  pub forget_keeps : (i k : Item) (q : w.Queue) → Marked q k → Marked (w.forget i q) k
  pub get_keeps :
      (i k : Item) (q rest : w.Queue)
      → w.get q ≡ some (i, rest)
      → Marked q k
      → (i ≡ k) ⊎ Marked rest k
  pub add_held : (i k : Item) (q : w.Queue) → Held (w.add_rate_limited i q) k → Held q k
  pub done_held : (i k : Item) (q : w.Queue) → Held (w.done i q) k → Held q k
  pub done_releases : (i : Item) (q : w.Queue) → ¬ Held (w.done i q) i
  pub forget_held : (i k : Item) (q : w.Queue) → Held (w.forget i q) k → Held q k
  pub get_held :
      (i k : Item) (q rest : w.Queue) → w.get q ≡ some (i, rest) → Held rest k → (i ≡ k) ⊎ Held q k
  pub hands_out : (k : Item) (q : w.Queue) → IsOpen q → Marked q k → ¬ Held q k → HandedOut w k q

-- What happens to the queue, by the item: a handler enqueues a key, a worker takes an item, a worker ends
-- its work on an item with a result.
pub data Moment : Type 0 where
  notified : String → Moment
  taken : Item → Moment
  settled : Item → Outcome (Unit {0}) → Moment

-- The queue after a history, newest first. The workers' steps come in any order.
pub data Reaches (w : WorkQueue) (start : w.Queue) : w.Queue → List Moment → Type 0 where
  begin : Reaches w start start []
  notify :
      {q : w.Queue} {h : List Moment} (name : String)
      → Reaches w start q h
      → Reaches w start (w.add_rate_limited (key name) q) (notified name ∷ h)
  take :
      {q rest : w.Queue} {h : List Moment} (i : Item)
      → Reaches w start q h
      → w.get q ≡ some (i, rest)
      → Reaches w start rest (taken i ∷ h)
  settle_item :
      {q : w.Queue} {h : List Moment} (i : Item) (result : Outcome (Unit {0}))
      → Reaches w start q h
      → Reaches w start (settle w i result q) (settled i result ∷ h)

-- A sync of the key is owed: since a worker last took it, a handler has enqueued it, or a sync of it has
-- failed.
unfoldable pub owes : List Moment → String → Bool
owes [] name = false
owes (notified other_name ∷ h) name = let before = owes h name in (other_name == name) || before
owes (taken (key other_name) ∷ h) name =
    let before = owes h name in not (other_name == name) && before
owes (taken (other text) ∷ h) name = owes h name
owes (settled (key other_name) (err e) ∷ h) name =
    let before = owes h name in (other_name == name) || before
owes (settled _ _ ∷ h) name = owes h name

-- A worker is at work on the key: it took it, and has not settled it.
unfoldable pub works_on : List Moment → String → Bool
works_on [] name = false
works_on (notified _ ∷ h) name = works_on h name
works_on (taken (key other_name) ∷ h) name =
    let before = works_on h name in (other_name == name) || before
works_on (taken (other text) ∷ h) name = works_on h name
works_on (settled (key other_name) _ ∷ h) name =
    let before = works_on h name in not (other_name == name) && before
works_on (settled (other text) _ ∷ h) name = works_on h name
