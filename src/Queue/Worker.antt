-- ===== src/Queue/Worker.antt =====
-- The worker's loop, as steps on the queue.
use mpi_operator.Prelude.{
  String, arith, ◌+◌, none, ℕ, zero, suc, ◌≡◌, refl, sym, inl, inr, Bool, true, false, Option, some,
  List, [], ◌∷◌, ◌++◌, subst,
}
use mpi_operator.Prelude.Tests.{Option-cases, length}
use mpi_operator.Outcome.{Outcome, ok, err, panic}
use mpi_operator.Controller.World.{Action, Cache, Env}
use mpi_operator.Controller.Sync.Handler.{sync_handler}
use mpi_operator.Queue.{
  Item, key, other, WorkQueue, Operator, goes_on, sync_item, process_item, process_next_work_item,
  run_worker,
}
use mpi_operator.Queue.Laws.{Moment, taken, settled, Reaches, take, settle_item}

module _ (w : WorkQueue) (env : Env) where
  -- A worker's turn, for the item that it is handed.
  abbrev pub turn : Item → Operator w → Moment
  turn i c = settled i (sync_item w env i c.cache c.trace).result

  next_of_get :
      (c : Operator w) (i : Item) (rest : w.Queue)
      → w.get c.queue ≡ some (i, rest)
      → process_next_work_item w env c ≡ process_item w env i (record c { queue = rest })
  unfolding process_next_work_item
  next_of_get c i rest e = rw (process_next_work_item, e) refl

  next_of_none :
      (c : Operator w) → w.get c.queue ≡ none → process_next_work_item w env c ≡ (ok false, c)
  unfolding process_next_work_item
  next_of_none c e = rw (process_next_work_item, e) refl

  process_item-Reaches :
      (start : w.Queue) (h : List Moment) (i : Item) (c : Operator w)
      → Reaches w start c.queue h
      → Reaches w start (process_item w env i c).1.queue (turn i c ∷ h)
  unfolding process_item
  process_item-Reaches start h i c r = settle_item i _ r

  -- Let the queue hand out an item. The worker's turn takes it, and ends its work on it with the result of
  -- its sync; it goes on, unless that panics.
  process_next_work_item-Reaches :
      (start rest : w.Queue) (h : List Moment) (i : Item) (c : Operator w)
      → w.get c.queue ≡ some (i, rest)
      → Reaches w start c.queue h
      → Reaches w start (process_next_work_item w env c).1.queue (turn i c ∷ taken i ∷ h)
        × ((process_next_work_item w env c).0
            ≡ goes_on w (sync_item w env i c.cache c.trace).result)
  unfolding process_item
  process_next_work_item-Reaches start rest h i c e r =
      rw (next_of_get c i rest e)
        (process_item-Reaches start (taken i ∷ h) i (record c { queue = rest }) (take i r e), refl)

-- The turns of a worker that began with these caches and this trace, newest first, and the caches and the
-- trace behind them. In a turn it takes an item, and ends its work on it with the result of `syncHandler` on
-- the key, in the caches and behind the calls that the turn before has left; an item that is no
-- string counts as synced.
pub data Turns (env : Env) (cache : Cache) (trace : List Action)
    : List Moment → Cache → List Action → Type 0 where
  no_turn : Turns env cache trace [] cache trace
  key_turn :
      {d : List Moment} {c : Cache} {t : List Action} (name : String)
      → Turns env cache trace d c t
      → Turns env cache trace
          (settled (key name) (sync_handler env name c t).result ∷ taken (key name) ∷ d)
          (sync_handler env name c t).cache
          (sync_handler env name c t).trace
  other_turn :
      {d : List Moment} {c : Cache} {t : List Action} (text : String)
      → Turns env cache trace d c t
      → Turns env cache trace (settled (other text) (ok tt) ∷ taken (other text) ∷ d) c t

module _ (w : WorkQueue) (env : Env) where
  -- How the loop ends, by its result: with all its rounds made, on a queue that has shut down, or on a sync
  -- that panicked. It has no other end.
  abbrev pub EndsAfter : Option (Outcome (Unit {0})) → Operator w → ℕ → List Moment → Type 0
  EndsAfter none c moments d = length d ≡ moments
  EndsAfter (some (ok t)) c moments d = w.get c.queue ≡ none
  EndsAfter (some (err e)) c moments d = ⊥
  EndsAfter (some panic) c moments d =
      (i : Item) × (before : List Moment) × (d ≡ settled i panic ∷ before)

  -- The loop has made the turns `turns`, and nothing but these, behind a history of the queue.
  pub record Ran (start : w.Queue) (h : List Moment) (cache : Cache) (trace : List Action)
      (moments : ℕ) (x : Option (Outcome (Unit {0})) × Operator w) : Type 0 where
    pub turns : List Moment
    pub made : Turns env cache trace turns x.1.cache x.1.trace
    pub reached : Reaches w start x.1.queue (turns ++ h)
    pub ended : EndsAfter x.0 x.1 moments turns

  turn-Turns :
      (cache : Cache) (trace : List Action) (d : List Moment) (i : Item) (c : Operator w)
      → Turns env cache trace d c.cache c.trace
      → Turns env cache trace
          (turn w env i c ∷ taken i ∷ d)
          (process_item w env i c).1.cache
          (process_item w env i c).1.trace
  unfolding process_item sync_item
  turn-Turns cache trace d (key name) c t = key_turn name t
  turn-Turns cache trace d (other text) c t = other_turn text t

  module _ (start : w.Queue) (h : List Moment) (cache : Cache) (trace : List Action)
      (moments : ℕ) where
    -- What is done behind a turn with this answer.
    abbrev go_on : ℕ → Outcome Bool × Operator w → Option (Outcome (Unit {0})) × Operator w
    go_on rounds x = elim x.0 as (λ _. Option (Outcome (Unit {0})) × Operator w) [
      | ok true ↦ run_worker w env rounds x.1
      | ok false ↦ (some (ok tt), x.1)
      | err e ↦ (some (err e), x.1)
      | panic ↦ (some panic, x.1)
    ]

    after-Ran :
        (rounds : ℕ) (d : List Moment) (i : Item) (r : Outcome (Unit {0})) (c : Operator w)
        → Turns env cache trace (settled i r ∷ d) c.cache c.trace
        → Reaches w start c.queue (settled i r ∷ d ++ h)
        → Ran start h cache trace moments (run_worker w env rounds c)
        → Ran start h cache trace moments (go_on rounds (goes_on w r, c))
    after-Ran rounds d i (ok t) c turns reached k = k
    after-Ran rounds d i (err e) c turns reached k = k
    after-Ran rounds d i panic c turns reached k = record {
      turns = settled i panic ∷ d;
      made = turns;
      reached = reached;
      ended = (i, d, refl);
    }

    loop-Ran :
        (rounds : ℕ) (d : List Moment) (c : Operator w)
        → Turns env cache trace d c.cache c.trace
        → Reaches w start c.queue (d ++ h)
        → length d + (rounds + rounds) ≡ moments
        → Ran start h cache trace moments (run_worker w env rounds c)
    unfolding run_worker process_item
    loop-Ran zero d c turns reached count = record {
      turns = d;
      made = turns;
      reached = reached;
      ended = omega arith;
    }
    loop-Ran (suc rounds) d c turns reached count = elim (Option-cases (w.get c.queue)) [
      | inl shut_down ↦
          subst (λ x. Ran start h cache trace moments (go_on rounds x))
            (sym (next_of_none w env c shut_down))
            (record { turns = d; made = turns; reached = reached; ended = shut_down })
      | inr ((i, rest), e) ↦
          subst (λ x. Ran start h cache trace moments (go_on rounds x))
            (sym (next_of_get w env c i rest e))
            (after-Ran rounds (taken i ∷ d) i (sync_item w env i c.cache c.trace).result
              (process_item w env i (record c { queue = rest })).1
              (turn-Turns cache trace d i (record c { queue = rest }) turns)
              (process_item-Reaches w env start (taken i ∷ d ++ h) i (record c { queue = rest })
                (take i reached e))
              (loop-Ran rounds _ _ (turn-Turns cache trace d i (record c { queue = rest }) turns)
                (process_item-Reaches w env start (taken i ∷ d ++ h) i (record c { queue = rest })
                  (take i reached e))
                (omega arith)))
    ]

  -- However many rounds the loop of a worker is given, it makes turns and nothing else: in each it takes an
  -- item off the queue, calls `syncHandler`, and settles the item with the result of this sync; the queue is
  -- reached by these steps from the one that the loop began with, and the caches and the
  -- calls are what the syncs leave. All rounds are made, unless the queue shuts down or a sync
  -- panics: then the loop ends.
  pub run_worker-Ran :
      (rounds : ℕ) (start : w.Queue) (h : List Moment) (c : Operator w)
      → Reaches w start c.queue h
      → Ran start h c.cache c.trace (rounds + rounds) (run_worker w env rounds c)
  run_worker-Ran rounds start h c r =
      loop-Ran start h c.cache c.trace (rounds + rounds) rounds [] c no_turn r (omega arith)
