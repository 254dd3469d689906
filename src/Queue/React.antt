-- ===== src/Queue/React.antt =====
-- The handlers' side of the work queue: what a change that an informer reports does to it.
use mpi_operator.Prelude.{String, ◌≡◌, ◌≢◌, refl, true, some, List, ◌∷◌}
use mpi_operator.Api.{ObjectMeta}
use mpi_operator.Outcome.{Outcome, ok, err, panic}
use mpi_operator.Controller.World.{Env}
use mpi_operator.Events.{object, tombstone, Effect, ignore, report, enqueue, handle_object}
use mpi_operator.Events.Wakes.{Wakes}
use mpi_operator.Events.Laws.{handle_object_iff, handle_object_update_iff}
use mpi_operator.Events.Wiring.{Source, Change, added, deleted, updated, is_handled, dispatch}
use mpi_operator.Queue.{key, WorkQueue, Operator}
use mpi_operator.Queue.Laws.{Moment, notified, Reaches, notify}

-- The object that a change of a source is about: one that is new, gone, or of a new resource version.
pub data IsAbout : Change → Source → ObjectMeta → Type 0 where
  new_object : (s : Source) (o : ObjectMeta) → IsAbout (added s (object o)) s o
  gone : (s : Source) (o : ObjectMeta) → IsAbout (deleted s (object o)) s o
  gone_unseen : (s : Source) (o : ObjectMeta) → IsAbout (deleted s (tombstone (some o))) s o
  changed :
      (s : Source) (o : ObjectMeta) (old : String × ObjectMeta) (version : String)
      → version ≢ old.0
      → IsAbout (updated s old (version, o)) s o

module _ (w : WorkQueue) where
  -- A handler that panics takes the process with it.
  abbrev pub apply_effect : Effect → Operator w → Operator w
  apply_effect ignore c = c
  apply_effect (report e) c = record c { reported = e ∷ c.reported }
  apply_effect (enqueue name) c = record c { queue = w.add_rate_limited (key name) c.queue }

  abbrev apply_outcome : Outcome Effect → Operator w → Outcome (Operator w)
  apply_outcome (ok e) c = ok (apply_effect e c)
  apply_outcome (err e) c = err e
  apply_outcome panic c = panic

  pub react : Env → Change → Operator w → Outcome (Operator w)
  react env change c = apply_outcome (dispatch env c.cache change) c

  module _ (env : Env) where
    dispatch-enqueues :
        (c : Operator w) (change : Change) (s : Source) (o : ObjectMeta) (name : String)
        → IsAbout change s o
        → is_handled env.gang s ≡ true
        → Wakes env c.cache o name
        → dispatch env c.cache change ≡ ok (enqueue name)
    unfolding dispatch handle_object
    dispatch-enqueues c change s o name (new_object s' o') handled h =
        rw handled ((handle_object_iff env c.cache o name).1 h)
    dispatch-enqueues c change s o name (gone s' o') handled h =
        rw handled ((handle_object_iff env c.cache o name).1 h)
    dispatch-enqueues c change s o name (gone_unseen s' o') handled h =
        rw handled ((handle_object_iff env c.cache o name).1 h)
    dispatch-enqueues c change s o name (changed s' o' old version differ) handled h =
        rw handled ((handle_object_update_iff env c.cache old (version, o) name).1 (differ, h))

    -- A change of an object that belongs to a job, from an informer that has handlers, is a notification of
    -- the job's key.
    pub react-Reaches :
        (start : w.Queue) (h : List Moment) (c : Operator w) (change : Change) (s : Source)
        (o : ObjectMeta) (name : String)
        → Reaches w start c.queue h
        → IsAbout change s o
        → is_handled env.gang s ≡ true
        → Wakes env c.cache o name
        → (c' : Operator w) × (react env change c ≡ ok c')
          × Reaches w start c'.queue (notified name ∷ h)
    unfolding react
    react-Reaches start h c change s o name r about handled wakes = (
      apply_effect (enqueue name) c,
      rw (react, dispatch-enqueues c change s o name about handled wakes) refl,
      notify name r,
    )
