-- ===== src/Events/Key.antt =====
-- From a change to the job that is synced: the key of a handler, read back by the sync.
use mpi_operator.Prelude.{String, ◌≡◌, refl, ◌∙◌, some, List, ap}
use mpi_operator.Api.{GroupJob, ObjectMeta}
use mpi_operator.Outcome.{ok}
use mpi_operator.Defaults.{set_defaults}
use mpi_operator.Defaults.Laws.{set_defaults_idempotent}
use mpi_operator.Controller.World.{found, Cache, Env, Action}
use mpi_operator.Controller.Sync.Handler.{sync_found, sync_handler}
use mpi_operator.Events.Belongs.{BelongsTo, direct, by_job}
use mpi_operator.Events.{object, enqueue, handle_object}
use mpi_operator.Events.Laws.{handle_object_iff}

-- What is documented of keys and listers: SplitMetaNamespaceKey "returns the namespace and name that
-- MetaNamespaceKeyFunc encoded into key", and a lister's Get finds the object of that namespace and name.
pub record KeyLaws (env : Env) (cache : Cache) : Type 0 where
  pub split_back :
      (o : ObjectMeta) (key : String)
      → env.meta_key o ≡ ok key
      → env.split_key key ≡ some (o.namespace, o.name)
  pub found_by_name :
      (namespace name : String) (j : GroupJob)
      → cache.group_jobs namespace name ≡ found j
      → (j.meta.namespace ≡ namespace) × (j.meta.name ≡ name)

module _ (env : Env) (cache : Cache) where
  -- The job is the one of the cache with its own name.
  belongs-cached :
      (o : ObjectMeta) (j : GroupJob)
      → KeyLaws env cache
      → BelongsTo env cache o j
      → cache.group_jobs j.meta.namespace j.meta.name ≡ found j
  belongs-cached o j laws (direct {r = r} c kind e) =
      let (n, m) = laws.found_by_name o.namespace r.name j e in
      ap (λ x. cache.group_jobs x j.meta.name) n ∙ (ap (cache.group_jobs o.namespace) m ∙ e)
  belongs-cached o j laws (by_job {q = q} c kind e d kind' f) =
      let (n, m) = laws.found_by_name o.namespace q.name j f in
      ap (λ x. cache.group_jobs x j.meta.name) n ∙ (ap (cache.group_jobs o.namespace) m ∙ f)

  sync_handler-named :
      (j : GroupJob) (key : String) (later : Cache) (trace : List Action)
      → env.split_key key ≡ some (j.meta.namespace, j.meta.name)
      → later.group_jobs j.meta.namespace j.meta.name ≡ found j
      → sync_handler env key later trace ≡ sync_found env (found j) later trace
  unfolding sync_handler
  sync_handler-named j key later trace split there = rw (sync_handler, split) (rw there refl)

  -- Let keys and listers be as documented. When the handler puts a key on the queue for an object, the
  -- object belongs to a job, and a sync of that key is the sync of that job.
  pub handle_object-sync_handler :
      (o : ObjectMeta) (key : String) (trace : List Action)
      → KeyLaws env cache
      → handle_object env cache (object o) ≡ ok (enqueue key)
      → (j : GroupJob) × BelongsTo env cache o j
        × (sync_handler env key cache trace ≡ sync_found env (found j) cache trace)
  handle_object-sync_handler o key trace laws h =
      let (j, b, k) = (handle_object_iff env cache o key).0 h in
      (
        j,
        b,
        sync_handler-named j key cache trace (laws.split_back j.meta key k)
            (belongs-cached o j laws b),
      )

-- A sync does not tell whether the job of the cache was given its defaults by `addGroupJob` or was not.
pub sync_found-set_defaults :
    (env : Env) (j : GroupJob) (cache : Cache) (trace : List Action)
    → sync_found env (found (set_defaults j)) cache trace ≡ sync_found env (found j) cache trace
unfolding sync_found
sync_found-set_defaults env j cache trace = rw (set_defaults_idempotent j) refl
