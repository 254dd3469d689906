-- ===== src/Events.antt =====
-- The event handlers of the informers (addGroupJob, enqueueGroupJob, handleObject, handleObjectUpdate,
-- ownerReferenceAndGVK of pkg/controller/mpi_job_controller.go). A handler reads the caches; what it does
-- is to put a key on the work queue, or to report an error.
pub mod Ownership
pub mod Belongs
pub mod Wakes
pub mod Laws
pub mod Created
pub mod Wiring
pub mod Key
use mpi_operator.Prelude.{String, Bool, true, false, ◌&&◌, not, Option, none, some, ◌==◌}
use mpi_operator.Prelude.Tests.{if◌then◌else◌, ◌⧺◌}
use mpi_operator.Api.{
  GroupJob, ObjectMeta, Job, group_name, group_version, group_job_kind, batch_group, batch_job_kind,
}
use mpi_operator.Outcome.{Error, failure, is_not_found, wrap, Outcome, ok, err, panic, ◌>>=◌, deref}
use mpi_operator.Defaults.{set_defaults}
use mpi_operator.Controller.World.{Answer, found, failed, Cache, Env}
use mpi_operator.Events.Ownership.{Gvk, Owner, owner_reference_and_gvk}

-- What an informer hands over: an object, the tombstone of one that was deleted while the watch was
-- interrupted, which may hold no object, or anything else.
pub data Notice : Type 0 where
  object : ObjectMeta → Notice
  tombstone : Option ObjectMeta → Notice
  unknown : Notice

-- What a handler does in the end: nothing, `runtime.HandleError`, `queue.AddRateLimited`.
pub data Effect : Type 0 where
  ignore : Effect
  report : Error → Effect
  enqueue : (key : String) → Effect

-- A test on the Group and the Kind.
abbrev pub is_batch_job : Gvk → Bool
is_batch_job gvk = gvk.group == batch_group && gvk.kind == batch_job_kind

-- The Kind, the Group and the Version of the owner are those of a GroupJob.
abbrev pub is_group_job : Gvk → Bool
is_group_job gvk =
    gvk.kind == group_job_kind && (gvk.group == group_name && gvk.version == group_version)

module _ (env : Env) where
  pub enqueue_group_job : GroupJob → Outcome Effect
  enqueue_group_job j = elim (env.meta_key j.meta) [
    | ok key ↦ ok (enqueue key)
    | err e ↦ ok (report e)
    | panic ↦ panic
  ]

  -- The informer's own object is given its defaults, and the key is enqueued.
  pub add_group_job : GroupJob → GroupJob × Outcome Effect
  unfolding enqueue_group_job
  add_group_job j = let j' = set_defaults j in (j', enqueue_group_job j')

  pub notify_job : Answer GroupJob → Outcome Effect
  unfolding enqueue_group_job
  notify_job (found j) = enqueue_group_job j
  notify_job (failed e) = ok ignore

  -- The last part of `handleObject`: the owner is a GroupJob, and its job is found.
  pub notify_owner : Cache → ObjectMeta → Owner → Outcome Effect
  unfolding notify_job
  notify_owner cache o owner =
      if is_group_job owner.gvk
      then deref owner.reference >>= (λ r. notify_job (cache.group_jobs o.namespace r.name))
      else ok ignore

  pub notify_owner_of_job : Cache → ObjectMeta → Answer Job → Outcome Effect
  unfolding notify_owner
  notify_owner_of_job cache o (found l) = elim (owner_reference_and_gvk env.machinery l.meta) [
    | ok owner ↦ notify_owner cache o owner
    | err e ↦ ok (report (wrap "obtaining k8s Job's owner" e))
    | panic ↦ panic
  ]
  notify_owner_of_job cache o (failed e) =
      if is_not_found e then ok ignore else ok (report (wrap "obtaining owning k8s Job" e))

  -- A pod of the launcher is controlled by the launcher's Job: the owner is that of the Job.
  pub follow_owner : Cache → ObjectMeta → Owner → Outcome Effect
  unfolding notify_owner notify_owner_of_job
  follow_owner cache o owner =
      if is_batch_job owner.gvk
      then deref owner.reference
        >>= (λ r. notify_owner_of_job cache o (cache.jobs o.namespace r.name))
      else notify_owner cache o owner

  pub handle_meta : Cache → ObjectMeta → Outcome Effect
  unfolding follow_owner
  handle_meta cache o = elim (owner_reference_and_gvk env.machinery o) [
    | ok owner ↦ follow_owner cache o owner
    | err e ↦ ok (report e)
    | panic ↦ panic
  ]

  unfoldable pub handle_object : Cache → Notice → Outcome Effect
  unfolding handle_meta
  handle_object cache (object o) = handle_meta cache o
  handle_object cache (tombstone (some o)) = handle_meta cache o
  handle_object cache (tombstone none) =
      ok (report (failure "error decoding object tombstone, invalid type"))
  handle_object cache unknown = ok (report (failure "error decoding object, invalid type"))

  -- Both objects are given by their metadata and their resource versions.
  pub handle_object_update : Cache → (old new : String × ObjectMeta) → Outcome Effect
  unfolding handle_object
  handle_object_update cache old new =
      if new.0 == old.0 then ok ignore else handle_object cache (object new.1)
