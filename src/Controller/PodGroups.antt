-- ===== src/Controller/PodGroups.antt =====
-- The PodGroup of a job: the calls of the two implementations of `PodGroupControl`, which differ in the
-- types of their clients alone, and getOrCreatePodGroups and deletePodGroups. An implementation is handed
-- only objects of its own type, so that its type assertions hold.
pub mod Update
use mpi_operator.Prelude.{String, Bool, ◌&&◌, ◌∷◌, ◌==◌}
use mpi_operator.Prelude.Tests.{if◌then◌else◌}
use mpi_operator.Api.{PodGroup}
use mpi_operator.Outcome.{is_not_found}
use mpi_operator.PodGroup.Control.{GangScheduler, new_pod_group}
use mpi_operator.Controller.World.{
  Answer, found, failed, Env, State, Sync, create_pod_group, update_pod_group, delete_pod_group,
  ◌>>=◌, pure, raise, lift, perform,
}
use mpi_operator.Controller.Resources.{owned_or_refuse}

abbrev pub get_pod_group : (namespace name : String) → State → Answer PodGroup
get_pod_group namespace name s = s.cache.pod_groups namespace name

-- `oldPG.Spec = newPG.Spec`: the object that the lister found is changed in place.
unfoldable pub store_pod_group : (namespace name : String) → PodGroup → State → State
store_pod_group namespace name pg s = record s {
  cache = record s.cache {
    pod_groups = λ n m. if n == namespace && m == name then found pg else s.cache.pod_groups n m;
  };
}

-- The old object, with the spec of the new one.
abbrev pub respecified : (old new : PodGroup) → PodGroup
respecified old new = record old { spec = new.spec }

module _ (env : Env) where
  abbrev pub call_create_pod_group : PodGroup → Sync PodGroup
  call_create_pod_group pg = perform (create_pod_group pg) env.client.on_pod_group

  unfoldable pub call_update_pod_group : (old new : PodGroup) → Sync PodGroup
  unfolding store_pod_group
  call_update_pod_group old new s =
      perform (update_pod_group (respecified old new)) env.client.on_pod_group
        (store_pod_group new.meta.namespace new.meta.name (respecified old new) s)

  abbrev pub call_delete_pod_group : (namespace name : String) → Sync (Unit {0})
  call_delete_pod_group namespace name =
      perform (delete_pod_group namespace name) env.client.on_delete

  abbrev pub pg_specs_are_equal : (a b : PodGroup) → Bool
  pg_specs_are_equal a b = env.specs_equal a.spec b.spec

  unfoldable pub pod_group_of_answer : PodGroup → Answer PodGroup → Sync PodGroup
  unfolding call_update_pod_group
  pod_group_of_answer new (found pg) =
      owned_or_refuse env pg.meta "PodGroup"
        (if pg_specs_are_equal pg new then pure pg else call_update_pod_group pg new)
  pod_group_of_answer new (failed e) = if is_not_found e then call_create_pod_group new else raise e

  unfoldable pub get_or_create_pod_groups : GangScheduler → Sync PodGroup
  unfolding pod_group_of_answer
  get_or_create_pod_groups g s =
      (do
        new ← lift (new_pod_group env.machinery env.ops env.priority_classes g s.job)
        pod_group_of_answer new (get_pod_group new.meta.namespace new.meta.name s))
        s

  unfoldable pub delete_of_answer : Answer PodGroup → Sync (Unit {0})
  delete_of_answer (found pg) s =
      owned_or_refuse env pg.meta "PodGroup"
        (call_delete_pod_group s.job.meta.namespace s.job.meta.name) s
  delete_of_answer (failed e) s = (if is_not_found e then pure tt else raise e) s

  unfoldable pub delete_pod_groups : Sync (Unit {0})
  unfolding delete_of_answer
  delete_pod_groups s = delete_of_answer (get_pod_group s.job.meta.namespace s.job.meta.name s) s
