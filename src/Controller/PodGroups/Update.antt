-- ===== src/Controller/PodGroups/Update.antt =====
-- The update of a PodGroup that is not as the job wants it.
use mpi_operator.Prelude.{◌≡◌, refl, true, false, ◌∷◌, eq_iff}
use mpi_operator.Api.{PodGroup}
use mpi_operator.Outcome.{ok}
use mpi_operator.PodGroup.Control.{GangScheduler, new_pod_group}
use mpi_operator.Controller.World.{found, Env, State, update_pod_group, ◌>>=◌}
use mpi_operator.Controller.Resources.{owned_or_refuse}
use mpi_operator.Controller.PodGroups.{
  get_pod_group, store_pod_group, respecified, call_update_pod_group, pod_group_of_answer,
  get_or_create_pod_groups,
}

module _ (env : Env) (g : GangScheduler) (old new : PodGroup) (s : State) where
  module _ (made : new_pod_group env.machinery env.ops env.priority_classes g s.job ≡ ok new)
      (cached : get_pod_group new.meta.namespace new.meta.name s ≡ found old)
      (controlled : env.machinery.is_controlled_by old.meta s.job.meta ≡ true) where
    -- A PodGroup of the job that is as the job wants it is left alone.
    equal_pod_group_stays :
        env.specs_equal old.spec new.spec ≡ true → get_or_create_pod_groups env g s ≡ (ok old, s)
    unfolding get_or_create_pod_groups pod_group_of_answer owned_or_refuse ◌>>=◌
    equal_pod_group_stays e = rw made (rw cached (rw controlled (rw e refl)))

    -- Another one is updated.
    unequal_pod_group_updated :
        env.specs_equal old.spec new.spec ≡ false
        → get_or_create_pod_groups env g s ≡ call_update_pod_group env old new s
    unfolding get_or_create_pod_groups pod_group_of_answer owned_or_refuse ◌>>=◌
    unequal_pod_group_updated e = rw made (rw cached (rw controlled (rw e refl)))

-- Let the job control the PodGroup of the cache, and let its spec be another than the job's. One call is
-- made, to update it. Whatever the API server answers, also an error, the PodGroup of the cache has the
-- new spec then, and a sync that finds it there, and takes specs for equal if they are the same, returns
-- it without a call and without an error.
pub update_pod_group_once :
    (env : Env) (g : GangScheduler) (old new : PodGroup) (s : State)
    → new_pod_group env.machinery env.ops env.priority_classes g s.job ≡ ok new
    → get_pod_group new.meta.namespace new.meta.name s ≡ found old
    → env.machinery.is_controlled_by old.meta s.job.meta ≡ true
    → env.specs_equal old.spec new.spec ≡ false
    → env.specs_equal new.spec new.spec ≡ true
    → ((get_or_create_pod_groups env g s).1.trace
        ≡ update_pod_group (respecified old new) ∷ s.trace)
      × (get_pod_group new.meta.namespace new.meta.name (get_or_create_pod_groups env g s).1
          ≡ found (respecified old new))
      × (get_or_create_pod_groups env g (get_or_create_pod_groups env g s).1
          ≡ (ok (respecified old new), (get_or_create_pod_groups env g s).1))
unfolding call_update_pod_group store_pod_group
update_pod_group_once env g old new s made cached controlled differ same =
    rw (unequal_pod_group_updated env g old new s made cached controlled differ) (
      refl,
      stored,
      equal_pod_group_stays env g (respecified old new) new _ made stored controlled same,
    )
  where
    stored :
        get_pod_group new.meta.namespace new.meta.name (call_update_pod_group env old new s).1
        ≡ found (respecified old new)
    stored =
        rw ((eq_iff new.meta.namespace new.meta.namespace).1 refl)
          (rw ((eq_iff new.meta.name new.meta.name).1 refl) refl)
