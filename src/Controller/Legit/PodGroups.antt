-- ===== src/Controller/Legit/PodGroups.antt =====
-- The operations on the PodGroup keep the invariant.
use mpi_operator.Prelude.{String, ◌≡◌, ◌≢◌, sym, subst, some, List}
use mpi_operator.Api.{Pod, GroupJob, PodGroup}
use mpi_operator.Outcome.{panic, is_not_found}
use mpi_operator.PodGroup.Control.{GangScheduler, new_pod_group}
use mpi_operator.Build.Owned.{IsOwnedBy, new_pod_group-IsOwnedBy}
use mpi_operator.Controller.World.{
  Answer, found, failed, Env, State, create_pod_group, update_pod_group, delete_pod_group,
}
use mpi_operator.Controller.Keeps.{
  Keeps, KeepsTo-lift, Keeps-bind_to, Keeps-pure, Keeps-raise, Keeps-if,
}
use mpi_operator.Controller.Legit.{
  Calm, but_status, Controls, Inv, built-Yields, run, perform-Keeps,
}
use mpi_operator.Controller.PodGroups.{
  get_pod_group, store_pod_group, respecified, call_update_pod_group, pod_group_of_answer,
  get_or_create_pod_groups, delete_of_answer, delete_pod_groups,
}
use mpi_operator.Controller.Legit.Resources.{owned-Keeps}

module _ {env : Env} {j : GroupJob} {pods : String → String → Answer Pod} {R : List String} where
  store_pod_group-Inv :
      (namespace name : String) (pg : PodGroup) {s : State}
      → Inv env j pods R s
      → Inv env j pods R (store_pod_group namespace name pg s)
  unfolding store_pod_group
  store_pod_group-Inv namespace name pg h = record {
    same_meta = h.same_meta;
    same_spec = h.same_spec;
    same_pods = h.same_pods;
    legit = h.legit;
    roles = h.roles;
  }

  call_update_pod_group-Keeps :
      (old new : PodGroup)
      → Controls env j old.meta
      → Keeps (Calm env j pods) (Inv env j pods R) (call_update_pod_group env old new)
  unfolding call_update_pod_group
  call_update_pod_group-Keeps old new c = record {
    preserved = λ s h.
        run (perform-Keeps (update_pod_group (respecified old new)) env.client.on_pod_group c)
          (store_pod_group-Inv _ _ _ h);
  }

  pod_group_of_answer-Keeps :
      (new : PodGroup)
      → IsOwnedBy env.machinery j.meta new.meta
      → (a : Answer PodGroup)
      → Keeps (Calm env j pods) (Inv env j pods R) (pod_group_of_answer env new a)
  unfolding pod_group_of_answer
  pod_group_of_answer-Keeps new owned (found pg) = owned-Keeps pg.meta "PodGroup" _ λ c.
      Keeps-if (env.specs_equal pg.spec new.spec) _ _ (Keeps-pure pg)
        (call_update_pod_group-Keeps pg new c)
  pod_group_of_answer-Keeps new owned (failed e) =
      Keeps-if (is_not_found e) _ _
        (perform-Keeps (create_pod_group new) env.client.on_pod_group owned) (Keeps-raise e)

  pub get_or_create_pod_groups-Keeps :
      (g : GangScheduler)
      → env.gang ≡ some g
      → Keeps (Calm env j pods) (Inv env j pods R) (get_or_create_pod_groups env g)
  unfolding get_or_create_pod_groups
  get_or_create_pod_groups-Keeps g ganged = record {
    preserved = λ s h.
        run
          (Keeps-bind_to _ _
            (KeepsTo-lift (new_pod_group env.machinery env.ops env.priority_classes g s.job)
              (λ n.
                subst (λ k. new_pod_group env.machinery env.ops env.priority_classes g k ≢ panic)
                  (sym (but_status h)) (n.pod_group_made g s.job.status ganged))
              (built-Yields (λ pg. pg.meta) _ h
                (new_pod_group-IsOwnedBy env.machinery s.job env.ops env.priority_classes g)))
            (λ new owned.
              pod_group_of_answer-Keeps new owned
                (get_pod_group new.meta.namespace new.meta.name s)))
          h;
  }

  delete_of_answer-Keeps :
      (a : Answer PodGroup) → Keeps (Calm env j pods) (Inv env j pods R) (delete_of_answer env a)
  unfolding delete_of_answer
  delete_of_answer-Keeps (found pg) = record {
    preserved = λ s h.
        run
          (owned-Keeps pg.meta "PodGroup" _
            (λ c. perform-Keeps (delete_pod_group _ _) env.client.on_delete tt))
          h;
  }
  delete_of_answer-Keeps (failed e) = record {
    preserved = λ s h. run (Keeps-if (is_not_found e) _ _ (Keeps-pure tt) (Keeps-raise e)) h;
  }

  pub delete_pod_groups-Keeps : Keeps (Calm env j pods) (Inv env j pods R) (delete_pod_groups env)
  unfolding delete_pod_groups
  delete_pod_groups-Keeps = record { preserved = λ s h. run (delete_of_answer-Keeps _) h }
