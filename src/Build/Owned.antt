-- ===== src/Build/Owned.antt =====
-- The owner of the objects that are built for a job.
use mpi_operator.Prelude.{String, ℕ, ◌≡◌, refl, Option, List, [], ◌∷◌}
use mpi_operator.Prelude.Int.{ℤ}
use mpi_operator.Api.{GroupJob, ObjectMeta, Pod, PodGroup, worker_spec}
use mpi_operator.Api.Kube
use mpi_operator.Machinery.{Machinery}
use mpi_operator.Outcome.{deref, Yields, ok-Yields, >>=-Yields}
use mpi_operator.PodGroup.Resources.{QuantityOps}
use mpi_operator.PodGroup.Order.{PriorityClassLister}
use mpi_operator.PodGroup.Control.{
  GangScheduler, volcano, scheduler_plugins, new_pod_group, calculate_pg_min_resources,
  calculate_min_available,
}
use mpi_operator.Build.Config.{
  new_config_map, update_discover_hosts, new_job_service, new_ssh_auth_secret,
}
use mpi_operator.Build.Template.{new_worker, with_main_container, setup_ssh_on_pod}
use mpi_operator.Build.Launcher.{new_launcher_job}

-- The object stands in the namespace of the job, and its only owner is the job, as a controller.
pub record IsOwnedBy (m : Machinery) (owner : ObjectMeta) (o : ObjectMeta) : Type 0 where
  pub same_namespace : o.namespace ≡ owner.namespace
  pub owned : o.owner_references ≡ m.new_controller_ref owner ∷ []

module _ (m : Machinery) (j : GroupJob) where
  abbrev OwnedPod : Pod → Type 0
  OwnedPod p = IsOwnedBy m j.meta p.meta

  abbrev OwnedPodGroup : PodGroup → Type 0
  OwnedPodGroup pg = IsOwnedBy m j.meta pg.meta

  abbrev OwnedJob : Kube.Job → Type 0
  OwnedJob l = IsOwnedBy m j.meta l.meta

  pub new_job_service-IsOwnedBy : IsOwnedBy m j.meta (new_job_service m j).meta
  unfolding new_job_service
  new_job_service-IsOwnedBy = record { same_namespace = refl; owned = refl }

  pub update_discover_hosts-IsOwnedBy :
      (replicas : ℤ) (pods : List Pod)
      → IsOwnedBy m j.meta (update_discover_hosts (new_config_map m j replicas) j pods).meta
  unfolding update_discover_hosts new_config_map
  update_discover_hosts-IsOwnedBy replicas pods = record { same_namespace = refl; owned = refl }

  pub new_ssh_auth_secret-IsOwnedBy :
      (private_pem public_key : String)
      → IsOwnedBy m j.meta (new_ssh_auth_secret m j private_pem public_key).meta
  unfolding new_ssh_auth_secret
  new_ssh_auth_secret-IsOwnedBy private_pem public_key = record {
    same_namespace = refl;
    owned = refl;
  }

  -- An object whose metadata is read off from the way it is built.
  of_meta :
      (o : ObjectMeta)
      → o.namespace ≡ j.meta.namespace
      → o.owner_references ≡ m.new_controller_ref j.meta ∷ []
      → IsOwnedBy m j.meta o
  of_meta o n r = record { same_namespace = n; owned = r }

  pub new_worker-IsOwnedBy :
      (g : Option GangScheduler) (index : ℕ)
      → Yields (λ p. IsOwnedBy m j.meta p.meta) (new_worker m g j index)
  unfolding new_worker
  new_worker-IsOwnedBy g index = >>=-Yields OwnedPod (deref (worker_spec j)) _ λ r.
      >>=-Yields OwnedPod (with_main_container _ _) _ λ s.
        >>=-Yields OwnedPod (setup_ssh_on_pod s j) _
          λ s'. ok-Yields OwnedPod _ (of_meta _ refl refl)

  pub new_launcher_job-IsOwnedBy :
      (g : Option GangScheduler) → Yields (λ l. IsOwnedBy m j.meta l.meta) (new_launcher_job m g j)
  unfolding new_launcher_job
  new_launcher_job-IsOwnedBy g =
      >>=-Yields OwnedJob (_) _ λ t. ok-Yields OwnedJob _ (of_meta _ refl refl)

  pub new_pod_group-IsOwnedBy :
      (ops : QuantityOps) (lister : Option PriorityClassLister) (g : GangScheduler)
      → Yields (λ pg. IsOwnedBy m j.meta pg.meta) (new_pod_group m ops lister g j)
  unfolding new_pod_group
  new_pod_group-IsOwnedBy ops lister volcano =
      >>=-Yields OwnedPodGroup
        (calculate_pg_min_resources m ops lister (calculate_min_available j) j) _
        λ r. ok-Yields OwnedPodGroup _ (of_meta _ refl refl)
  new_pod_group-IsOwnedBy ops lister (scheduler_plugins name) =
      >>=-Yields OwnedPodGroup
        (calculate_pg_min_resources m ops lister (calculate_min_available j) j) _
        λ r. ok-Yields OwnedPodGroup _ (of_meta _ refl refl)
