-- ===== src/Controller/Legit/Resources.antt =====
-- The operations on the Service, the ConfigMap and the Secret keep the invariant.
use mpi_operator.Prelude.{String, inl, inr, none, List}
use mpi_operator.Prelude.Tests.{Bool-cases}
use mpi_operator.Api.{Pod, GroupJob, worker_role, ObjectMeta, Job, ConfigMap, Service, Secret}
use mpi_operator.Outcome.{is_not_found}
use mpi_operator.Names.{default_labels}
use mpi_operator.Build.Owned.{
  IsOwnedBy, update_discover_hosts-IsOwnedBy, new_ssh_auth_secret-IsOwnedBy,
}
use mpi_operator.PodGroup.Control.{worker_replicas}
use mpi_operator.Controller.World.{
  Answer, found, failed, Env, Sync, create_service, update_service, create_config_map,
  update_config_map, create_secret, update_secret, refuse, to_outcome,
}
use mpi_operator.Controller.Keeps.{
  Keeps, KeepsTo, KeepsTo-map, to_outcome_calm, Keeps-bind_to, Keeps-pure, Keeps-raise, Keeps-lift,
  Keeps-if, Keeps-bind, Keeps-with_text,
}
use mpi_operator.Controller.Legit.{
  Calm, Controls, Inv, built-IsOwnedBy, run, perform-Keeps, event-Keeps, tested-Controls,
}
use mpi_operator.Controller.Resources.{
  same_map, same_texts, keys_from_data, owned_or_refuse, launcher_of_answer, get_launcher_job,
  service_of_answer, get_or_create_service, get_running_worker_pods, config_map_of_answer,
  get_or_create_config_map, generate_secret, refresh_secret, secret_of_answer,
  get_or_create_ssh_auth_secret,
}

module _ {env : Env} {j : GroupJob} {pods : String → String → Answer Pod} {R : List String} where
  refuse-Keeps :
      {A : Type 0} (name kind : String)
      → Keeps (Calm env j pods) (Inv env j pods R) (refuse {A = A} name kind)
  unfolding refuse
  refuse-Keeps name kind = Keeps-bind _ _ event-Keeps (λ t. Keeps-raise _)

  -- The operation on an object of the cache may use that the job controls it.
  pub owned-Keeps :
      {A : Type 0} (meta : ObjectMeta) (kind : String) (m : Sync A)
      → (Controls env j meta → Keeps (Calm env j pods) (Inv env j pods R) m)
      → Keeps (Calm env j pods) (Inv env j pods R) (owned_or_refuse env meta kind m)
  unfolding owned_or_refuse
  owned-Keeps meta kind m k = record {
    preserved = λ s h. elim (Bool-cases (env.machinery.is_controlled_by meta s.job.meta)) [
      | inl is ↦ rw is ((k (tested-Controls meta h is)).preserved s h)
      | inr is_not ↦ rw is_not ((refuse-Keeps meta.name kind).preserved s h)
    ];
  }

  launcher_of_answer-Keeps :
      (a : Answer Job) → Keeps (Calm env j pods) (Inv env j pods R) (launcher_of_answer env a)
  unfolding launcher_of_answer
  launcher_of_answer-Keeps (found l) = owned-Keeps l.meta l.meta.kind _ (λ _. Keeps-pure _)
  launcher_of_answer-Keeps (failed e) =
      Keeps-if (is_not_found e) _ _ (Keeps-pure none) (Keeps-raise e)

  pub get_launcher_job-Keeps : Keeps (Calm env j pods) (Inv env j pods R) (get_launcher_job env)
  unfolding get_launcher_job
  get_launcher_job-Keeps = record { preserved = λ s h. run (launcher_of_answer-Keeps _) h }

  service_of_answer-Keeps :
      (new : Service)
      → IsOwnedBy env.machinery j.meta new.meta
      → (a : Answer Service)
      → Keeps (Calm env j pods) (Inv env j pods R) (service_of_answer env new a)
  unfolding service_of_answer
  service_of_answer-Keeps new owned (found svc) = owned-Keeps svc.meta svc.meta.kind _ λ c.
      Keeps-if (same_map svc.selector new.selector) _ _ (Keeps-pure svc) (
        perform-Keeps (update_service (record svc { selector = new.selector }))
          env.client.on_service c)
  service_of_answer-Keeps new owned (failed e) =
      Keeps-if (is_not_found e) _ _ (perform-Keeps (create_service new) env.client.on_service owned)
        (Keeps-raise e)

  pub get_or_create_service-Keeps :
      (new : Service)
      → IsOwnedBy env.machinery j.meta new.meta
      → Keeps (Calm env j pods) (Inv env j pods R) (get_or_create_service env new)
  unfolding get_or_create_service
  get_or_create_service-Keeps new owned = record {
    preserved = λ s h. run (service_of_answer-Keeps new owned _) h;
  }

  get_running_worker_pods-Keeps :
      Keeps (Calm env j pods) (Inv env j pods R) (get_running_worker_pods env)
  unfolding get_running_worker_pods
  get_running_worker_pods-Keeps = record {
    preserved = λ s h.
        run
          (Keeps-bind _ _
            (Keeps-lift
              (to_outcome (
                s.cache.list_pods s.job.meta.namespace
                  (default_labels s.job.meta.name worker_role)))
              (λ n. to_outcome_calm (
                s.cache.list_pods s.job.meta.namespace
                  (default_labels s.job.meta.name worker_role))))
            (λ pods. Keeps-pure _))
          h;
  }

  config_map_of_answer-Keeps :
      (new : ConfigMap)
      → IsOwnedBy env.machinery j.meta new.meta
      → (a : Answer ConfigMap)
      → Keeps (Calm env j pods) (Inv env j pods R) (config_map_of_answer env new a)
  unfolding config_map_of_answer
  config_map_of_answer-Keeps new owned (found cm) = owned-Keeps cm.meta cm.meta.kind _ λ c.
      Keeps-if (same_map cm.content new.content) _ _ (Keeps-pure cm) (
        perform-Keeps (update_config_map (record cm { content = new.content }))
          env.client.on_config_map c)
  config_map_of_answer-Keeps new owned (failed e) =
      Keeps-if (is_not_found e) _ _
        (perform-Keeps (create_config_map new) env.client.on_config_map owned) (Keeps-raise e)

  pub get_or_create_config_map-Keeps :
      Keeps (Calm env j pods) (Inv env j pods R) (get_or_create_config_map env)
  unfolding get_or_create_config_map
  get_or_create_config_map-Keeps = record {
    preserved = λ s h.
        run
          (Keeps-bind _ _ get_running_worker_pods-Keeps (λ pods.
            config_map_of_answer-Keeps _
              (built-IsOwnedBy h
                (update_discover_hosts-IsOwnedBy env.machinery s.job (worker_replicas s.job) pods))
              _))
          h;
  }

  generate_secret-KeepsTo :
      KeepsTo
        (Calm env j pods)
        (Inv env j pods R)
        (λ new. IsOwnedBy env.machinery j.meta new.meta)
        (generate_secret env)
  unfolding generate_secret
  generate_secret-KeepsTo = record {
    kept_to = λ s h.
        (KeepsTo-map {N = Calm env j pods} {P = Inv env j pods R}
            (to_outcome (env.generate_keys s.trace)) _
            (λ n. to_outcome_calm (env.generate_keys s.trace))
            (λ keys.
              built-IsOwnedBy h
                (new_ssh_auth_secret-IsOwnedBy env.machinery s.job keys.0 keys.1))).kept_to
          s h;
  }

  generate_secret-Keeps : Keeps (Calm env j pods) (Inv env j pods R) (generate_secret env)
  generate_secret-Keeps = record { preserved = λ s h. (generate_secret-KeepsTo.kept_to s h).0 }

  secret_of_answer-Keeps :
      (a : Answer Secret) → Keeps (Calm env j pods) (Inv env j pods R) (secret_of_answer env a)
  unfolding secret_of_answer refresh_secret
  secret_of_answer-Keeps (found secret) = owned-Keeps secret.meta secret.meta.kind _ λ c.
      Keeps-bind _ _ (Keeps-with_text _ generate_secret-Keeps "generating new secret") λ new.
        Keeps-if (same_texts (keys_from_data secret.content) (keys_from_data new.content)) _ _
          (Keeps-pure secret)
          (perform-Keeps (update_secret (record secret { content = new.content }))
            env.client.on_secret c)
  secret_of_answer-Keeps (failed e) =
      Keeps-if (is_not_found e) _ _
        (Keeps-bind_to _ _ generate_secret-KeepsTo
          (λ new owned. perform-Keeps (create_secret new) env.client.on_secret owned))
        (Keeps-raise e)

  pub get_or_create_ssh_auth_secret-Keeps :
      Keeps (Calm env j pods) (Inv env j pods R) (get_or_create_ssh_auth_secret env)
  unfolding get_or_create_ssh_auth_secret
  get_or_create_ssh_auth_secret-Keeps = record {
    preserved = λ s h. run (secret_of_answer-Keeps _) h;
  }
