-- ===== src/Controller/Resources.antt =====
-- The objects that a job has once: the launcher Job, the Service, the ConfigMap, the Secret
-- (getLauncherJob, getOrCreateService, getOrCreateConfigMap, getOrCreateSSHAuthSecret).
use Prim.Native.String.{compare}
use text.Mathlib.Text.{is_lt}
use mpi_operator.Prelude.{String, Bool, true, false, ◌&&◌, Option, none, some, List, [], ◌∷◌, ◌==◌}
use mpi_operator.Prelude.Tests.{if◌then◌else◌, filter_by, ◌⧺◌}
use mpi_operator.Prelude.Assoc.{Assoc, lookup}
use mpi_operator.Api.{
  ObjectMeta, Pod, PodPhase, pod_pending, pod_running, pod_succeeded, pod_failed, pod_unknown, Job,
  ConfigMap, Service, Secret, config_suffix, ssh_auth_secret_suffix, worker_role,
}
use mpi_operator.Outcome.{is_not_found}
use mpi_operator.Names.{launcher_name, default_labels}
use mpi_operator.PodGroup.Control.{worker_replicas}
use mpi_operator.Build.Config.{new_config_map, update_discover_hosts, new_ssh_auth_secret}
use mpi_operator.Controller.World.{
  Answer, found, failed, Env, State, Sync, create_service, update_service, create_config_map,
  update_config_map, create_secret, update_secret, ◌>>=◌, pure, raise, lift, perform, to_outcome,
  refuse, with_text,
}

unfoldable pub is_phase : PodPhase → PodPhase → Bool
is_phase pod_pending pod_pending = true
is_phase pod_running pod_running = true
is_phase pod_succeeded pod_succeeded = true
is_phase pod_failed pod_failed = true
is_phase pod_unknown pod_unknown = true
is_phase _ _ = false

pub is_pod_running : Pod → Bool
unfolding is_phase
is_pod_running p = is_phase p.phase pod_running

pub is_pod_pending : Pod → Bool
unfolding is_phase
is_pod_pending p = is_phase p.phase pod_pending

pub is_pod_failed : Pod → Bool
unfolding is_phase
is_pod_failed p = is_phase p.phase pod_failed

-- Equality of maps: the keys of each are found in the other with their values.
contains_all : Assoc String → Assoc String → Bool
contains_all [] b = true
contains_all ((k, v) ∷ a) b =
    (elim (lookup k b) [ none ↦ false | some w ↦ v == w ]) && contains_all a b

pub same_map : Assoc String → Assoc String → Bool
unfolding contains_all
same_map a b = contains_all a b && contains_all b a

place_text : String → List String → List String
place_text t [] = t ∷ []
place_text t (x ∷ xs) = if is_lt (compare t x) then t ∷ x ∷ xs else x ∷ place_text t xs

-- The keys, sorted.
pub keys_from_data : Assoc String → List String
unfolding place_text
keys_from_data [] = []
keys_from_data ((k, v) ∷ m) = place_text k (keys_from_data m)

pub same_texts : List String → List String → Bool
same_texts [] [] = true
same_texts (a ∷ as') (b ∷ bs) = a == b && same_texts as' bs
same_texts _ _ = false

module _ (env : Env) where
  abbrev is_controlled : ObjectMeta → State → Bool
  is_controlled meta s = env.machinery.is_controlled_by meta s.job.meta

  -- An object of the cache, refused where the job does not control it.
  unfoldable pub owned_or_refuse : {A : Type 0} → ObjectMeta → String → Sync A → Sync A
  owned_or_refuse meta kind m s = (if is_controlled meta s then m else refuse meta.name kind) s

  unfoldable pub launcher_of_answer : Answer Job → Sync (Option Job)
  launcher_of_answer (found launcher) =
      owned_or_refuse launcher.meta launcher.meta.kind (pure (some launcher))
  launcher_of_answer (failed e) = if is_not_found e then pure none else raise e

  unfoldable pub get_launcher_job : Sync (Option Job)
  unfolding launcher_of_answer
  get_launcher_job s =
      launcher_of_answer (s.cache.jobs s.job.meta.namespace (launcher_name s.job)) s

  unfoldable pub service_of_answer : Service → Answer Service → Sync Service
  service_of_answer new (found svc) = owned_or_refuse svc.meta svc.meta.kind (
      if same_map svc.selector new.selector
      then pure svc
      else perform (update_service (record svc { selector = new.selector })) env.client.on_service)
  service_of_answer new (failed e) =
      if is_not_found e then perform (create_service new) env.client.on_service else raise e

  unfoldable pub get_or_create_service : Service → Sync Service
  unfolding service_of_answer
  get_or_create_service new s =
      service_of_answer new (s.cache.services s.job.meta.namespace new.meta.name) s

  -- The worker pods that are running, by the cache.
  unfoldable pub get_running_worker_pods : Sync (List Pod)
  get_running_worker_pods s =
      (do
        pods ← lift (
            to_outcome
              (s.cache.list_pods s.job.meta.namespace (default_labels s.job.meta.name worker_role)))
        pure (filter_by is_pod_running pods))
        s

  unfoldable pub config_map_of_answer : ConfigMap → Answer ConfigMap → Sync ConfigMap
  config_map_of_answer new (found cm) = owned_or_refuse cm.meta cm.meta.kind (
      if same_map cm.content new.content
      then pure cm
      else perform (update_config_map (record cm { content = new.content }))
          env.client.on_config_map)
  config_map_of_answer new (failed e) =
      if is_not_found e then perform (create_config_map new) env.client.on_config_map else raise e

  unfoldable pub get_or_create_config_map : Sync ConfigMap
  unfolding get_running_worker_pods config_map_of_answer
  get_or_create_config_map s =
      (do
        pods ← get_running_worker_pods
        let new =
            update_discover_hosts (new_config_map env.machinery s.job (worker_replicas s.job)) s.job
              pods
        config_map_of_answer new
            (s.cache.config_maps s.job.meta.namespace (s.job.meta.name ⧺ config_suffix)))
        s

  -- A Secret with new keys.
  unfoldable pub generate_secret : Sync Secret
  generate_secret s =
      (do
        (private_pem, public_key) ← lift (to_outcome (env.generate_keys s.trace))
        pure (new_ssh_auth_secret env.machinery s.job private_pem public_key))
        s

  -- The keys of the map that is there are compared, not the values.
  unfoldable pub refresh_secret : Secret → Secret → Sync Secret
  refresh_secret secret new =
      if same_texts (keys_from_data secret.content) (keys_from_data new.content)
      then pure secret
      else perform (update_secret (record secret { content = new.content })) env.client.on_secret

  unfoldable pub secret_of_answer : Answer Secret → Sync Secret
  unfolding generate_secret refresh_secret
  secret_of_answer (found secret) =
      owned_or_refuse secret.meta secret.meta.kind
        (with_text "generating new secret" generate_secret >>= refresh_secret secret)
  secret_of_answer (failed e) =
      if is_not_found e
      then generate_secret >>= (λ new. perform (create_secret new) env.client.on_secret)
      else raise e

  unfoldable pub get_or_create_ssh_auth_secret : Sync Secret
  unfolding secret_of_answer
  get_or_create_ssh_auth_secret s =
      secret_of_answer
        (s.cache.secrets s.job.meta.namespace (s.job.meta.name ⧺ ssh_auth_secret_suffix)) s
