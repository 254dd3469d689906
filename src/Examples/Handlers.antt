-- ===== src/Examples/Handlers.antt =====
-- The theorems on the handlers at concrete inputs.
use mpi_operator.Prelude.{
  String, ◌≡◌, ◌≢◌, ◌↔◌, refl, sym, ap, ◌∙◌, inl, inr, Option, some, [], ◌==◌, eq_iff,
}
use mpi_operator.Prelude.Tests.{All, if◌then◌else◌, Bool-cases}
use mpi_operator.Api.{GroupJob, ObjectMeta}
use mpi_operator.Machinery.{ControllerLaws}
use mpi_operator.Outcome.{Outcome, ok, err, failure, not_found}
use mpi_operator.Defaults.{set_defaults}
use mpi_operator.Controller.World.{Answer, found, failed, Cache, Env}
use mpi_operator.Controller.Sync.{sync_job}
use mpi_operator.Controller.Sync.Handler.{sync_found, sync_handler}
use mpi_operator.Events.{object, enqueue, handle_object, handle_object_update}
use mpi_operator.Events.Belongs.{BelongsTo, direct}
use mpi_operator.Events.Wakes.{Wakes}
use mpi_operator.Events.Laws.{handle_object_iff, handle_object_update_iff}
use mpi_operator.Events.Created.{Returns, sync_job-Returns}
use mpi_operator.Events.Key.{KeyLaws, handle_object-sync_handler, sync_found-set_defaults}
use mpi_operator.Examples.Jobs.{pi_job}
use mpi_operator.Examples.Setup.{env, empty_cache, owned_pod, machinery}

abbrev pub pod_meta : ObjectMeta
pod_meta = (owned_pod "pi-worker-0").meta

handle_object_iff_example :
    (handle_object env empty_cache (object pod_meta) ≡ ok (enqueue "pi"))
    ↔ Wakes env empty_cache pod_meta "pi"
handle_object_iff_example = handle_object_iff env empty_cache pod_meta "pi"

handle_object_update_iff_example :
    (handle_object_update env empty_cache ("1", pod_meta) ("2", pod_meta) ≡ ok (enqueue "pi"))
    ↔ (◌≢◌ {A = String} "2" "1" × Wakes env empty_cache pod_meta "pi")
handle_object_update_iff_example =
    handle_object_update_iff env empty_cache ("1", pod_meta) ("2", pod_meta) "pi"

machinery-ControllerLaws : ControllerLaws machinery
machinery-ControllerLaws = record {
  ref_controls = λ owner. refl;
  ref_name = λ owner. refl;
  ref_kind = λ owner. refl;
  ref_version = λ owner. refl;
  controller_found = λ o r e c. rw e refl;
  version_parsed = refl;
}

sync_job-Returns_example :
    All
      (Returns env pi_job empty_cache "pi")
      (sync_job env (record { job = pi_job; cache = empty_cache; trace = [] })).1.trace
sync_job-Returns_example =
    sync_job-Returns env pi_job empty_cache empty_cache pi_job "pi" machinery-ControllerLaws refl
      refl

-- The keys of the objects of one namespace, and a cache with one job.
abbrev default_key : ObjectMeta → Outcome String
default_key o = if o.namespace == "default" then ok o.name else err (failure "object has no meta")

abbrev key_env : Env
key_env = record env { meta_key = default_key }

abbrev one_job : String → String → Answer GroupJob
one_job namespace name =
    if namespace == "default"
    then (if name == "pi" then found pi_job else failed (not_found "no job"))
    else failed (not_found "no job")

abbrev one_job_cache : Cache
one_job_cache = record empty_cache { group_jobs = one_job }

split_default_key :
    (o : ObjectMeta) (name : String)
    → default_key o ≡ ok name
    → ◌≡◌ {A = Option (String × String)} (some ("default", name)) (some (o.namespace, o.name))
split_default_key o name h = elim (Bool-cases (o.namespace == "default")) [
  | inl here ↦ cc ((eq_iff o.namespace "default").0 here, rw here at h)
  | inr elsewhere ↦ cc (rw elsewhere at h)
]

one_job_found :
    (namespace name : String) (j : GroupJob)
    → one_job namespace name ≡ found j
    → (j.meta.namespace ≡ namespace) × (j.meta.name ≡ name)
one_job_found namespace name j h = elim (Bool-cases (namespace == "default")) [
  | inl here ↦ elim (Bool-cases (name == "pi")) [
    | inl named ↦
        let same : j ≡ pi_job = cc (rw named at (rw here at h)) in
        (
          ap (λ k. k.meta.namespace) same ∙ sym ((eq_iff namespace "default").0 here),
          ap (λ k. k.meta.name) same ∙ sym ((eq_iff name "pi").0 named),
        )
    | inr other_name ↦ cc (rw other_name at (rw here at h))
  ]
  | inr elsewhere ↦ cc (rw elsewhere at h)
]

key_env-KeyLaws : KeyLaws key_env one_job_cache
key_env-KeyLaws = record { split_back = split_default_key; found_by_name = one_job_found }

pod-Wakes : Wakes key_env one_job_cache pod_meta "pi"
pod-Wakes = (
  pi_job,
  direct {r = machinery.new_controller_ref pi_job.meta}
      {gvk = record { group = "coreweave.com"; version = "v2beta1"; kind = "GroupJob" }}
      (record { reference_is = refl; version_is = refl; kind_is = refl }) (refl, (refl, refl)) refl,
  refl,
)

handle_object-sync_handler_example :
    (j : GroupJob) × BelongsTo key_env one_job_cache pod_meta j
    × (sync_handler key_env "pi" one_job_cache [] ≡ sync_found key_env (found j) one_job_cache [])
handle_object-sync_handler_example =
    handle_object-sync_handler key_env one_job_cache pod_meta "pi" [] key_env-KeyLaws
      ((handle_object_iff key_env one_job_cache pod_meta "pi").1 pod-Wakes)

sync_found-set_defaults_example :
    sync_found env (found (set_defaults pi_job)) empty_cache []
    ≡ sync_found env (found pi_job) empty_cache []
sync_found-set_defaults_example = sync_found-set_defaults env pi_job empty_cache []
