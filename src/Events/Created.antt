-- ===== src/Events/Created.antt =====
-- The objects that a sync creates, when their informers report them.
use mpi_operator.Prelude.{
  String, ◌≡◌, refl, ◌∙◌, Option, none, some, List, [], ◌∷◌, ap, subst, some-injective,
}
use mpi_operator.Prelude.Tests.{All}
use mpi_operator.Api.{GroupJob, ObjectMeta, group_name, group_version, group_job_kind}
use mpi_operator.Machinery.{Machinery, ControllerLaws}
use mpi_operator.Outcome.{ok}
use mpi_operator.Build.Owned.{IsOwnedBy}
use mpi_operator.Controller.World.{
  found, Cache, Env, Action, create_pod, create_service, create_config_map, create_secret,
  create_job, create_pod_group,
}
use mpi_operator.Controller.Sync.{sync_job}
use mpi_operator.Controller.Legit.{IsLegit}
use mpi_operator.Controller.Legit.Handler.{sync_job-IsLegit}
use mpi_operator.Events.Ownership.{Gvk}
use mpi_operator.Events.Belongs.{IsControlled, direct}
use mpi_operator.Events.{object, enqueue, handle_object}
use mpi_operator.Events.Laws.{handle_object_iff}

abbrev group_job_gvk : Gvk
group_job_gvk = record { group = group_name; version = group_version; kind = group_job_kind }

-- The object that a call creates.
abbrev pub created_object : Action → Option ObjectMeta
created_object (create_pod p) = some p.meta
created_object (create_service svc) = some svc.meta
created_object (create_config_map cm) = some cm.meta
created_object (create_secret secret) = some secret.meta
created_object (create_job l) = some l.meta
created_object (create_pod_group pg) = some pg.meta
created_object _ = none

owned-IsControlled :
    (m : Machinery) (owner o : ObjectMeta)
    → ControllerLaws m
    → IsOwnedBy m owner o
    → IsControlled m o (m.new_controller_ref owner) group_job_gvk
owned-IsControlled m owner o laws w = record {
  reference_is =
      laws.controller_found o (m.new_controller_ref owner) w.owned (laws.ref_controls owner);
  version_is = ap m.parse_group_version (laws.ref_version owner) ∙ laws.version_parsed;
  kind_is = laws.ref_kind owner;
}

module _ (env : Env) (j : GroupJob) where
  created-IsOwnedBy :
      (a : Action) (o : ObjectMeta)
      → IsLegit env j a
      → created_object a ≡ some o
      → IsOwnedBy env.machinery j.meta o
  created-IsOwnedBy (create_pod p) o l e =
      subst (IsOwnedBy env.machinery j.meta) (some-injective _ _ e) l.1
  created-IsOwnedBy (create_job k) o l e =
      subst (IsOwnedBy env.machinery j.meta) (some-injective _ _ e) l
  created-IsOwnedBy (create_service svc) o l e =
      subst (IsOwnedBy env.machinery j.meta) (some-injective _ _ e) l
  created-IsOwnedBy (create_config_map cm) o l e =
      subst (IsOwnedBy env.machinery j.meta) (some-injective _ _ e) l
  created-IsOwnedBy (create_secret secret) o l e =
      subst (IsOwnedBy env.machinery j.meta) (some-injective _ _ e) l
  created-IsOwnedBy (create_pod_group pg) o l e =
      subst (IsOwnedBy env.machinery j.meta) (some-injective _ _ e) l
  created-IsOwnedBy _ o l e = cc

  -- What the handler does with an object that a sync creates, by later caches.
  abbrev pub Returns : Cache → String → Action → Type 0
  Returns later key a =
      (o : ObjectMeta)
      → created_object a ≡ some o
      → handle_object env later (object o) ≡ ok (enqueue key)

  legit-Returns :
      (k : GroupJob) (later : Cache) (key : String)
      → ControllerLaws env.machinery
      → later.group_jobs j.meta.namespace j.meta.name ≡ found k
      → env.meta_key k.meta ≡ ok key
      → (trace : List Action) → All (IsLegit env j) trace
      → All (Returns later key) trace
  legit-Returns k later key laws there named [] h = tt
  legit-Returns k later key laws there named (a ∷ trace) (l, h) = (
    λ o e.
        let w : IsOwnedBy env.machinery j.meta o = created-IsOwnedBy a o l e in
        let r = env.machinery.new_controller_ref j.meta in
        (handle_object_iff env later o key).1 (
          k,
          direct {r = r} {gvk = group_job_gvk} (owned-IsControlled env.machinery j.meta o laws w)
              (refl, (refl, refl))
              (ap (λ n. later.group_jobs n r.name) w.same_namespace
                ∙ (ap (λ n. later.group_jobs j.meta.namespace n) (laws.ref_name j.meta) ∙ there)),
          named,
        ),
    legit-Returns k later key laws there named trace h,
  )

  -- Let references to controllers be as documented. Whatever a sync of the job creates, when its informer
  -- reports the object while the job is in the cache, the handler puts the job's key on the queue.
  pub sync_job-Returns :
      (cache later : Cache) (k : GroupJob) (key : String)
      → ControllerLaws env.machinery
      → later.group_jobs j.meta.namespace j.meta.name ≡ found k
      → env.meta_key k.meta ≡ ok key
      → All
          (Returns later key)
          (sync_job env (record { job = j; cache = cache; trace = [] })).1.trace
  sync_job-Returns cache later k key laws there named =
      legit-Returns k later key laws there named _ (sync_job-IsLegit env j cache)
