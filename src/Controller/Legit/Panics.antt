-- ===== src/Controller/Legit/Panics.antt =====
-- No sync panics, whether its job is valid or not.
use mpi_operator.Prelude.{
  String, ◌≡◌, ◌≢◌, refl, Bool, true, false, not, Option, none, some, List, [], ◌∷◌,
}
use mpi_operator.Prelude.Tests.{is_nil, if◌then◌else◌}
use mpi_operator.Api.{GroupJob, JobStatus}
use mpi_operator.Machinery.{FieldError, NonnegativeLaw}
use mpi_operator.Outcome.{Error, Outcome, wrap, ok, err, panic, is_not_found}
use mpi_operator.Defaults.{set_defaults}
use mpi_operator.Names.{managed_by_external_controller}
use mpi_operator.Validation.{validate_group_job}
use mpi_operator.Validation.Laws.{validate_group_job_iff}
use mpi_operator.PodGroup.Control.{GangScheduler, new_pod_group}
use mpi_operator.Controller.World.{Answer, found, failed, Cache, Env, State, pure}
use mpi_operator.Controller.Sync.{sync_job, sync_checked, report_invalid}
use mpi_operator.Controller.Sync.Handler.{Synced, sync_found, sync_handler}
use mpi_operator.Controller.Keeps.{ok_calm, err_calm}
use mpi_operator.Controller.Legit.Handler.{sync_job_no_panic}

-- With errors of the validator, a sync ends with no error, whatever the two tests before say.
rejected :
    (env : Env) (managed deleted : Bool) (e : FieldError) (errs : List FieldError) (s : State)
    → ((if managed then pure tt else if deleted then pure tt else sync_checked env (e ∷ errs)) s).0
      ≢ panic
unfolding sync_checked report_invalid
rejected env true deleted e errs s = ok_calm tt
rejected env false true e errs s = ok_calm tt
rejected env false false e errs s = ok_calm tt

-- What the caches and the gang scheduler are for not to make a sync of a job panic.
pub record IsCalm (env : Env) (cache : Cache) (j : GroupJob) : Type 0 where
  pub only_missing :
      (namespace name : String) (e : Error)
      → cache.pods namespace name ≡ failed e
      → is_not_found e ≡ true
  pub pod_group_made :
      (g : GangScheduler) (status : JobStatus)
      → env.gang ≡ some g
      → new_pod_group env.machinery env.ops env.priority_classes g (record j { status = status })
        ≢ panic

sync_any_calm :
    (env : Env) (j : GroupJob) (cache : Cache)
    → NonnegativeLaw env.machinery
    → IsCalm env cache j
    → (sync_job env (record { job = j; cache = cache; trace = [] })).0 ≢ panic
unfolding sync_job
sync_any_calm env j cache law calm = go (validate_group_job env.machinery j) refl
  where
    go :
        (errs : List FieldError)
        → validate_group_job env.machinery j ≡ errs
        → (sync_job env (record { job = j; cache = cache; trace = [] })).0 ≢ panic
    go [] e = sync_job_no_panic env j cache (record {
      valid = (validate_group_job_iff env.machinery law j).0 e;
      only_missing = calm.only_missing;
      pod_group_made = calm.pod_group_made;
    })
    go (e ∷ errs) f =
        rw (sync_job, f)
          (rejected env (not (is_nil (managed_by_external_controller j.spec.run_policy.managed_by)))
            (not (is_nil j.meta.deletion_timestamp)) e errs _)

sync_found_calm :
    (env : Env) (a : Answer GroupJob) (cache : Cache)
    → NonnegativeLaw env.machinery
    → ((shared : GroupJob) → a ≡ found shared → IsCalm env cache (set_defaults shared))
    → (sync_found env a cache []).result ≢ panic
unfolding sync_found
sync_found_calm env (found shared) cache law calm =
    sync_any_calm env (set_defaults shared) cache law (calm shared refl)
sync_found_calm env (failed e) cache law calm = go (is_not_found e)
  where
    go :
        (b : Bool)
        → ◌≢◌ {A = Outcome (Unit {0})} (if b then ok tt else err (wrap "obtaining job" e)) panic
    go true = ok_calm tt
    go false = err_calm _

-- Let ValidateNonnegativeField be as documented, let the pods' lister fail only for pods that are missing,
-- and let a PodGroup be made, if there is a gang scheduler, for the jobs of the cache with their defaults.
-- Then the sync of a key does not panic, whatever the caches hold and the API server answers, and whether
-- its job is valid or not.
pub sync_handler_calm :
    (env : Env) (key : String) (cache : Cache)
    → NonnegativeLaw env.machinery
    → ((namespace name : String) (shared : GroupJob)
        → cache.group_jobs namespace name ≡ found shared
        → IsCalm env cache (set_defaults shared))
    → (sync_handler env key cache []).result ≢ panic
unfolding sync_handler
sync_handler_calm env key cache law calm = go (env.split_key key)
  where
    go :
        (parts : Option (String × String))
        → (elim parts as (λ _. Synced) [
          | none ↦ record { result = ok tt; cache = cache; trace = [] }
          | some (namespace, name) ↦ sync_found env (cache.group_jobs namespace name) cache []
        ]).result
          ≢ panic
    go none = ok_calm tt
    go (some (namespace, name)) =
        sync_found_calm env (cache.group_jobs namespace name) cache law (calm namespace name)
