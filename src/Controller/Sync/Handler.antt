-- ===== src/Controller/Sync/Handler.antt =====
-- `syncHandler` from its key: the job is taken from the cache, copied, given its defaults, and synced.
use mpi_operator.Prelude.{String, none, some, List}
use mpi_operator.Prelude.Tests.{if◌then◌else◌}
use mpi_operator.Outcome.{Outcome, ok, err, is_not_found, wrap}
use mpi_operator.Api.{GroupJob}
use mpi_operator.Defaults.{set_defaults}
use mpi_operator.Controller.World.{Answer, found, failed, Cache, Env, Action}
use mpi_operator.Controller.Sync.{sync_job}

-- What a sync leaves: its result, the caches, the calls.
pub record Synced : Type 0 where
  pub result : Outcome (Unit {0})
  pub cache : Cache
  pub trace : List Action

module _ (env : Env) where
  unfoldable pub sync_found : Answer GroupJob → Cache → List Action → Synced
  sync_found (found shared) cache trace =
      let (r, s) =
        sync_job env (record { job = set_defaults shared; cache = cache; trace = trace }) in
      record { result = r; cache = s.cache; trace = s.trace }
  sync_found (failed e) cache trace = record {
    result = if is_not_found e then ok tt else err (wrap "obtaining job" e);
    cache = cache;
    trace = trace;
  }

  unfoldable pub sync_handler : String → Cache → List Action → Synced
  unfolding sync_found
  sync_handler key cache trace = elim (env.split_key key) [
    | none ↦ record { result = ok tt; cache = cache; trace = trace }
    | some (namespace, name) ↦ sync_found (cache.group_jobs namespace name) cache trace
  ]
