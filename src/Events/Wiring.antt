-- ===== src/Events/Wiring.antt =====
-- The event handlers that NewGroupJobControllerWithClock registers, the caches that Run waits for, and
-- the keys that they put on the queue.
use mpi_operator.Prelude.{
  String, ℕ, arith, ◌≡◌, ◌⊎◌, inl, inr, Bool, true, false, not, ◌&&◌, Option, none, some, List, [],
  ◌∷◌, ◌++◌,
}
use mpi_operator.Prelude.Tests.{is_nil, if◌then◌else◌, Bool-cases}
use mpi_operator.Api.{GroupJob, ObjectMeta}
use mpi_operator.Outcome.{Outcome, ok, err, failure}
use mpi_operator.PodGroup.Control.{GangScheduler}
use mpi_operator.Controller.World.{Cache, Env}
use mpi_operator.Events.{
  Notice, Effect, ignore, enqueue_group_job, add_group_job, handle_object, handle_object_update,
}

-- The informers.
pub data Source : Type 0 where
  config_maps secrets services jobs pods pod_groups priority_classes group_jobs : Source

-- What an informer reports.
pub data Change : Type 0 where
  job_added job_updated : GroupJob → Change
  job_deleted : Change
  added deleted : Source → Notice → Change
  updated : Source → (old new : String × ObjectMeta) → Change

-- The informers whose objects are handled: the last two are used with a gang scheduler.
abbrev pub is_handled : Option GangScheduler → Source → Bool
is_handled gang pod_groups = not (is_nil gang)
is_handled gang priority_classes = not (is_nil gang)
is_handled gang group_jobs = false
is_handled gang _ = true

-- The handler of a change. A GroupJob has none for its deletion.
unfoldable pub dispatch : Env → Cache → Change → Outcome Effect
dispatch env cache (job_added j) = (add_group_job env j).1
dispatch env cache (job_updated j) = enqueue_group_job env j
dispatch env cache job_deleted = ok ignore
dispatch env cache (added s n) =
    if is_handled env.gang s then handle_object env cache n else ok ignore
dispatch env cache (deleted s n) =
    if is_handled env.gang s then handle_object env cache n else ok ignore
dispatch env cache (updated s old new) =
    if is_handled env.gang s then handle_object_update env cache old new else ok ignore

-- The list `synced` of `Run`.
unfoldable pub synced_before_start : Option GangScheduler → List Source
synced_before_start gang =
    (config_maps ∷ secrets ∷ services ∷ jobs ∷ pods ∷ group_jobs ∷ [])
    ++ (if is_nil gang then [] else pod_groups ∷ priority_classes ∷ [])

abbrev every : (Source → Bool) → List Source → Bool
every p [] = true
every p (s ∷ ss) = p s && every p ss

-- `Run` up to the start of the workers: their number, once all caches have synced.
unfoldable pub start_workers : Option GangScheduler → (has_synced : Source → Bool) → ℕ → Outcome ℕ
unfolding synced_before_start
start_workers gang has_synced threadiness =
    if every has_synced (synced_before_start gang)
    then ok threadiness
    else err (failure "failed to wait for caches to sync")

every_synced :
    (gang : Option GangScheduler) (has_synced : Source → Bool) (s : Source)
    → every has_synced (synced_before_start gang) ≡ true
    → (s ≡ group_jobs) ⊎ (is_handled gang s ≡ true)
    → has_synced s ≡ true
unfolding synced_before_start
every_synced none p config_maps h w = ground arith
every_synced none p secrets h w = ground arith
every_synced none p services h w = ground arith
every_synced none p jobs h w = ground arith
every_synced none p pods h w = ground arith
every_synced none p pod_groups h (inl e) = cc
every_synced none p pod_groups h (inr e) = cc
every_synced none p priority_classes h (inl e) = cc
every_synced none p priority_classes h (inr e) = cc
every_synced none p group_jobs h w = ground arith
every_synced (some g) p config_maps h w = ground arith
every_synced (some g) p secrets h w = ground arith
every_synced (some g) p services h w = ground arith
every_synced (some g) p jobs h w = ground arith
every_synced (some g) p pods h w = ground arith
every_synced (some g) p pod_groups h w = ground arith
every_synced (some g) p priority_classes h w = ground arith
every_synced (some g) p group_jobs h w = ground arith

-- Workers are started only when the cache of the jobs and the caches of all informers that have handlers
-- have synced.
pub start_workers_synced :
    (gang : Option GangScheduler) (has_synced : Source → Bool) (threadiness workers : ℕ)
    (s : Source)
    → start_workers gang has_synced threadiness ≡ ok workers
    → (s ≡ group_jobs) ⊎ (is_handled gang s ≡ true)
    → has_synced s ≡ true
unfolding start_workers
start_workers_synced gang has_synced threadiness workers s h watched =
    elim (Bool-cases (every has_synced (synced_before_start gang))) [
      | inl all ↦ every_synced gang has_synced s all watched
      | inr some_not ↦ cc (rw some_not at h)
    ]
