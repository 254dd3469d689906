-- ===== src/Controller/Sync/Suspension.antt =====
-- The launcher of a job whose suspension has changed.
use mpi_operator.Prelude.{◌≡◌, refl, Bool, true, false, some, ◌∷◌, eq_iff}
use mpi_operator.Api.{Job}
use mpi_operator.Outcome.{Outcome, ok, err, panic}
use mpi_operator.Names.{is_group_job_suspended, is_job_suspended, launcher_name}
use mpi_operator.Controller.World.{found, Env, State, update_job, ◌>>=◌, to_outcome, continue, pure}
use mpi_operator.Controller.Sync.{same_bool, store_launcher, change_launcher, align_suspension}

same_twice : (b : Bool) → same_bool b b ≡ true
same_twice true = refl
same_twice false = refl

-- A launcher whose suspension is the job's is left alone: no call is made.
aligned_launcher_stays :
    (env : Env) (cached : Bool) (l : Job) (s : State)
    → is_job_suspended l ≡ is_group_job_suspended s.job
    → align_suspension env cached (some l) s ≡ (ok (some l), s)
unfolding align_suspension
aligned_launcher_stays env cached l s e =
    rw (align_suspension, e) (rw (same_twice (is_group_job_suspended s.job)) refl)

continue_state :
    {A B : Type 0} (r : Outcome A) (b : B) (t : State) → (continue r (λ a. pure b) t).1 ≡ t
continue_state (ok a) b t = refl
continue_state (err e) b t = refl
continue_state panic b t = refl

-- The launcher as the update is to make it.
abbrev pub realigned : Job → State → Job
realigned l s = record l { suspend = some (is_group_job_suspended s.job) }

-- The state that the update leaves, whatever the API server answers.
abbrev after_update : Job → State → State
after_update l s =
    let t = store_launcher true (realigned l s) s in
    record t { trace = update_job (realigned l s) ∷ t.trace }

change_state :
    (env : Env) (l : Job) (s : State)
    → same_bool (is_group_job_suspended s.job) (is_job_suspended l) ≡ false
    → (align_suspension env true (some l) s).1 ≡ after_update l s
unfolding align_suspension change_launcher ◌>>=◌
change_state env l s e =
    rw (align_suspension, e)
      (continue_state (to_outcome (env.client.on_job s.trace (update_job (realigned l s))))
        (some (realigned l s)) (after_update l s))

realigned_suspended :
    (l : Job) (s : State) → is_job_suspended (realigned l s) ≡ is_group_job_suspended s.job
unfolding is_job_suspended
realigned_suspended l s = refl

-- When the launcher of the cache is not suspended as the job is, one call is made, to update it. Whatever
-- the API server answers, also an error, the launcher of the cache is changed, and a sync that finds it
-- there makes no further call.
pub align_suspension_once :
    (env : Env) (l : Job) (s : State)
    → same_bool (is_group_job_suspended s.job) (is_job_suspended l) ≡ false
    → ((align_suspension env true (some l) s).1.trace ≡ update_job (realigned l s) ∷ s.trace)
      × ((align_suspension env true (some l) s).1.cache.jobs s.job.meta.namespace
            (launcher_name s.job)
          ≡ found (realigned l s))
      × (align_suspension env true (some (realigned l s)) (align_suspension env true (some l) s).1
          ≡ (ok (some (realigned l s)), (align_suspension env true (some l) s).1))
unfolding store_launcher
align_suspension_once env l s e = rw (change_state env l s e) (
  refl,
  rw ((eq_iff s.job.meta.namespace s.job.meta.namespace).1 refl)
      (rw ((eq_iff (launcher_name s.job) (launcher_name s.job)).1 refl) refl),
  aligned_launcher_stays env true (realigned l s) (after_update l s) (realigned_suspended l s),
)
