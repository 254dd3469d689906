-- ===== src/Controller/Legit.antt =====
-- Which calls a sync may make for a job, and the invariant that all its calls are such.
pub mod Resources
pub mod PodGroups
pub mod Roles
pub mod Valid
pub mod Workers
pub mod Deletion
pub mod Ensure
pub mod Conditions
pub mod Update
pub mod Handler
pub mod Panics
use mpi_operator.Prelude.{
  String, ◌≡◌, ◌≢◌, refl, ap, sym, subst, ◌∙◌, Bool, true, false, List, [], ◌∷◌, Option, none, some,
}
use mpi_operator.Prelude.Tests.{All}
use mpi_operator.Api.{GroupJob, JobStatus, ReplicaStatus, Pod, ObjectMeta}
use mpi_operator.Outcome.{Error, is_not_found, Outcome, ok, panic, deref, Yields}
use mpi_operator.Prelude.Assoc.{Assoc, lookup}
use mpi_operator.Status.{statuses_or_empty}
use mpi_operator.Validation.Spec.{IsValid}
use mpi_operator.PodGroup.Control.{GangScheduler, new_pod_group}
use mpi_operator.Names.{is_group_job_suspended}
use mpi_operator.Controller.World.{
  Answer, found, failed, Env, State, Sync, Action, EventType, create_pod, delete_pod,
  create_service, update_service, create_config_map, update_config_map, create_secret,
  update_secret, create_job, update_job, create_pod_group, update_pod_group, delete_pod_group,
  update_status, event, count_created, count_succeeded, count_failed, set_job_info, perform, emit,
  to_outcome, modify_job,
}
use mpi_operator.Build.Owned.{IsOwnedBy}
use mpi_operator.Controller.Keeps.{Keeps, Ends, ok_calm, to_outcome_calm}

abbrev pub Controls : Env → GroupJob → ObjectMeta → Type 0
Controls env j meta = env.machinery.is_controlled_by meta j.meta ≡ true

-- Pods are created only for a job that is not suspended. Whatever is created is owned by the job. An object that is there is changed only if the
-- job controls it. The status that is written is one of this job, with its spec as it was.
abbrev pub IsLegit : Env → GroupJob → Action → Type 0
IsLegit env j (create_pod p) =
    (is_group_job_suspended j ≡ false) × IsOwnedBy env.machinery j.meta p.meta
IsLegit env j (create_job l) = IsOwnedBy env.machinery j.meta l.meta
IsLegit env j (create_service svc) = IsOwnedBy env.machinery j.meta svc.meta
IsLegit env j (create_config_map cm) = IsOwnedBy env.machinery j.meta cm.meta
IsLegit env j (create_secret secret) = IsOwnedBy env.machinery j.meta secret.meta
IsLegit env j (create_pod_group pg) = IsOwnedBy env.machinery j.meta pg.meta
IsLegit env j (update_service svc) = Controls env j svc.meta
IsLegit env j (update_config_map cm) = Controls env j cm.meta
IsLegit env j (update_secret secret) = Controls env j secret.meta
IsLegit env j (update_pod_group pg) = Controls env j pg.meta
IsLegit env j (update_status k) = (k.meta ≡ j.meta) × (k.spec ≡ j.spec)
IsLegit env j _ = Unit

-- The status of a role is there.
abbrev pub HasRole : Option (Assoc ReplicaStatus) → String → Type 0
HasRole statuses rtype = (r : ReplicaStatus) × (lookup rtype (statuses_or_empty statuses) ≡ some r)

-- What a sync needs for not to panic: the job is valid, a failed `Get` of the pods' lister says that the
-- pod is missing, and with a gang scheduler a PodGroup can be made for the job, whatever its status.
pub record Calm (env : Env) (j : GroupJob) (pods : String → String → Answer Pod) : Type 0 where
  pub valid : IsValid env.machinery j
  pub only_missing :
      (namespace name : String) (e : Error) → pods namespace name ≡ failed e → is_not_found e ≡ true
  pub pod_group_made :
      (g : GangScheduler) (status : JobStatus)
      → env.gang ≡ some g
      → new_pod_group env.machinery env.ops env.priority_classes g (record j { status = status })
        ≢ panic

-- The job that is worked on differs from `j` in its status at most, the pods of the cache are as they
-- were, all calls are legitimate, and the statuses of the roles in `R` are there.
pub record Inv (env : Env) (j : GroupJob) (pods : String → String → Answer Pod) (R : List String)
    (s : State) : Type 0 where
  pub same_meta : s.job.meta ≡ j.meta
  pub same_spec : s.job.spec ≡ j.spec
  pub same_pods : s.cache.pods ≡ pods
  pub legit : All (IsLegit env j) s.trace
  pub roles : All (HasRole s.job.status.replica_statuses) R

module _ {env : Env} {j : GroupJob} {pods : String → String → Answer Pod} {R : List String} where
  pub Inv-record :
      {s : State} (a : Action)
      → IsLegit env j a
      → Inv env j pods R s
      → Inv env j pods R (record s { trace = a ∷ s.trace })
  Inv-record a l h = record {
    same_meta = h.same_meta;
    same_spec = h.same_spec;
    same_pods = h.same_pods;
    legit = (l, h.legit);
    roles = h.roles;
  }

  -- A part of an operation, in the state that it is reached in.
  pub run :
      {A : Type 0} {m : Sync A} {s : State}
      → Keeps (Calm env j pods) (Inv env j pods R) m
      → Inv env j pods R s
      → Ends (Calm env j pods) (Inv env j pods R) (m s)
  run k h = k.preserved _ h

  -- A case of an option or an answer, in a state.
  module _ {A B : Type 0} where
    pub option-Inv :
        (o : Option B) (n : Outcome A × State) (f : B → Outcome A × State)
        → (o ≡ none → Ends (Calm env j pods) (Inv env j pods R) n)
        → ((b : B) → o ≡ some b → Ends (Calm env j pods) (Inv env j pods R) (f b))
        → Ends
            (Calm env j pods)
            (Inv env j pods R)
            (elim o as (λ _. Outcome A × State) [ none ↦ n | some b ↦ f b ])
    option-Inv none n f h k = h refl
    option-Inv (some b) n f h k = k b refl

    pub answer-Inv :
        (a : Answer B) (f : B → Outcome A × State) (g : Error → Outcome A × State)
        → ((b : B) → Ends (Calm env j pods) (Inv env j pods R) (f b))
        → ((e : Error) → Ends (Calm env j pods) (Inv env j pods R) (g e))
        → Ends
            (Calm env j pods)
            (Inv env j pods R)
            (elim a as (λ _. Outcome A × State) [ found b ↦ f b | failed e ↦ g e ])
    answer-Inv (found b) f g h k = h b
    answer-Inv (failed e) f g h k = k e

  pub perform-Keeps :
      {A : Type 0} (a : Action) (answer : List Action → Action → Answer A)
      → IsLegit env j a
      → Keeps (Calm env j pods) (Inv env j pods R) (perform a answer)
  perform-Keeps a answer l = record {
    preserved = λ s h. (Inv-record a l h, λ n. to_outcome_calm (answer s.trace a));
  }

  pub emit-Keeps :
      (a : Action) → IsLegit env j a → Keeps (Calm env j pods) (Inv env j pods R) (emit a)
  emit-Keeps a l = record { preserved = λ s h. (Inv-record a l h, λ n. ok_calm tt) }

  pub event-Keeps :
      {type : EventType} {reason message : String}
      → Keeps (Calm env j pods) (Inv env j pods R) (emit (event type reason message))
  event-Keeps = emit-Keeps _ tt

  -- A change of the status alone that leaves the statuses of the roles.
  pub modify_status-Keeps :
      (f : GroupJob → GroupJob)
      → ((k : GroupJob)
          → ((f k).meta ≡ k.meta)
            × ((f k).spec ≡ k.spec)
            × ((f k).status.replica_statuses ≡ k.status.replica_statuses))
      → Keeps (Calm env j pods) (Inv env j pods R) (modify_job f)
  modify_status-Keeps f same = record {
    preserved = λ s h. (
      record {
        same_meta = (same s.job).0 ∙ h.same_meta;
        same_spec = (same s.job).1 ∙ h.same_spec;
        same_pods = h.same_pods;
        legit = h.legit;
        roles = subst (λ o. All (HasRole o) R) (sym (same s.job).2) h.roles;
      },
      λ n. ok_calm tt,
    );
  }

  -- The job differs from the one that the sync began with in its status.
  pub but_status : {s : State} → Inv env j pods R s → s.job ≡ record j { status = s.job.status }
  but_status {s} h = λ i. record s.job { meta = h.same_meta i; spec = h.same_spec i }

  -- An object that is built from the job in a state is owned by the job that the sync began with.
  pub built-IsOwnedBy :
      {s : State} {o : ObjectMeta}
      → Inv env j pods R s
      → IsOwnedBy env.machinery s.job.meta o
      → IsOwnedBy env.machinery j.meta o
  built-IsOwnedBy {s} {o} h w = subst (λ m. IsOwnedBy env.machinery m o) h.same_meta w

  pub built-Yields :
      {A : Type 0} {s : State} (meta : A → ObjectMeta) (m : Outcome A)
      → Inv env j pods R s
      → Yields (λ a. IsOwnedBy env.machinery s.job.meta (meta a)) m
      → Yields (λ a. IsOwnedBy env.machinery j.meta (meta a)) m
  built-Yields meta m h y =
      subst (λ k. Yields (λ a. IsOwnedBy env.machinery k (meta a)) m) h.same_meta y

  -- The test of the code, read for the job that the sync began with.
  pub tested-Controls :
      {s : State} (meta : ObjectMeta)
      → Inv env j pods R s
      → env.machinery.is_controlled_by meta s.job.meta ≡ true
      → Controls env j meta
  tested-Controls meta h c = ap (λ m. env.machinery.is_controlled_by meta m) (sym h.same_meta) ∙ c
