-- ===== src/Controller/Workers/Deletion.antt =====
-- What one round of the loop of `deleteWorkerPods` does.
use mpi_operator.Prelude.{
  String, ◌≡◌, refl, sym, ap, ◌∙◌, inl, inr, Bool, true, false, not, ◌&&◌, Option, none, some, List,
  ◌∷◌, ◌==◌, eq_iff,
}
use mpi_operator.Prelude.Tests.{if◌then◌else◌, Bool-cases}
use mpi_operator.Api.{Pod, clean_pod_policy_running}
use mpi_operator.Outcome.{Error, is_not_found, Outcome, ok, deref}
use mpi_operator.Controller.World.{
  Answer, found, failed, Env, State, Sync, Action, delete_pod, continue, ◌>>=◌, refuse, pure, raise,
}
use mpi_operator.Controller.Resources.{owned_or_refuse, is_pod_running, is_pod_pending}
use mpi_operator.Controller.Workers.{
  delete_worker, delete_by_policy, delete_checked, delete_worker_of_answer,
}

-- The call has been made.
pub data IsCall (a : Action) : List Action → Type 0 where
  last : {trace : List Action} → IsCall a (a ∷ trace)
  before : {b : Action} {trace : List Action} → IsCall a trace → IsCall a (b ∷ trace)

-- Why a worker's pod needs no deletion, by the cache and the policy: it is missing, or the policy is
-- Running and the pod neither runs nor will run.
pub data IsSpared (s : State) (name : String) : Type 0 where
  missing :
      (e : Error)
      → s.cache.pods s.job.meta.namespace name ≡ failed e
      → is_not_found e ≡ true
      → IsSpared s name
  finished :
      (p : Pod)
      → s.cache.pods s.job.meta.namespace name ≡ found p
      → s.job.spec.run_policy.clean_pod_policy ≡ some clean_pod_policy_running
      → (is_pod_running p ≡ false) × (is_pod_pending p ≡ false)
      → IsSpared s name

-- The state after the call that deletes a pod.
abbrev pub deleted : String → State → State
deleted name s = record s { trace = delete_pod s.job.meta.namespace name ∷ s.trace }

-- What one round of the loop does where it returns without an error.
pub data OneRound (s : State) (name : String) (t : State) : Type 0 where
  spared : IsSpared s name → t ≡ s → OneRound s name t
  removed : t ≡ deleted name s → OneRound s name t

module _ (env : Env) where
  delete_worker_state : (name : String) (s : State) → (delete_worker env name s).1 ≡ deleted name s
  unfolding delete_worker
  delete_worker_state name s =
      go (env.client.on_delete s.trace (delete_pod s.job.meta.namespace name))
    where
      branch :
          (b : Bool) (e : Error)
          → (if◌then◌else◌ {0} {A = Sync (Unit {0})} b (pure tt) (raise e) (deleted name s)).1
            ≡ deleted name s
      branch true e = refl
      branch false e = refl

      go :
          (a : Answer (Unit {0}))
          → (elim a as (λ _. Outcome (Unit {0}) × State) [
            | found u ↦ pure u (deleted name s)
            | failed e ↦ (if is_not_found e then pure tt else raise e) (deleted name s)
          ]).1
            ≡ deleted name s
      go (found u) = refl
      go (failed e) = branch (is_not_found e) e

  removed-OneRound :
      (name : String) (s t : State) → delete_worker env name s ≡ (ok tt, t) → OneRound s name t
  removed-OneRound name s t h = removed (sym (ap (λ x. x.1) h) ∙ delete_worker_state name s)

  -- The policy is there, since a missing one would be a panic.
  checked-OneRound :
      (name : String) (p : Option Pod) (s t : State)
      → ((policy : String)
          → s.job.spec.run_policy.clean_pod_policy ≡ some policy
          → delete_by_policy env name policy p s ≡ (ok tt, t)
          → OneRound s name t)
      → delete_checked env name p s ≡ (ok tt, t)
      → OneRound s name t
  unfolding delete_checked ◌>>=◌
  checked-OneRound name p s t k h = go s.job.spec.run_policy.clean_pod_policy refl h
    where
      go :
          (o : Option String)
          → s.job.spec.run_policy.clean_pod_policy ≡ o
          → continue (deref o) (λ policy. delete_by_policy env name policy p) s ≡ (ok tt, t)
          → OneRound s name t
      go none e q = cc
      go (some policy) e q = k policy e q

  policy-OneRound :
      (name policy : String) (p : Pod) (s t : State)
      → s.cache.pods s.job.meta.namespace name ≡ found p
      → s.job.spec.run_policy.clean_pod_policy ≡ some policy
      → delete_by_policy env name policy (some p) s ≡ (ok tt, t)
      → OneRound s name t
  unfolding delete_by_policy
  policy-OneRound name policy p s t there policy_is h =
      go (policy == clean_pod_policy_running) (is_pod_running p) (is_pod_pending p) refl refl refl h
    where
      go :
          (a b c : Bool)
          → (policy == clean_pod_policy_running) ≡ a
          → is_pod_running p ≡ b
          → is_pod_pending p ≡ c
          → (if a && (not b && not c) then pure tt else delete_worker env name) s ≡ (ok tt, t)
          → OneRound s name t
      go true false false e f g q =
          spared
            (finished p there (policy_is ∙ ap some ((eq_iff policy clean_pod_policy_running).0 e))
              (f, g))
            (sym (ap (λ x. x.1) q))
      go true false true e f g q = removed-OneRound name s t q
      go true true c e f g q = removed-OneRound name s t q
      go false b c e f g q = removed-OneRound name s t q

  pub answer-OneRound :
      (name : String) (s t : State) (a : Answer Pod)
      → s.cache.pods s.job.meta.namespace name ≡ a
      → delete_worker_of_answer env name a s ≡ (ok tt, t)
      → OneRound s name t
  unfolding delete_worker_of_answer owned_or_refuse refuse delete_by_policy ◌>>=◌
  answer-OneRound name s t (found p) e h =
      elim (Bool-cases (env.machinery.is_controlled_by p.meta s.job.meta)) [
        | inl ours ↦
            checked-OneRound name (some p) s t
              (λ policy f q. policy-OneRound name policy p s t e f q) (rw ours at h)
        | inr foreign ↦ cc (rw foreign at h)
      ]
  answer-OneRound name s t (failed x) e h = elim (Bool-cases (is_not_found x)) [
    | inl gone ↦ spared (missing x e gone) (sym (ap (λ y. y.1) (rw gone at h)))
    | inr other ↦
        checked-OneRound name none s t
          (λ policy f q. elim (Bool-cases (policy == clean_pod_policy_running)) [
            | inl running ↦ cc (rw running at q)
            | inr elsewise ↦ removed-OneRound name s t (rw elsewise at q)
          ])
          (rw other at h)
  ]
