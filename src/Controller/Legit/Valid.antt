-- ===== src/Controller/Legit/Valid.antt =====
-- What a sync may rely on for a valid job.
use mpi_operator.Prelude.{
  ◌≢◌, refl, sym, ap, subst, ◌∙◌, inl, inr, some-injective, String, ℕ, suc, ◌≡◌, false, some, List,
  [], ◌∷◌,
}
use mpi_operator.Prelude.Int.{pos}
use mpi_operator.Build.Total.{HasContainer, new_worker-Succeeds}
use mpi_operator.Api.{
  PodSpec, Container, spec_of, replica_type_worker, GroupJob, Pod, ReplicaSpec, worker_spec,
}
use mpi_operator.Outcome.{deref, Outcome, panic, Succeeds}
use mpi_operator.Names.{is_group_job_suspended}
use mpi_operator.Build.Template.{new_worker}
use mpi_operator.Controller.World.{Answer, Env, State}
use mpi_operator.Controller.Keeps.{deref_calm}
use mpi_operator.Controller.Legit.{Calm, Inv}

-- The job is not suspended, and it has workers.
abbrev pub IsAtWork : GroupJob → Type 0
IsAtWork j = (is_group_job_suspended j ≡ false) × (r : ReplicaSpec) × (worker_spec j ≡ some r)

pub container_there : (s : PodSpec) → s.containers ≢ [] → HasContainer s
container_there s h = go s.containers refl h
  where
    go :
        (l : List Container)
        → s.containers ≡ l
        → l ≢ []
        → (c : Container) × (cs : List Container) × (s.containers ≡ c ∷ cs)
    go [] e k = elim (k refl) [ ]
    go (c ∷ cs) e k = (c, cs, e)

pub Succeeds-calm : {A : Type 0} (m : Outcome A) → Succeeds m → m ≢ panic
Succeeds-calm m (a, e) p = cc (e, p)

module _ {env : Env} {j : GroupJob} {pods : String → String → Answer Pod} where
  -- What validation says of the workers.
  valid_workers :
      (r : ReplicaSpec)
      → Calm env j pods
      → worker_spec j ≡ some r
      → ((n : ℕ) × (r.replicas ≡ some (pos (suc n)))) × HasContainer r.template.spec
  valid_workers r n e = elim n.valid.worker [
    | inl missing ↦ cc (missing, e)
    | inr (r', k, e', replicas, pod) ↦
        let same : r' ≡ r = some-injective _ _ (sym e' ∙ e) in
        (
          (k, ap (λ x. x.replicas) (sym same) ∙ replicas),
          subst (λ x. HasContainer x.template.spec) same
              (container_there r'.template.spec pod.containers),
        )
  ]

  pub replicas_there :
      (r : ReplicaSpec) → Calm env j pods → worker_spec j ≡ some r → deref r.replicas ≢ panic
  replicas_there r n e =
      let ((k, replicas), _) = valid_workers r n e in deref_calm r.replicas (pos (suc k)) replicas

pub workers_of_spec : (j k : GroupJob) → k.spec ≡ j.spec → worker_spec j ≡ worker_spec k
workers_of_spec j k e = ap (λ x. spec_of x.replica_specs replica_type_worker) (sym e)

module _ {env : Env} {j : GroupJob} {pods : String → String → Answer Pod} {R : List String} where
  pub worker_made :
      (s : State) (i : ℕ)
      → Calm env j pods
      → IsAtWork j
      → Inv env j pods R s
      → new_worker env.machinery env.gang s.job i ≢ panic
  worker_made s i n (live, r, e) h = Succeeds-calm _ (
      new_worker-Succeeds env.machinery env.gang s.job i r
        (sym (workers_of_spec j s.job h.same_spec) ∙ e) (valid_workers r n e).1)

  pub policy_there :
      {s : State}
      → Calm env j pods
      → Inv env j pods R s
      → deref s.job.spec.run_policy.clean_pod_policy ≢ panic
  policy_there n h =
      let (policy, e, _) = n.valid.run_policy.clean in
      deref_calm _ policy (ap (λ x. x.run_policy.clean_pod_policy) h.same_spec ∙ e)
