-- ===== src/Validation/Defaulted.antt =====
-- The validator on the jobs that defaulting gives.
use mpi_operator.Prelude.{
  ℕ, suc, ◌≡◌, ◌≢◌, ap, sym, refl, ◌∙◌, arith, inl, inr, Option, none, some, some-injective, [],
}
use mpi_operator.Prelude.Int.{pos}
use mpi_operator.Api.{GroupJob, ReplicaSpec, worker_spec}
use mpi_operator.Machinery.{Machinery, NonnegativeLaw}
use mpi_operator.Defaults.{set_defaults, set_defaults_type_worker}
use mpi_operator.Defaults.Laws.{map_option, replica_specs-set_defaults}
use mpi_operator.Validation.{validate_group_job}
use mpi_operator.Validation.Spec.{IsWorker}
use mpi_operator.Validation.Laws.{validate_group_job_iff}

default_worker :
    (o : Option ReplicaSpec) (r : ReplicaSpec)
    → o ≡ some r
    → r.replicas ≡ none
    → (d : ReplicaSpec) × (map_option set_defaults_type_worker o ≡ some d)
      × (d.replicas ≡ some (pos 0))
unfolding map_option set_defaults_type_worker
default_worker o r e nil = (set_defaults_type_worker r, rw e refl, rw nil refl)

zero_or_more : (n : ℕ) → some (pos 0) ≢ some (pos (suc n))
zero_or_more n h = ground (arith, h)

no_replicas-IsWorker :
    (o : Option ReplicaSpec) (d : ReplicaSpec)
    → o ≡ some d
    → d.replicas ≡ some (pos 0)
    → IsWorker o
    → ⊥
no_replicas-IsWorker o d e z (inl nil) = cc (e, nil)
no_replicas-IsWorker o d e z (inr (r, n, f, k, p)) =
    zero_or_more n (sym z ∙ ap (λ x. x.replicas) (some-injective d r (sym e ∙ f)) ∙ k)

-- A job that names workers and leaves their number open is rejected once it has its defaults: the
-- default number is 0, and the validator wants at least one.
pub open_worker_replicas_rejected :
    (m : Machinery)
    → NonnegativeLaw m
    → (j : GroupJob) (r : ReplicaSpec) → worker_spec j ≡ some r
    → r.replicas ≡ none
    → validate_group_job m (set_defaults j) ≢ []
open_worker_replicas_rejected m law j r named nil valid =
    let (d, e, z) = default_worker (worker_spec j) r named nil in
    no_replicas-IsWorker (worker_spec (set_defaults j)) d ((replica_specs-set_defaults j).1 ∙ e) z
      ((validate_group_job_iff m law (set_defaults j)).0 valid).worker
