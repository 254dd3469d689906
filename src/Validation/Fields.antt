-- ===== src/Validation/Fields.antt =====
-- The single tests of the validator, each against the field that it reads.
use mpi_operator.Prelude.{
  String, ℕ, zero, suc, ◌≡◌, refl, ◌≢◌, ◌↔◌, sym, subst, some-injective, Bool, true, false, not,
  Option, none, some, List, [], ◌∷◌, ◌++◌, arith, ◌==◌, eq_iff,
}
use mpi_operator.Prelude.Tests.{is_empty}
use mpi_operator.Prelude.Int.{ℤ, pos, negsuc}
use mpi_operator.Api.{
  ReplicaSpec, Container, clean_pod_policy_none, clean_pod_policy_running, clean_pod_policy_all,
  open_mpi, intel, mpich, restart_policy_never, restart_policy_on_failure, multi_kueue_controller,
  kubeflow_job_controller,
}
use mpi_operator.Machinery.{FieldError, PathStep, not_supported}
use mpi_operator.Validation.{
  has, valid_clean_policies, valid_mpi_implementations, valid_restart_policies, valid_managed_by,
  error_if, error_at, some_and, is_one, is_not_positive, replicas_errors, template_errors,
  clean_pod_policy_errors, managed_by_errors,
}
use mpi_operator.Validation.Spec.{
  IsRestartPolicy, IsCleanPodPolicy, IsMpiImplementation, IsManagedBy, IsPodSpec,
}

pub append_nil_iff : (xs ys : List FieldError) → (xs ++ ys ≡ []) ↔ ((xs ≡ []) × (ys ≡ []))
append_nil_iff [] ys = (λ h. (refl, h), λ h. h.1)
append_nil_iff (x ∷ xs) ys = (λ h. cc, λ h. cc (h.0))

error_if_nil : (b : Bool) (e : FieldError) → (error_if b e ≡ []) ↔ (b ≡ false)
error_if_nil true e = ground arith
error_if_nil false e = ground arith

restart_iff : (s : String) → (not (has valid_restart_policies s) ≡ false) ↔ IsRestartPolicy s
unfolding has
restart_iff s = ground (arith, eq_iff s restart_policy_never, eq_iff s restart_policy_on_failure)

clean_iff : (s : String) → (not (has valid_clean_policies s) ≡ false) ↔ IsCleanPodPolicy s
unfolding has
clean_iff s = ground (
  arith,
  eq_iff s clean_pod_policy_none,
  eq_iff s clean_pod_policy_running,
  eq_iff s clean_pod_policy_all,
)

mpi_iff : (s : String) → (not (has valid_mpi_implementations s) ≡ false) ↔ IsMpiImplementation s
unfolding has
mpi_iff s = ground (arith, eq_iff s open_mpi, eq_iff s intel, eq_iff s mpich)

containers_iff : (cs : List Container) → (is_empty cs ≡ false) ↔ (cs ≢ [])
containers_iff [] = (λ h. cc, λ h. absurd (h refl))
containers_iff (c ∷ cs) = (λ h e. cc, λ h. refl)

pub manager_iff :
    (o : Option String) (path : List PathStep) → (managed_by_errors o path ≡ []) ↔ IsManagedBy o
unfolding managed_by_errors
manager_iff none path = ground arith
manager_iff (some s) path = ground (
  arith,
  error_if_nil (not (has valid_managed_by s)) (error_at not_supported path "managedBy"),
  eq_iff s multi_kueue_controller,
  eq_iff s kubeflow_job_controller,
)

pub policy_iff :
    (o : Option String) (path : List PathStep)
    → (clean_pod_policy_errors o path ≡ []) ↔ ((s : String) × (o ≡ some s) × IsCleanPodPolicy s)
policy_iff none path = unfold clean_pod_policy_errors in (λ h. cc, λ h. cc (h.1))
policy_iff (some s) path =
    unfold clean_pod_policy_errors in
    (
      λ h. (s, refl, (clean_iff s).0 ((error_if_nil _ _).0 h)),
      λ (t, e, is).
          (error_if_nil _ _).1
            ((clean_iff s).1 (subst IsCleanPodPolicy (sym (some-injective _ _ e)) is)),
    )

pub template_iff :
    (r : ReplicaSpec) (path : List PathStep) → (template_errors r path ≡ []) ↔ IsPodSpec r
template_iff r path =
    unfold template_errors in
    (
      λ h.
          let (a, b) = (append_nil_iff _ _).0 h in
          record {
            restart = (restart_iff r.restart_policy).0 ((error_if_nil _ _).0 a);
            containers = (containers_iff r.template.spec.containers).0 ((error_if_nil _ _).0 b);
          },
      λ h. (append_nil_iff _ _).1 (
        (error_if_nil _ _).1 ((restart_iff r.restart_policy).1 h.restart),
        (error_if_nil _ _).1 ((containers_iff r.template.spec.containers).1 h.containers),
      ),
    )

-- The two tests of the number of launchers.
pub one_iff :
    (o : Option ℤ) (path : List PathStep) (e : FieldError)
    → ((replicas_errors o path ≡ []) × (error_if (some_and (λ z. not (is_one z)) o) e ≡ []))
      ↔ (o ≡ some (pos 1))
unfolding replicas_errors
one_iff none path e = ground arith
one_iff (some (pos n)) path e = ground arith
one_iff (some (negsuc n)) path e = ground arith

-- The two tests of the number of workers.
pub positive_iff :
    (o : Option ℤ) (path : List PathStep) (e : FieldError)
    → ((replicas_errors o path ≡ []) × (error_if (some_and is_not_positive o) e ≡ []))
      ↔ ((n : ℕ) × (o ≡ some (pos (suc n))))
positive_iff none path e = unfold replicas_errors in (λ h. cc (h.0), λ h. cc (h.1))
positive_iff (some (pos zero)) path e =
    unfold replicas_errors in (λ h. cc (h.1), λ h. ground (arith, h.1))
positive_iff (some (pos (suc n))) path e =
    unfold replicas_errors in (λ h. (n, refl), λ h. (refl, ground arith))
positive_iff (some (negsuc n)) path e =
    unfold replicas_errors in (λ h. cc (h.1), λ h. ground (arith, h.1))

pub no_reasons_iff :
    (reasons : List String) (e : FieldError)
    → (error_if (not (is_empty reasons)) e ≡ []) ↔ (reasons ≡ [])
no_reasons_iff [] e = ground arith
no_reasons_iff (r ∷ rs) e = (λ h. cc, λ h. cc)

pub mpi_errors_iff :
    (s : String) (e : FieldError)
    → (error_if (not (has valid_mpi_implementations s)) e ≡ []) ↔ IsMpiImplementation s
mpi_errors_iff s e =
    (λ h. (mpi_iff s).0 ((error_if_nil _ e).0 h), λ h. (error_if_nil _ e).1 ((mpi_iff s).1 h))

pub ssh_iff : (s : String) (e : FieldError) → (error_if (s == "") e ≡ []) ↔ (s ≢ "")
ssh_iff s e = ground (arith, error_if_nil (s == "") e, eq_iff s "")
