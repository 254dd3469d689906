-- ===== src/Validation/Laws.antt =====
-- The validator reports nothing exactly for the valid jobs.
use text.Mathlib.TextLemmas.{append_assoc}
use mpi_operator.Prelude.Decimal.{itoa}
use mpi_operator.Prelude.Tests.{◌⧺◌}
use mpi_operator.Prelude.{
  ap, String, ℕ, suc, ◌≡◌, refl, ◌↔◌, inl, inr, sym, subst, some-injective, Option, none, some,
  List, [], arith,
}
use mpi_operator.Prelude.Int.{ℤ, pos, negsuc, ◌-ℤ◌}
use mpi_operator.Prelude.Assoc.{Assoc}
use mpi_operator.Api.{
  GroupJob, ReplicaSpec, RunPolicy, spec_of, worker_spec, worker_suffix, replica_type_launcher,
  replica_type_worker,
}
use mpi_operator.Names.{worker_name}
use mpi_operator.Machinery.{Machinery, PathStep, NonnegativeLaw}
use mpi_operator.Validation.{
  slots_errors, validate_replica_spec, validate_launcher_replica_spec, validate_worker_replica_spec,
  validate_replica_specs, validate_group_job_name, maximum_pod_hostname, nonnegative_or_nil,
  validate_run_policy, validate_group_job_spec, validate_group_job,
}
use mpi_operator.Validation.Spec.{
  IsNonnegativeOrNil, IsPodSpec, IsLauncher, IsWorker, IsRunPolicy, IsLastIndex, IsValid,
}
use mpi_operator.Validation.Fields.{
  append_nil_iff, no_reasons_iff, mpi_errors_iff, ssh_iff, manager_iff, policy_iff, template_iff,
  one_iff, positive_iff,
}

IsLauncher-iff :
    (o : Option ReplicaSpec) (path : List PathStep)
    → (validate_launcher_replica_spec o path ≡ []) ↔ IsLauncher o
IsLauncher-iff none path = unfold validate_launcher_replica_spec in (λ h. cc, λ h. cc (h.1))
IsLauncher-iff (some r) path =
    unfold validate_launcher_replica_spec validate_replica_spec in
    (
      λ h.
          let (both, count) = (append_nil_iff _ _).0 h in
          let (given, template) = (append_nil_iff _ _).0 both in
          (r, refl, (one_iff r.replicas path _).0 (given, count), (template_iff r path).0 template),
      λ (q, e, one, is).
          let same : q ≡ r = sym (some-injective _ _ e) in
          let (given, count) =
            (one_iff r.replicas path _).1 (subst (λ x. x.replicas ≡ some (pos 1)) same one) in
          (append_nil_iff _ _).1 (
            (append_nil_iff _ _).1 (given, (template_iff r path).1 (subst IsPodSpec same is)),
            count,
          ),
    )

IsWorker-iff :
    (o : Option ReplicaSpec) (path : List PathStep)
    → (validate_worker_replica_spec o path ≡ []) ↔ IsWorker o
IsWorker-iff none path = unfold validate_worker_replica_spec in (λ h. inl refl, λ h. refl)
IsWorker-iff (some r) path =
    unfold validate_worker_replica_spec validate_replica_spec in
    (
      λ h.
          let (both, count) = (append_nil_iff _ _).0 h in
          let (given, template) = (append_nil_iff _ _).0 both in
          let (n, e) = (positive_iff r.replicas path _).0 (given, count) in
          inr (r, n, refl, e, (template_iff r path).0 template),
      λ h. elim h [
        | inl e ↦ cc
        | inr (q, n, e, some_workers, is) ↦
            let same : q ≡ r = sym (some-injective _ _ e) in
            let (given, count) =
              (positive_iff r.replicas path _).1
                (n, subst (λ x. x.replicas ≡ some (pos (suc n))) same some_workers) in
            (append_nil_iff _ _).1 (
              (append_nil_iff _ _).1 (given, (template_iff r path).1 (subst IsPodSpec same is)),
              count,
            )
      ],
    )

replica_specs_iff :
    (o : Option (Assoc ReplicaSpec)) (path : List PathStep)
    → (validate_replica_specs o path ≡ [])
      ↔ (IsLauncher (spec_of o replica_type_launcher) × IsWorker (spec_of o replica_type_worker))
replica_specs_iff none path = unfold validate_replica_specs in (λ h. cc, λ h. cc (h.0.1))
replica_specs_iff (some specs) path =
    unfold validate_replica_specs in
    (
      λ h.
          let (l, w) = (append_nil_iff _ _).0 h in
          ((IsLauncher-iff _ _).0 l, (IsWorker-iff _ _).0 w),
      λ h. (append_nil_iff _ _).1 ((IsLauncher-iff _ _).1 h.0, (IsWorker-iff _ _).1 h.1),
    )

suffix_split : (t : String) → ("-worker-" ⧺ t) ≡ (worker_suffix ⧺ "-" ⧺ t)
suffix_split t = append_assoc worker_suffix "-" t

one_less : (n : ℕ) → (pos (suc n) -ℤ pos 1) ≡ pos n
one_less n = ground arith

-- The validator's name of a pod is that of the last worker.
hostname_of_last :
    (j : GroupJob) (n : ℕ)
    → IsLastIndex (worker_spec j) n
    → maximum_pod_hostname j ≡ worker_name j n
unfolding maximum_pod_hostname worker_name
hostname_of_last j n (inl (e, is)) =
    rw e (rw is (ap (λ t. j.meta.name ⧺ t) (suffix_split (itoa (pos 0)))))
hostname_of_last j n (inr (r, e, count)) =
    rw e (rw count (rw (one_less n) (ap (λ t. j.meta.name ⧺ t) (suffix_split (itoa (pos n))))))

last_of_worker : (o : Option ReplicaSpec) → IsWorker o → (n : ℕ) × IsLastIndex o n
last_of_worker o (inl e) = (0, inl (e, refl))
last_of_worker o (inr (r, n, e, count, is)) = (n, inr (r, e, count))

module _ (m : Machinery) (law : NonnegativeLaw m) where
  nonnegative_iff :
      (o : Option ℤ) (path : List PathStep)
      → (nonnegative_or_nil m o path ≡ []) ↔ IsNonnegativeOrNil o
  nonnegative_iff none path = (λ h. inl refl, λ h. refl)
  nonnegative_iff (some (pos n)) path = (λ h. inr (n, refl), λ h. (law (pos n) path).1 refl)
  nonnegative_iff (some (negsuc n)) path =
      (λ h. cc ((law (negsuc n) path).0 h), λ h. ground (arith, h))

  slots_iff :
      (o : Option ℤ) (path : List PathStep)
      → (slots_errors m o path ≡ []) ↔ ((n : ℕ) × (o ≡ some (pos n)))
  slots_iff none path = unfold slots_errors in (λ h. cc, λ h. cc (h.1))
  slots_iff (some (pos n)) path =
      unfold slots_errors in (λ h. (n, refl), λ h. (law (pos n) _).1 refl)
  slots_iff (some (negsuc n)) path =
      unfold slots_errors in (λ h. cc ((law (negsuc n) _).0 h), λ h. cc (h.1))

  run_policy_iff :
      (p : RunPolicy) (path : List PathStep) → (validate_run_policy m p path ≡ []) ↔ IsRunPolicy p
  run_policy_iff p path =
      unfold validate_run_policy in
      (
        λ h.
            let (a, r1) = (append_nil_iff _ _).0 h in
            let (b, r2) = (append_nil_iff _ _).0 r1 in
            let (c, r3) = (append_nil_iff _ _).0 r2 in
            let (d, e) = (append_nil_iff _ _).0 r3 in
            record {
              clean = (policy_iff _ path).0 a;
              ttl = (nonnegative_iff _ _).0 b;
              deadline = (nonnegative_iff _ _).0 c;
              backoff = (nonnegative_iff _ _).0 d;
              manager = (manager_iff _ path).0 e;
            },
        λ h. (append_nil_iff _ _).1 (
          (policy_iff _ path).1 h.clean,
          (append_nil_iff _ _).1 (
            (nonnegative_iff _ _).1 h.ttl,
            (append_nil_iff _ _).1 (
              (nonnegative_iff _ _).1 h.deadline,
              (append_nil_iff _ _).1
                  ((nonnegative_iff _ _).1 h.backoff, (manager_iff _ path).1 h.manager),
            ),
          ),
        ),
      )

  name_iff :
      (j : GroupJob)
      → (validate_group_job_name m j ≡ []) ↔ (m.is_dns1035_label (maximum_pod_hostname j) ≡ [])
  name_iff j = unfold validate_group_job_name in no_reasons_iff _ _

  pub validate_group_job_iff : (j : GroupJob) → (validate_group_job m j ≡ []) ↔ IsValid m j
  validate_group_job_iff j =
      unfold validate_group_job validate_group_job_spec in
      (
        λ h.
            let (a, r1) = (append_nil_iff _ _).0 h in
            let (b, r2) = (append_nil_iff _ _).0 r1 in
            let (c, r3) = (append_nil_iff _ _).0 r2 in
            let (d, r4) = (append_nil_iff _ _).0 r3 in
            let (e, f) = (append_nil_iff _ _).0 r4 in
            let (l, w) = (replica_specs_iff _ _).0 b in
            record {
              host_name =
                  let (n, last) = last_of_worker _ w in
                  (
                    n,
                    last,
                    subst (λ t. m.is_dns1035_label t ≡ []) (hostname_of_last j n last)
                        ((name_iff j).0 a),
                  );
              launcher = l;
              worker = w;
              slots = (slots_iff _ _).0 c;
              run_policy = (run_policy_iff _ _).0 d;
              ssh_path = (ssh_iff _ _).0 e;
              mpi = (mpi_errors_iff _ _).0 f;
            },
        λ h. (append_nil_iff _ _).1 (
          (name_iff j).1 (
              let (n, last, fits) = h.host_name in
              subst (λ t. m.is_dns1035_label t ≡ []) (sym (hostname_of_last j n last)) fits),
          (append_nil_iff _ _).1 (
            (replica_specs_iff _ _).1 (h.launcher, h.worker),
            (append_nil_iff _ _).1 (
              (slots_iff _ _).1 h.slots,
              (append_nil_iff _ _).1 (
                (run_policy_iff _ _).1 h.run_policy,
                (append_nil_iff _ _).1 ((ssh_iff _ _).1 h.ssh_path, (mpi_errors_iff _ _).1 h.mpi),
              ),
            ),
          ),
        ),
      )
