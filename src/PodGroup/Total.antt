-- ===== src/PodGroup/Total.antt =====
-- When the construction of a PodGroup panics, and when it does not.
use mpi_operator.Prelude.{
  ℕ, zero, suc, ◌≡◌, refl, inl, inr, true, Option, none, some, [], ◌∷◌, arith,
}
use mpi_operator.Prelude.Tests.{Bool-cases}
use mpi_operator.Prelude.Int.{ℤ, pos, negsuc, ltb_ℤ}
use mpi_operator.Prelude.Assoc.{Assoc}
use mpi_operator.Api.{GroupJob, ReplicaSpec, replica_type_worker, replica_type_launcher}
use mpi_operator.Machinery.{Machinery}
use mpi_operator.Outcome.{Outcome, ok, err, panic, ◌>>=◌, Succeeds, is_ok, is_ok-Succeeds}
use mpi_operator.PodGroup.Resources.{QuantityOps}
use mpi_operator.PodGroup.Order.{
  PriorityClassLister, ReplicaPriority, rank, collect_order, sort_reverse, count_replicas,
  cut_order, limit_order, cal_pg_min_resource,
}
use mpi_operator.PodGroup.Control.{
  GangScheduler, volcano, scheduler_plugins, scheduling_policy, policy_resources,
  calculate_min_available, specs_or_empty, calculate_pg_min_resources, new_pod_group,
}

-- The maps that a valid job has where it names no other role, in either order of iteration.
pub data IsRoles : Assoc ReplicaSpec → Type 0 where
  launcher_only :
      {l : ReplicaSpec} → l.replicas ≡ some (pos 1) → IsRoles ((replica_type_launcher, l) ∷ [])
  launcher_worker :
      {l w : ReplicaSpec} {n : ℕ}
      → l.replicas ≡ some (pos 1)
      → w.replicas ≡ some (pos n)
      → IsRoles ((replica_type_launcher, l) ∷ (replica_type_worker, w) ∷ [])
  worker_launcher :
      {l w : ReplicaSpec} {n : ℕ}
      → l.replicas ≡ some (pos 1)
      → w.replicas ≡ some (pos n)
      → IsRoles ((replica_type_worker, w) ∷ (replica_type_launcher, l) ∷ [])

-- One entry is never cut: it has one replica, and at least one member must be there.
limit_one_is_ok :
    (a : ReplicaPriority) (m : ℕ)
    → a.spec.replicas ≡ some (pos 1)
    → is_ok (limit_order (pos (suc m)) (sort_reverse [] (a ∷ []))) ≡ true
unfolding limit_order count_replicas sort_reverse
limit_one_is_ok a m h = ground arith

is_ok-cut_order : (a b : ReplicaPriority) (z : ℤ) → is_ok (cut_order z (a ∷ b ∷ [])) ≡ true
unfolding cut_order
is_ok-cut_order a b z = ground arith

is_ok-limit_order :
    (a b : ReplicaPriority) (z x y : ℤ)
    → a.spec.replicas ≡ some x
    → b.spec.replicas ≡ some y
    → is_ok (limit_order z (a ∷ b ∷ [])) ≡ true
unfolding limit_order count_replicas
is_ok-limit_order a b z x y p q = ground (arith, is_ok-cut_order a b z)

bind_is_ok {ℓ κ} :
    {A : Type ℓ} {B : Type κ} (m : Outcome A) (f : A → B)
    → is_ok m ≡ true
    → is_ok (m >>= λ a. ok (f a)) ≡ true
bind_is_ok (ok a) f h = refl
bind_is_ok (err e) f h = h
bind_is_ok panic f h = h

module _ (ops : QuantityOps) (lister : Option PriorityClassLister) where
  limit_sorted_is_ok :
      (a b : ReplicaPriority) (z x y : ℤ)
      → a.spec.replicas ≡ some x
      → b.spec.replicas ≡ some y
      → is_ok (limit_order z (sort_reverse [] (a ∷ b ∷ []))) ≡ true
  unfolding sort_reverse
  limit_sorted_is_ok a b z x y p q = elim (Bool-cases (ltb_ℤ a.priority b.priority)) [
    | inl less ↦ rw less (is_ok-limit_order b a z y x q p)
    | inr more ↦ rw more (is_ok-limit_order a b z x y p q)
  ]

  is_ok-cal_pg_min_resource :
      (m : ℕ) (specs : Assoc ReplicaSpec)
      → IsRoles specs
      → is_ok (cal_pg_min_resource ops lister (pos (suc m)) specs) ≡ true
  unfolding cal_pg_min_resource collect_order
  is_ok-cal_pg_min_resource m _ (launcher_only {l} p) =
      bind_is_ok _ _ (limit_one_is_ok (rank lister replica_type_launcher l) m p)
  is_ok-cal_pg_min_resource m _ (launcher_worker {l} {w} p q) = bind_is_ok _ _ (
      limit_sorted_is_ok (rank lister replica_type_launcher l) (rank lister replica_type_worker w)
        (pos (suc m)) _ _ p q)
  is_ok-cal_pg_min_resource m _ (worker_launcher {l} {w} p q) = bind_is_ok _ _ (
      limit_sorted_is_ok (rank lister replica_type_worker w) (rank lister replica_type_launcher l)
        (pos (suc m)) _ _ q p)

module _ (k : Machinery) (ops : QuantityOps) (lister : Option PriorityClassLister) where
  resources_are_ok :
      (m : ℕ) (j : GroupJob)
      → IsRoles (specs_or_empty j.spec.replica_specs)
      → is_ok (calculate_pg_min_resources k ops lister (pos m) j) ≡ true
  unfolding calculate_pg_min_resources
  resources_are_ok zero j roles = ground arith
  resources_are_ok (suc m) j roles =
      ground
        (arith, is_ok-cal_pg_min_resource ops lister m (specs_or_empty j.spec.replica_specs) roles)

  -- For a job whose roles are a launcher of one replica and workers with a number of replicas, and
  -- whose minAvailable is not negative, a PodGroup is made for either scheduler, with no panic.
  pub new_pod_group-Succeeds :
      (g : GangScheduler) (j : GroupJob) (m : ℕ)
      → IsRoles (specs_or_empty j.spec.replica_specs)
      → calculate_min_available j ≡ pos m
      → Succeeds (new_pod_group k ops lister g j)
  unfolding new_pod_group
  new_pod_group-Succeeds volcano j m roles e =
      is_ok-Succeeds _ (rw e (bind_is_ok _ _ (resources_are_ok m j roles)))
  new_pod_group-Succeeds (scheduler_plugins name) j m roles e =
      is_ok-Succeeds _ (rw e (bind_is_ok _ _ (resources_are_ok m j roles)))

  -- The operator panics on every job with a launcher only whose minAvailable is negative, with no
  -- minResources of its own: the second entry of a list of one is read.
  pub new_pod_group_panics :
      (g : GangScheduler) (j : GroupJob) (l : ReplicaSpec) (n : ℕ)
      → j.spec.replica_specs ≡ some ((replica_type_launcher, l) ∷ [])
      → l.replicas ≡ some (pos 1)
      → calculate_min_available j ≡ negsuc n
      → policy_resources (scheduling_policy j) ≡ none
      → new_pod_group k ops lister g j ≡ panic
  unfolding new_pod_group calculate_pg_min_resources cal_pg_min_resource limit_order count_replicas
      cut_order sort_reverse collect_order
  new_pod_group_panics volcano j l n s one neg no_resources = ground (arith, s, one, neg)
  new_pod_group_panics (scheduler_plugins name) j l n s one neg no_resources =
      ground (arith, s, one, neg)
