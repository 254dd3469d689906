-- ===== src/PodGroup/Limit.antt =====
-- How many replicas `calPGMinResource` counts for a launcher and its workers.
use Prim.Native.Nat.{min}
use mpi_operator.Prelude.{
  String, ℕ, suc, ◌+◌, ◌≤◌, ◌<◌, ◌^◌, ◌≡◌, refl, ap, ◌∙◌, true, false, Option, none, some, List, [],
  ◌∷◌, arith, ◌==◌, eq_iff,
}
use mpi_operator.Prelude.Tests.{if◌then◌else◌}
use mpi_operator.Prelude.Int.{pos, to_ℕ, ltb_ℤ, eqb_ℤ, wrap32, ◌-ℤ◌, ◌+ℤ◌}
use mpi_operator.Api.{replica_type_worker, replica_type_launcher}
use mpi_operator.Outcome.{Outcome, ok}
use mpi_operator.PodGroup.Order.{
  ReplicaPriority, count_replicas, cut_order, limit_order, with_replicas,
}

-- An entry of a role, with a number of replicas and a priority.
pub record IsEntry (rp : ReplicaPriority) (role : String) (n : ℕ) : Type 0 where
  pub role_is : rp.replica_type ≡ role
  pub count_is : rp.spec.replicas ≡ some (pos n)

-- The replicas that are counted, all roles together.
abbrev pub counted : List ReplicaPriority → ℕ
counted [] = 0
counted (rp ∷ rest) = (elim rp.spec.replicas [ none ↦ 0 | some z ↦ to_ℕ z ]) + counted rest

abbrev pub counted_of : Outcome (Option (List ReplicaPriority)) → ℕ
counted_of (ok (some order)) = counted order
counted_of _ = 0

sum_fits : (n k : ℕ) → n + k < 2 ^ 31 → wrap32 (pos n +ℤ pos k) ≡ pos (n + k)
unfolding wrap32
sum_fits n k h = ground arith

less_one : (k : ℕ) → k < 2 ^ 31 → wrap32 (pos (suc k) -ℤ pos 1) ≡ pos k
unfolding wrap32
less_one k h = ground arith

-- The test of `replicas > minMember`, for two entries.
limit_two :
    (a b : ReplicaPriority) (r s : String) (n k m : ℕ)
    → n + k < 2 ^ 31
    → IsEntry a r n
    → IsEntry b s k
    → limit_order (pos m) (a ∷ b ∷ []) ≡ (
        if ltb_ℤ (pos m) (pos (n + k))
        then cut_order (pos m) (a ∷ b ∷ [])
        else ok (some (a ∷ b ∷ [])))
unfolding limit_order count_replicas
limit_two a b r s n k m fits ea eb = ground (arith, sum_fits n k fits, ea.count_is, eb.count_is)

-- Which of the two entries is cut.
cut_equal_first :
    (a b : ReplicaPriority) (n m : ℕ)
    → IsEntry a replica_type_worker n
    → eqb_ℤ a.priority b.priority ≡ true
    → m < 2 ^ 31
    → cut_order (pos (suc m)) (a ∷ b ∷ []) ≡ ok (some (with_replicas (pos m) a ∷ b ∷ []))
unfolding cut_order
cut_equal_first a b n m ea same small =
    ground (arith, less_one m small, eq_iff a.replica_type replica_type_worker, ea.role_is)

launcher_is_not_worker : (replica_type_launcher == replica_type_worker) ≡ false
launcher_is_not_worker = refl

cut_equal_second :
    (a b : ReplicaPriority) (n k m : ℕ)
    → IsEntry a replica_type_launcher n
    → IsEntry b replica_type_worker k
    → m < 2 ^ 31
    → cut_order (pos (suc m)) (a ∷ b ∷ []) ≡ ok (some (a ∷ with_replicas (pos m) b ∷ []))
unfolding cut_order
cut_equal_second a b n k m ea eb small =
    let not_a : (a.replica_type == replica_type_worker) ≡ false =
      ap (λ t. t == replica_type_worker) ea.role_is ∙ launcher_is_not_worker in
    ground (arith, less_one m small, not_a, eq_iff b.replica_type replica_type_worker, eb.role_is)

cut_second :
    (a b : ReplicaPriority) (m : ℕ)
    → eqb_ℤ a.priority b.priority ≡ false
    → m < 2 ^ 31
    → cut_order (pos (suc m)) (a ∷ b ∷ []) ≡ ok (some (a ∷ with_replicas (pos m) b ∷ []))
unfolding cut_order
cut_second a b m differ small = ground (arith, less_one m small)

-- With a launcher of one replica in front of its workers, whatever their priorities, the resources of
-- exactly min(minMember, 1 + workers) replicas are counted.
pub limit_order_launcher_first :
    (l w : ReplicaPriority) (k m : ℕ)
    → IsEntry l replica_type_launcher 1
    → IsEntry w replica_type_worker k
    → suc k < 2 ^ 31
    → m < 2 ^ 31
    → counted_of (limit_order (pos (suc m)) (l ∷ w ∷ [])) ≡ min (suc m) (suc k)
limit_order_launcher_first l w k m el ew fits small = ground (
  arith,
  limit_two l w replica_type_launcher replica_type_worker 1 k (suc m) (omega arith) el ew,
  cut_equal_second l w 1 k m el ew small,
  el.count_is,
  ew.count_is,
)

-- With the workers in front of a launcher of one replica, and of its priority, the resources of exactly
-- min(minMember, 1 + workers) replicas are counted.
limit_order_workers_first :
    (w l : ReplicaPriority) (k m : ℕ)
    → IsEntry w replica_type_worker k
    → IsEntry l replica_type_launcher 1
    → eqb_ℤ w.priority l.priority ≡ true
    → suc k < 2 ^ 31
    → m < 2 ^ 31
    → counted_of (limit_order (pos (suc m)) (w ∷ l ∷ [])) ≡ min (suc m) (suc k)
limit_order_workers_first w l k m ew el same fits small = ground (
  arith,
  limit_two w l replica_type_worker replica_type_launcher k 1 (suc m) (omega arith) ew el,
  cut_equal_first w l k m ew same small,
  el.count_is,
  ew.count_is,
)

-- With the workers in front of a launcher of one replica and of another priority, at least two of them
-- and at least minMember of them, the code cuts the launcher: more than minMember replicas are counted.
pub limit_order_overcounts :
    (w l : ReplicaPriority) (k m : ℕ)
    → IsEntry w replica_type_worker k
    → IsEntry l replica_type_launcher 1
    → eqb_ℤ w.priority l.priority ≡ false
    → suc k < 2 ^ 31
    → 2 ≤ k
    → m < k
    → suc m < counted_of (limit_order (pos (suc m)) (w ∷ l ∷ []))
limit_order_overcounts w l k m ew el differ fits two more = ground (
  arith,
  limit_two w l replica_type_worker replica_type_launcher k 1 (suc m) (omega arith) ew el,
  cut_second w l m differ (omega arith),
  el.count_is,
  ew.count_is,
)
