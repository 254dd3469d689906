-- ===== src/PodGroup/Order.antt =====
-- `calPGMinResource`: the replicas in the order of their priorities, cut to the members that must be
-- there, and the sum of their resources.
use mpi_operator.Prelude.{String, ℕ, zero, suc, Option, none, some, List, [], ◌∷◌, ◌==◌}
use mpi_operator.Prelude.Tests.{if◌then◌else◌}
use mpi_operator.Prelude.Int.{ℤ, pos, ◌+ℤ◌, ◌-ℤ◌, ltb_ℤ, eqb_ℤ, wrap32}
use mpi_operator.Prelude.Assoc.{Assoc}
use mpi_operator.Api.{ReplicaSpec, Container, ResourceList, replica_type_worker}
use mpi_operator.Outcome.{Outcome, ok, panic, ◌>>=◌, deref}
use mpi_operator.PodGroup.Resources.{QuantityOps, add_resources}

pub record ReplicaPriority : Type 0 where
  pub priority : ℤ
  pub replica_type : String
  pub spec : ReplicaSpec

-- A lister of priority classes: the value of a class, none where `Get` returns an error.
abbrev pub PriorityClassLister : Type 0
PriorityClassLister = String → Option ℤ

-- The priority of a replica: that of its class, and 0 where there is no class or it is not found.
priority_of : Option PriorityClassLister → String → ℤ
priority_of none name = pos 0
priority_of (some get) name =
    if name == "" then pos 0 else elim (get name) [ none ↦ pos 0 | some value ↦ value ]

-- The entry that the body of the loop over the replicas makes.
pub rank : Option PriorityClassLister → String → ReplicaSpec → ReplicaPriority
unfolding priority_of
rank lister rt r = record {
  priority = priority_of lister r.template.spec.priority_class_name;
  replica_type = rt;
  spec = r;
}

-- The loop over the map of replicas, in the order in which the map is iterated.
unfoldable pub collect_order : Option PriorityClassLister → Assoc ReplicaSpec → List ReplicaPriority
unfolding rank
collect_order lister [] = []
collect_order lister ((rt, r) ∷ specs) = rank lister rt r ∷ collect_order lister specs

-- `sort.Sort(sort.Reverse(order))`: on a slice as short as this, Go sorts by insertion, with the
-- greatest priority in front and equal ones in their order.
pub place : ReplicaPriority → List ReplicaPriority → List ReplicaPriority
place rp [] = rp ∷ []
place rp (x ∷ xs) = if ltb_ℤ x.priority rp.priority then rp ∷ x ∷ xs else x ∷ place rp xs

unfoldable pub sort_reverse : List ReplicaPriority → List ReplicaPriority → List ReplicaPriority
unfolding place
sort_reverse sorted [] = sorted
sort_reverse sorted (rp ∷ rest) = sort_reverse (place rp sorted) rest

-- none for -1
get_worker_index : List ReplicaPriority → Option ℕ
get_worker_index [] = none
get_worker_index (rp ∷ rest) =
    if rp.replica_type == replica_type_worker
    then some zero
    else elim (get_worker_index rest) [ none ↦ none | some i ↦ some (suc i) ]

-- `order[i].Replicas = ptr.To(n)`
abbrev pub with_replicas : ℤ → ReplicaPriority → ReplicaPriority
with_replicas n rp = record rp { spec = record rp.spec { replicas = some n } }

set_replicas : ℕ → ℤ → List ReplicaPriority → List ReplicaPriority
set_replicas i n [] = []
set_replicas zero n (rp ∷ rest) = with_replicas n rp ∷ rest
set_replicas (suc i) n (rp ∷ rest) = rp ∷ set_replicas i n rest

-- The number of replicas of the first two entries, as an int32.
unfoldable pub count_replicas : List ReplicaPriority → Outcome ℤ
count_replicas [] = panic
count_replicas (a ∷ []) = deref a.spec.replicas
count_replicas (a ∷ b ∷ rest) = do
  n ← deref a.spec.replicas
  m ← deref b.spec.replicas
  ok (wrap32 (n +ℤ m))

-- The entry that is cut where there are more replicas than members. `none` inside `ok` is the early
-- `return nil` where no worker is found.
unfoldable pub cut_order : ℤ → List ReplicaPriority → Outcome (Option (List ReplicaPriority))
unfolding get_worker_index set_replicas
cut_order min_member [] = panic
cut_order min_member (a ∷ []) = panic
cut_order min_member (a ∷ b ∷ rest) =
    if eqb_ℤ a.priority b.priority
    then elim (get_worker_index (a ∷ b ∷ rest)) [
      | none ↦ ok none
      | some i ↦ ok (some (set_replicas i (wrap32 (min_member -ℤ pos 1)) (a ∷ b ∷ rest)))
    ]
    else ok (some (set_replicas 1 (wrap32 (min_member -ℤ pos 1)) (a ∷ b ∷ rest)))

unfoldable pub limit_order : ℤ → List ReplicaPriority → Outcome (Option (List ReplicaPriority))
unfolding count_replicas cut_order
limit_order min_member order = do
  replicas ← count_replicas order
  if ltb_ℤ min_member replicas then cut_order min_member order else ok (some order)

module _ (ops : QuantityOps) where
  sum_containers : List Container → ℤ → ResourceList → ResourceList
  sum_containers [] replicas acc = acc
  sum_containers (c ∷ cs) replicas acc =
      sum_containers cs replicas (add_resources ops acc c replicas)

  sum_order : List ReplicaPriority → ResourceList → ResourceList
  unfolding sum_containers
  sum_order [] acc = acc
  sum_order (rp ∷ rest) acc = sum_order rest (elim rp.spec.replicas [
    | none ↦ acc
    | some n ↦ sum_containers rp.spec.template.spec.containers n acc
  ])

  -- The callers pass a pointer to `min_member` that is not nil.
  unfoldable pub cal_pg_min_resource :
      Option PriorityClassLister → ℤ → Assoc ReplicaSpec → Outcome (Option ResourceList)
  unfolding collect_order sort_reverse limit_order sum_order
  cal_pg_min_resource lister min_member specs = do
    order ← limit_order min_member (sort_reverse [] (collect_order lister specs))
    ok (elim order [ none ↦ none | some counted ↦ some (sum_order counted []) ])
