-- ===== src/PodGroup/Iteration.antt =====
-- The two orders in which Go may iterate over a map of a launcher and its workers, in `calPGMinResource`.
use mpi_operator.Prelude.{
  String, ◌≡◌, refl, ap, sym, inl, inr, true, false, Option, none, some, List, [], ◌∷◌, ◌==◌, arith,
  eq_iff,
}
use mpi_operator.Prelude.Tests.{if◌then◌else◌, Bool-cases}
use mpi_operator.Prelude.Int.{ℤ, pos, negsuc, ltb_ℤ, eqb_ℤ, wrap32, ◌+ℤ◌}
use mpi_operator.Api.{ReplicaSpec, replica_type_worker, replica_type_launcher}
use mpi_operator.Outcome.{Outcome, ok, err, panic, ◌>>=◌, deref}
use mpi_operator.PodGroup.Order.{
  ReplicaPriority, PriorityClassLister, collect_order, sort_reverse, count_replicas, cut_order,
  limit_order,
}

-- The entry of a role.
abbrev entry_of : String → List ReplicaPriority → Option ReplicaPriority
entry_of role [] = none
entry_of role (rp ∷ rest) = if rp.replica_type == role then some rp else entry_of role rest

abbrev pub counted_as :
    String → Outcome (Option (List ReplicaPriority)) → Outcome (Option (Option ReplicaPriority))
counted_as role (ok (some order)) = ok (some (entry_of role order))
counted_as role (ok none) = ok none
counted_as role (err e) = err e
counted_as role panic = panic

add_comm : (a b : ℤ) → (a +ℤ b) ≡ (b +ℤ a)
add_comm (pos a) (pos b) = ground arith
add_comm (pos a) (negsuc b) = ground arith
add_comm (negsuc a) (pos b) = ground arith
add_comm (negsuc a) (negsuc b) = ground arith

ltb_asym : (a b : ℤ) → ltb_ℤ a b ≡ true → ltb_ℤ b a ≡ false
ltb_asym a b h = ground arith

ltb_tri : (a b : ℤ) → ltb_ℤ a b ≡ false → ltb_ℤ b a ≡ false → eqb_ℤ a b ≡ true
ltb_tri a b h k = ground arith

eqb_sym : (a b : ℤ) → eqb_ℤ a b ≡ true → eqb_ℤ b a ≡ true
eqb_sym a b h = ground arith

-- Both counts stop at a nil number of replicas, or are the same sum.
count_comm : (a b : ReplicaPriority) → count_replicas (a ∷ b ∷ []) ≡ count_replicas (b ∷ a ∷ [])
unfolding count_replicas
count_comm a b = deref_comm a.spec.replicas b.spec.replicas
  where
    deref_comm :
        (x y : Option ℤ)
        → (deref x >>= λ n. deref y >>= λ m. ok (wrap32 (n +ℤ m)))
          ≡ (deref y >>= λ n. deref x >>= λ m. ok (wrap32 (n +ℤ m)))
    deref_comm none none = refl
    deref_comm none (some y) = refl
    deref_comm (some x) none = refl
    deref_comm (some x) (some y) = ap (λ z. ok (wrap32 z)) (add_comm x y)

module _ (role : String) (p q : ℤ) (l w : ReplicaSpec) (m : ℤ) where
  abbrev launcher : ReplicaPriority
  launcher = record { priority = p; replica_type = replica_type_launcher; spec = l }

  abbrev workers : ReplicaPriority
  workers = record { priority = q; replica_type = replica_type_worker; spec = w }

  entry_comm :
      (a b : ReplicaPriority)
      → (if replica_type_launcher == role
          then some a
          else if replica_type_worker == role
          then some b
          else none)
        ≡ (if replica_type_worker == role
            then some b
            else if replica_type_launcher == role
            then some a
            else none)
  entry_comm a b = elim (Bool-cases (replica_type_launcher == role)) [
    | inl same ↦ rw same (rw (not_workers same) refl)
    | inr other ↦ rw other refl
  ]
    where
      not_workers : (replica_type_launcher == role) ≡ true → (replica_type_worker == role) ≡ false
      not_workers same =
          ap (λ t. replica_type_worker == t) (sym ((eq_iff replica_type_launcher role).0 same))

  -- The workers are cut wherever they stand among equal priorities.
  cut_comm :
      eqb_ℤ p q ≡ true
      → counted_as role (cut_order m (launcher ∷ workers ∷ []))
        ≡ counted_as role (cut_order m (workers ∷ launcher ∷ []))
  unfolding cut_order
  cut_comm same = rw same (rw (eqb_sym p q same) (ap (λ e. ok (some e)) (entry_comm _ _)))

  test_comm :
      (c : Outcome ℤ) (x x' y y' : Outcome (Option (List ReplicaPriority)))
      → counted_as role x ≡ counted_as role x'
      → counted_as role y ≡ counted_as role y'
      → counted_as role (c >>= λ n. if ltb_ℤ m n then x else y)
        ≡ counted_as role (c >>= λ n. if ltb_ℤ m n then x' else y')
  test_comm (ok n) x x' y y' cut all = ground (arith, cut, all)
  test_comm (err e) x x' y y' cut all = refl
  test_comm panic x x' y y' cut all = refl

  limit_comm :
      eqb_ℤ p q ≡ true
      → counted_as role (limit_order m (launcher ∷ workers ∷ []))
        ≡ counted_as role (limit_order m (workers ∷ launcher ∷ []))
  unfolding limit_order
  limit_comm same = rw (count_comm launcher workers) (
      test_comm (count_replicas (workers ∷ launcher ∷ [])) _ _ _ _ (cut_comm same)
        (ap (λ e. ok (some e)) (entry_comm launcher workers)))

  sorted_comm :
      counted_as role (limit_order m (sort_reverse [] (launcher ∷ workers ∷ [])))
      ≡ counted_as role (limit_order m (sort_reverse [] (workers ∷ launcher ∷ [])))
  unfolding sort_reverse
  sorted_comm = elim (Bool-cases (ltb_ℤ p q)) [
    | inl less ↦ rw less (rw (ltb_asym p q less) refl)
    | inr more ↦ rw more (elim (Bool-cases (ltb_ℤ q p)) [
      | inl less ↦ rw less refl
      | inr same ↦ rw same (limit_comm (ltb_tri p q more same))
    ])
  ]

-- In whichever order Go iterates over the map of a launcher and its workers, `calPGMinResource` counts
-- the same entry for each of them, or both runs return early, or both panic.
pub counted_as-iteration :
    (lister : Option PriorityClassLister) (l w : ReplicaSpec) (min_member : ℤ) (role : String)
    → counted_as role (
        limit_order min_member (
          sort_reverse []
            (collect_order lister ((replica_type_launcher, l) ∷ (replica_type_worker, w) ∷ []))))
      ≡ counted_as role (
          limit_order min_member (
            sort_reverse []
              (collect_order lister ((replica_type_worker, w) ∷ (replica_type_launcher, l) ∷ []))))
unfolding collect_order
counted_as-iteration lister l w min_member role = sorted_comm role _ _ l w min_member
