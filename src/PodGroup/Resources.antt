-- ===== src/PodGroup/Resources.antt =====
-- `addResources`: the resources of a container, times a number of replicas, added to a list.
use mpi_operator.Prelude.{
  String, ◌≡◌, refl, inl, inr, ap, ◌∙◌, true, Option, none, some, [], ◌∷◌, arith, ◌==◌, eq_iff,
}
use mpi_operator.Prelude.Tests.{if◌then◌else◌, Bool-cases, is_nil, Option-cases, is_empty}
use mpi_operator.Prelude.Int.{ℤ}
use mpi_operator.Prelude.Assoc.{lookup, insert, lookup-insert}
use mpi_operator.Api.{Quantity, ResourceList, Container}

-- The arithmetic of resource.Quantity (k8s.io/apimachinery), as a parameter.
pub record QuantityOps : Type 0 where
  pub add : Quantity → Quantity → Quantity
  pub mul : Quantity → ℤ → Quantity

-- The keys of a map are distinct.
abbrev IsMap : ResourceList → Type 0
IsMap [] = Unit
IsMap ((k, q) ∷ m) = (lookup k m ≡ none) × IsMap m

-- A limit counts where there is no request.
merge_limits : ResourceList → ResourceList → ResourceList
merge_limits merged [] = merged
merge_limits merged ((name, lim) ∷ limits) =
    merge_limits (if is_nil (lookup name merged) then insert name lim merged else merged) limits

module _ (ops : QuantityOps) where
  -- What is stored for a name: the product, or the sum of what was there and the product.
  abbrev pub plus : Option Quantity → Quantity → Quantity
  plus none q = q
  plus (some p) q = ops.add p q

  add_merged : ResourceList → ResourceList → ℤ → ResourceList
  add_merged min_resources [] replicas = min_resources
  add_merged min_resources ((name, quantity) ∷ merged) replicas =
      let total = plus (lookup name min_resources) (ops.mul quantity replicas) in
      add_merged (insert name total min_resources) merged replicas

  pub add_resources : ResourceList → Container → ℤ → ResourceList
  add_resources min_resources c replicas =
      if is_empty c.requests
      then (if is_empty c.limits
          then min_resources
          else add_merged min_resources (merge_limits c.requests c.limits) replicas)
      else add_merged min_resources (merge_limits c.requests c.limits) replicas

-- What a container asks for under a name: its request, or else its limit.
abbrev pub or_else : Option Quantity → Option Quantity → Option Quantity
or_else none o = o
or_else (some q) o = some q

lookup-merge_limits :
    (merged limits : ResourceList) (k : String)
    → lookup k (merge_limits merged limits) ≡ or_else (lookup k merged) (lookup k limits)
unfolding merge_limits lookup
lookup-merge_limits merged [] k = ground arith
lookup-merge_limits merged ((name, lim) ∷ limits) k = elim (Option-cases (lookup name merged)) [
  | inl e ↦ ground (
    arith,
    e,
    eq_iff name k,
    lookup-insert name k lim merged,
    lookup-merge_limits (insert name lim merged) limits k,
  )
  | inr (q, e) ↦ ground (arith, e, eq_iff name k, lookup-merge_limits merged limits k)
]

insert-IsMap : (k : String) (q : Quantity) (m : ResourceList) → IsMap m → IsMap (insert k q m)
unfolding insert lookup
insert-IsMap k q [] h = (refl, tt)
insert-IsMap k q ((j, p) ∷ m) h =
    ground (arith, eq_iff j k, eq_iff k j, insert-IsMap k q m h.1, lookup-insert k j q m)

merge_limits-IsMap :
    (merged limits : ResourceList) → IsMap merged → IsMap (merge_limits merged limits)
unfolding merge_limits
merge_limits-IsMap merged [] h = h
merge_limits-IsMap merged ((name, lim) ∷ limits) h = elim (Option-cases (lookup name merged)) [
  | inl e ↦
      rw e (merge_limits-IsMap (insert name lim merged) limits (insert-IsMap name lim merged h))
  | inr (q, e) ↦ rw e (merge_limits-IsMap merged limits h)
]

none_named :
    (requests limits : ResourceList) (k : String)
    → is_empty requests ≡ true
    → is_empty limits ≡ true
    → or_else (lookup k requests) (lookup k limits) ≡ none
unfolding lookup
none_named [] [] k r l = refl
none_named [] (x ∷ l) k r h = cc
none_named (x ∷ r) l k h _ = cc

module _ (ops : QuantityOps) where
  -- What a name holds after `n` times the quantity `o` was added, if there is one.
  abbrev pub added : Option Quantity → Option Quantity → ℤ → Option Quantity
  added old none n = old
  added old (some q) n = some (plus ops old (ops.mul q n))

  lookup-add_merged :
      (min_resources merged : ResourceList) (n : ℤ) (k : String)
      → IsMap merged
      → lookup k (add_merged ops min_resources merged n)
        ≡ added (lookup k min_resources) (lookup k merged) n
  unfolding add_merged lookup
  lookup-add_merged min_resources [] n k h = refl
  lookup-add_merged min_resources ((name, q) ∷ merged) n k h =
      let total = plus ops (lookup name min_resources) (ops.mul q n) in
      let next = lookup-add_merged (insert name total min_resources) merged n k h.1 in
      elim (Bool-cases (name == k)) [
        | inl is ↦
            let e : name ≡ k = (eq_iff name k).0 is in
            ground (
              arith,
              e,
              next,
              h.0,
              lookup-insert name k total min_resources,
              ap (λ j. lookup j merged) e,
              ap (λ j. lookup j min_resources) e,
            )
        | inr is_not ↦ ground (arith, next, lookup-insert name k total min_resources)
      ]

  -- After `addResources`, each resource holds what it held, plus the replicas times the container's
  -- request for it, or its limit where there is no request; a resource that the container does not
  -- name is unchanged.
  pub lookup-add_resources :
      (min_resources : ResourceList) (c : Container) (n : ℤ) (k : String)
      → IsMap c.requests
      → lookup k (add_resources ops min_resources c n)
        ≡ added (lookup k min_resources) (or_else (lookup k c.requests) (lookup k c.limits)) n
  unfolding add_resources
  lookup-add_resources min_resources c n k h =
      let merged = merge_limits c.requests c.limits in
      let total =
        lookup-add_merged min_resources merged n k (merge_limits-IsMap c.requests c.limits h)
        ∙ ap (λ o. added (lookup k min_resources) o n)
            (lookup-merge_limits c.requests c.limits k) in
      ground (arith, total, none_named c.requests c.limits k)
