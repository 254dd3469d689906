-- ===== src/Memory/Heap.antt =====
-- A memory of objects. A new object is the last; the address of an object is its place.
use mpi_operator.Prelude.{
  ℕ, zero, suc, ◌+◌, ◌≤◌, ◌≡◌, refl, Option, none, some, List, [], ◌∷◌, ◌++◌, arith,
}
use mpi_operator.Prelude.Tests.{length}

module _ {C : Type 0} where
  abbrev pub get_elem? : List C → ℕ → Option C
  get_elem? [] a = none
  get_elem? (c ∷ h) zero = some c
  get_elem? (c ∷ h) (suc a) = get_elem? h a

  -- The objects of the first memory from an address on are in the second one as they are.
  abbrev pub AgreesFrom : ℕ → List C → List C → Type 0
  AgreesFrom n h k = (a : ℕ) (c : C) → n ≤ a → get_elem? h a ≡ some c → get_elem? k a ≡ some c

  pub AgreesFrom-append : (h : List C) (c : C) → AgreesFrom 0 h (h ++ c ∷ [])
  AgreesFrom-append [] c a d le e = cc
  AgreesFrom-append (x ∷ h) c zero d le e = e
  AgreesFrom-append (x ∷ h) c (suc a) d le e = AgreesFrom-append h c a d (omega arith) e

  pub get_elem?-append : (h : List C) (c : C) → get_elem? (h ++ c ∷ []) (length h) ≡ some c
  get_elem?-append [] c = refl
  get_elem?-append (x ∷ h) c = get_elem?-append h c

  pub length-append : (h : List C) (c : C) → length (h ++ c ∷ []) ≡ length h + 1
  length-append [] c = omega arith
  length-append (x ∷ h) c = omega (arith, length-append h c)

-- Code that reads the memory and adds to it; `none` is a pointer to no object of the type.
abbrev pub Alloc : Type 0 → Type 0 → Type 0
Alloc C A = List C → Option (A × List C)

module _ {C : Type 0} where
  infixl 5 ◌>>=◌
  abbrev pub ◌>>=◌ : {A B : Type 0} → Alloc C A → (A → Alloc C B) → Alloc C B
  ◌>>=◌ m f h = elim (m h) [ none ↦ none | some (a, h') ↦ f a h' ]

  abbrev pub pure : {A : Type 0} → A → Alloc C A
  pure a h = some (a, h)
