-- ===== src/Memory/Pointer.antt =====
-- Pointers and slices: a pointer is nil or the address of an object.
use mpi_operator.Prelude.{
  ℕ, ◌≤◌, ◌≡◌, refl, ap, ◌∙◌, inl, inr, Option, none, some, List, [], ◌∷◌, ◌++◌, arith,
}
use mpi_operator.Prelude.Tests.{length, Option-cases}
use mpi_operator.Memory.Heap.{
  get_elem?, AgreesFrom, AgreesFrom-append, get_elem?-append, length-append, Alloc, ◌>>=◌, pure,
}
use mpi_operator.Memory.Copier.{
  Reader, give, ◌&◌, ◌<&>◌, ◌⊗◌, ◌<$>◌, IsLocal, IsDeep, IsCopier, give-IsLocal, pure-IsDeep,
  &-IsLocal, ⊗-IsDeep, <$>-IsDeep, <&>-IsLocal, <&>-IsDeep, >>=_step,
}

-- Objects of one type among all that memory holds.
pub record Slot (C P : Type 0) : Type 0 where
  pub put : P → C
  pub take : C → Option P
  pub take-put : (p : P) → take (put p) ≡ some p

module _ {C P : Type 0} (slot : Slot C P) where
  unfoldable pub taken : Option C → Option P
  taken none = none
  taken (some c) = slot.take c

  -- `*p`
  abbrev load : ℕ → Reader C P
  unfolding taken
  load a h = taken (get_elem? h a)

  -- `new(P)`, filled in
  abbrev new : P → Alloc C ℕ
  new p h = some (length h, h ++ slot.put p ∷ [])

  load_agrees :
      (n a : ℕ) (h k : List C) (p : P)
      → n ≤ a
      → AgreesFrom n h k
      → load a h ≡ some p
      → load a k ≡ some p
  unfolding taken
  load_agrees n a h k p le agrees e = elim (Option-cases (get_elem? h a)) [
    | inl no_object ↦ cc (ap taken no_object)
    | inr (c, is) ↦ rw (agrees a c le is) (rw is at e)
  ]

  -- The object at an address, read in the same memory.
  unfoldable pub read_at : {V : Type 0} → (P → Reader C V) → Option P → Reader C V
  read_at read none h = none
  read_at read (some p) h = read p h

  at_address : Option P → Alloc C P
  at_address none h = none
  at_address (some p) h = some (p, h)

  unfoldable pub read_pointer : {V : Type 0} → (P → Reader C V) → Option ℕ → Reader C (Option V)
  unfolding load read_at
  read_pointer read none = give none
  read_pointer read (some a) = some <&> λ h. read_at read (load a h) h

  -- nil stays nil. Else the object is copied, and a new one takes the copy.
  pub copy_pointer : (P → Alloc C P) → Option ℕ → Alloc C (Option ℕ)
  unfolding load at_address
  copy_pointer copy none = pure none
  copy_pointer copy (some a) = some <$> (do p ← λ h. at_address (load a h) h; p' ← copy p; new p')

  copied_address :
      (copy : P → Alloc C P) (a : ℕ) (h h' : List C) (p p' : P)
      → load a h ≡ some p
      → copy p h ≡ some (p', h')
      → (do q ← λ k. at_address (load a k) k; q' ← copy q; new q') h
        ≡ some (length h', h' ++ slot.put p' ∷ [])
  unfolding at_address
  copied_address copy a h h' p p' there copied =
      >>=_step (λ k. at_address (load a k) k) _ {h = h} {h' = h} {a = p} (rw there refl)
      ∙ >>=_step (copy p) new copied

  module _ {V : Type 0} where
    read_at-eq_some :
        (read : P → Reader C V) (o : Option P) (h : List C) (v : V)
        → read_at read o h ≡ some v
        → (p : P) × (o ≡ some p) × (read p h ≡ some v)
    unfolding read_at
    read_at-eq_some read none h v e = cc
    read_at-eq_some read (some p) h v e = (p, refl, e)

    module _ {read : P → Reader C V} {copy : P → Alloc C P} (copier : IsCopier read copy) where
      read_address-IsLocal : (a : ℕ) → IsLocal (λ h. read_at read (load a h) h)
      unfolding read_at
      read_address-IsLocal a h k v agrees e =
          let (p, there, reads) = read_at-eq_some read (load a h) h v e in
          rw (load_agrees 0 a h k p (omega arith) agrees there) (copier.local p h k v agrees reads)

      new_there : (h : List C) (p : P) → load (length h) (h ++ slot.put p ∷ []) ≡ some p
      unfolding taken
      new_there h p = rw (get_elem?-append h (slot.put p)) (slot.take-put p)

      -- An object that was read is copied into a new one.
      copy_address-IsDeep :
          (a : ℕ)
          → IsDeep
              (λ h. read_at read (load a h) h)
              (do p ← λ h. at_address (load a h) h; p' ← copy p; new p')
              (λ b h. read_at read (load b h) h)
      unfolding read_at at_address
      copy_address-IsDeep a h v e =
          let (p, there, reads) = read_at-eq_some read (load a h) h v e in
          let (p', h', copied, c) = copier.deep p h v reads in
          (
            length h',
            h' ++ slot.put p' ∷ [],
            copied_address copy a h h' p p' there copied,
            record {
              kept = λ x y d g. AgreesFrom-append h' (slot.put p') x y d (c.kept x y d g);
              longer = omega (arith, c.longer, length-append h' (slot.put p'));
              fresh = λ k agrees.
                  rw
                    (load_agrees (length h) (length h') (h' ++ slot.put p' ∷ []) k p' c.longer
                      agrees (new_there h' p'))
                    (c.fresh k (λ x y d g.
                      agrees x y d (AgreesFrom-append h' (slot.put p') x y (omega arith) g)));
            },
          )

      pub pointer-IsCopier : IsCopier (read_pointer read) (copy_pointer copy)
      unfolding read_pointer copy_pointer
      pointer-IsCopier = record { local = reads_local; deep = copies_deep }
        where
          reads_local : (o : Option ℕ) → IsLocal (read_pointer read o)
          reads_local none = give-IsLocal none
          reads_local (some a) = <&>-IsLocal some (read_address-IsLocal a)

          copies_deep :
              (o : Option ℕ)
              → IsDeep (read_pointer read o) (copy_pointer copy o) (read_pointer read)
          copies_deep none = pure-IsDeep none none (read_pointer read) refl
          copies_deep (some a) =
              <$>-IsDeep some (read_pointer read) (λ b. refl)
                (<&>-IsDeep some (copy_address-IsDeep a))

module _ {C M V : Type 0} where
  unfoldable pub read_slice : (M → Reader C V) → List M → Reader C (List V)
  read_slice read [] = give []
  read_slice read (m ∷ ms) = (λ x. x.0 ∷ x.1) <&> (read m & read_slice read ms)

module _ {C M : Type 0} where
  pub copy_slice : (M → Alloc C M) → List M → Alloc C (List M)
  copy_slice copy [] = pure []
  copy_slice copy (m ∷ ms) = (λ x. x.0 ∷ x.1) <$> (copy m ⊗ copy_slice copy ms)

module _ {C M V : Type 0} {read : M → Reader C V} {copy : M → Alloc C M}
    (copier : IsCopier read copy) where
  pub slice-IsCopier : IsCopier (read_slice read) (copy_slice copy)
  unfolding read_slice copy_slice
  slice-IsCopier = record { local = reads_local; deep = copies_deep }
    where
      reads_local : (ms : List M) → IsLocal (read_slice read ms)
      reads_local [] = give-IsLocal []
      reads_local (m ∷ ms) = <&>-IsLocal _ (&-IsLocal (copier.local m) (reads_local ms))

      copies_deep :
          (ms : List M) → IsDeep (read_slice read ms) (copy_slice copy ms) (read_slice read)
      copies_deep [] = pure-IsDeep [] [] (read_slice read) refl
      copies_deep (m ∷ ms) =
          <$>-IsDeep _ (read_slice read) (λ x. refl)
            (<&>-IsDeep _ (⊗-IsDeep (copier.deep m) (reads_local ms) (copies_deep ms)))
