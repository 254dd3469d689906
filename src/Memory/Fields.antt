-- ===== src/Memory/Fields.antt =====
-- Deep copies of structs from those of their fields.
use mpi_operator.Prelude.{◌≡◌, refl, ap, some}
use mpi_operator.Memory.Heap.{Alloc, pure}
use mpi_operator.Memory.Copier.{
  Reader, give, ◌&◌, both_of, both_of-eq_some, ◌⊗◌, ◌<$>◌, IsLocal, IsDeep, IsCopier, give-IsLocal,
  pure-IsDeep, &-IsLocal, ⊗-IsDeep, <$>-IsDeep,
}

module _ {C : Type 0} where
  -- A part of a struct: `read` in the original, what `copy` makes of it, and how the copy is read.
  pub record IsField {V M : Type 0} (read : Reader C V) (copy : Alloc C M) (reread : M → Reader C V)
      : Type 0 where
    pub local : IsLocal read
    pub deep : IsDeep read copy reread

  pub of_copier :
      {V M : Type 0} {read : M → Reader C V} {copy : M → Alloc C M}
      → IsCopier read copy
      → (m : M) → IsField (read m) (copy m) read
  of_copier k m = record { local = k.local m; deep = k.deep m }

  pub to_copier :
      {V M : Type 0} {read : M → Reader C V} {copy : M → Alloc C M}
      → ((m : M) → IsField (read m) (copy m) read)
      → IsCopier read copy
  to_copier k = record { local = λ m. (k m).local; deep = λ m. (k m).deep }

  -- A value without pointers.
  pub value-IsCopier : {V : Type 0} → IsCopier {C = C} {V = V} give pure
  value-IsCopier = record { local = give-IsLocal; deep = λ v. pure-IsDeep v v give refl }

  infixr 6 ◌then_field◌
  pub ◌then_field◌ :
      {V W A B : Type 0} {r : Reader C V} {s : Reader C W} {m : Alloc C A} {n : Alloc C B}
      {o : A → Reader C V} {p : B → Reader C W}
      → IsField r m o
      → IsField s n p
      → IsField (r & s) (m ⊗ n) (λ x. o x.0 & p x.1)
  f then_field g = record {
    local = &-IsLocal f.local g.local;
    deep = ⊗-IsDeep f.deep g.local g.deep;
  }

  -- The own values of a struct, before its fields.
  pub own-IsField :
      {V W A : Type 0} {r : Reader C V} {m : Alloc C A} {o : A → Reader C V} (own : W)
      → IsField r m o
      → IsField (give own & r) m (λ x. give own & o x)
  own-IsField {r} own f = record {
    local = &-IsLocal (give-IsLocal own) f.local;
    deep = λ h v e.
        let (same, reads) = both_of-eq_some (some own) (r h) v.0 v.1 e in
        let (a, h', copied, c) = f.deep h v.1 reads in
        (
          a,
          h',
          copied,
          record {
            kept = c.kept;
            longer = c.longer;
            fresh = λ k agrees. rw (c.fresh k agrees) (ap (λ w. both_of w (some v.1)) same);
          },
        );
  }

  pub struct-IsField :
      {V A B : Type 0} {r : Reader C V} {m : Alloc C A} {o : A → Reader C V} (f : A → B)
      (p : B → Reader C V)
      → ((a : A) → p (f a) ≡ o a)
      → IsField r m o
      → IsField r (f <$> m) p
  struct-IsField f p same k = record { local = k.local; deep = <$>-IsDeep f p same k.deep }
