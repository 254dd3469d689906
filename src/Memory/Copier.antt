-- ===== src/Memory/Copier.antt =====
-- Reading an object by its pointers, copying it, and what makes a copy deep. A struct is read and
-- copied field by field.
use mpi_operator.Prelude.{◌≤◌, ◌≡◌, refl, ap, ◌∙◌, Option, none, some, List, arith}
use mathlib.Core.Option
use mpi_operator.Prelude.Tests.{length}
use mpi_operator.Memory.Heap.{AgreesFrom, Alloc, ◌>>=◌, pure}

-- What is read is all that can be reached, with the pointers forgotten.
abbrev pub Reader : Type 0 → Type 0 → Type 0
Reader C V = List C → Option V

abbrev pub both_of : {V W : Type 0} → Option V → Option W → Option (V × W)
both_of none w = none
both_of (some v) none = none
both_of (some v) (some w) = some (v, w)

pub both_of-eq_some :
    {V W : Type 0} (r : Option V) (s : Option W) (v : V) (w : W)
    → both_of r s ≡ some (v, w)
    → (r ≡ some v) × (s ≡ some w)
both_of-eq_some none s v w e = cc
both_of-eq_some (some a) none v w e = cc
both_of-eq_some (some a) (some b) v w e = (ground arith, ground arith)

map-eq_some :
    {V W : Type 0} (f : V → W) (o : Option V) {w : W}
    → Option.map f o ≡ some w
    → (v : V) × (o ≡ some v) × (f v ≡ w)
map-eq_some f none e = cc
map-eq_some f (some v) e = (v, refl, ground arith)

module _ {C : Type 0} where
  abbrev pub give : {V : Type 0} → V → Reader C V
  give v h = some v

  infixr 6 ◌&◌
  abbrev pub ◌&◌ : {V W : Type 0} → Reader C V → Reader C W → Reader C (V × W)
  ◌&◌ r s h = both_of (r h) (s h)

  -- One copy, then another.
  infixr 6 ◌⊗◌
  abbrev pub ◌⊗◌ : {A B : Type 0} → Alloc C A → Alloc C B → Alloc C (A × B)
  m ⊗ n = do a ← m; b ← n; pure (a, b)

  infixr 5 ◌<$>◌
  abbrev pub ◌<$>◌ : {A B : Type 0} → (A → B) → Alloc C A → Alloc C B
  f <$> m = do a ← m; pure (f a)

  -- The memory `h'` has all of `h`, and at least at the new addresses what `r` reads as `v`.
  pub record Copied {V : Type 0} (h : List C) (v : V) (r : Reader C V) (h' : List C) : Type 0 where
    pub kept : AgreesFrom 0 h h'
    pub longer : length h ≤ length h'
    pub fresh : (k : List C) → AgreesFrom (length h) h' k → r k ≡ some v

  -- Reading `r` depends on the objects that are there alone.
  abbrev pub IsLocal : {V : Type 0} → Reader C V → Type 0
  IsLocal {V} r = (h k : List C) (v : V) → AgreesFrom 0 h k → r h ≡ some v → r k ≡ some v

  -- Where `r` reads a value, `m` makes a copy that reads the same, and is made of new objects.
  abbrev pub IsDeep : {V M : Type 0} → Reader C V → Alloc C M → (M → Reader C V) → Type 0
  IsDeep {V} {M} r m o =
      (h : List C) (v : V)
      → r h ≡ some v
      → (a : M) × (h' : List C) × (m h ≡ some (a, h')) × Copied h v (o a) h'

  pub >>=_step :
      {A B : Type 0} (m : Alloc C A) (f : A → Alloc C B) {h h' : List C} {a : A}
      → m h ≡ some (a, h')
      → (m >>= f) h ≡ f a h'
  >>=_step m f e = rw (e, ◌>>=◌) refl

  -- A value without pointers.
  pub give-IsLocal : {V : Type 0} (v : V) → IsLocal (give v)
  give-IsLocal v h k w a e = e

  pub pure-IsDeep :
      {V M : Type 0} (v : V) (m : M) (o : M → Reader C V)
      → o m ≡ give v
      → IsDeep (give v) (pure m) o
  pure-IsDeep v m o same h w e = (
    m,
    h,
    refl,
    record {
      kept = λ a c d g. g;
      longer = omega arith;
      fresh = λ k agrees. ap (λ q. q k) same ∙ e;
    },
  )

  module _ {V W : Type 0} {r : Reader C V} {s : Reader C W} where
    pub &-IsLocal : IsLocal r → IsLocal s → IsLocal (r & s)
    &-IsLocal lr ls h k (v, w) a e =
        let (p, q) = both_of-eq_some (r h) (s h) v w e in rw (lr h k v a p) (rw (ls h k w a q) refl)

    pub ⊗-IsDeep :
        {A B : Type 0} {m : Alloc C A} {n : Alloc C B} {o : A → Reader C V} {p : B → Reader C W}
        → IsDeep r m o
        → IsLocal s
        → IsDeep s n p
        → IsDeep (r & s) (m ⊗ n) (λ x. o x.0 & p x.1)
    ⊗-IsDeep {m} {n} dm ls dn h (v, w) e =
        let (er, es) = both_of-eq_some (r h) (s h) v w e in
        let (a, h1, em, cm) = dm h v er in
        let (b, h2, en, cn) = dn h1 w (ls h h1 w cm.kept es) in
        (
          (a, b),
          h2,
          >>=_step m _ em ∙ >>=_step n _ en,
          record {
            kept = λ x c d g. cn.kept x c (omega arith) (cm.kept x c (omega arith) g);
            longer = omega (arith, cm.longer, cn.longer);
            fresh = λ k agrees.
                rw (cm.fresh k (λ x c d g. agrees x c d (cn.kept x c (omega arith) g)))
                  (rw (cn.fresh k (λ x c d g. agrees x c (omega (arith, cm.longer)) g)) refl);
          },
        )

  pub <$>-IsDeep :
      {V A B : Type 0} {r : Reader C V} {m : Alloc C A} {o : A → Reader C V} (f : A → B)
      (p : B → Reader C V)
      → ((a : A) → p (f a) ≡ o a)
      → IsDeep r m o
      → IsDeep r (f <$> m) p
  <$>-IsDeep {m} f p same d h v e =
      let (a, h', em, c) = d h v e in
      (
        f a,
        h',
        >>=_step m _ em,
        record {
          kept = c.kept;
          longer = c.longer;
          fresh = λ k agrees. ap (λ q. q k) (same a) ∙ c.fresh k agrees;
        },
      )

  infixr 5 ◌<&>◌
  -- What is read, seen in another way.
  abbrev pub ◌<&>◌ : {V W : Type 0} → (V → W) → Reader C V → Reader C W
  ◌<&>◌ f r h = Option.map f (r h)

  module _ {V W : Type 0} (f : V → W) {r : Reader C V} where
    pub <&>-IsLocal : IsLocal r → IsLocal (f <&> r)
    <&>-IsLocal l h k w a e =
        let (v, er, ew) = map-eq_some f (r h) e in rw (l h k v a er) (ap some ew)

    pub <&>-IsDeep :
        {M : Type 0} {m : Alloc C M} {o : M → Reader C V}
        → IsDeep r m o
        → IsDeep (f <&> r) m (λ a. f <&> o a)
    <&>-IsDeep d h w e =
        let (v, er, ew) = map-eq_some f (r h) e in
        let (a, h', em, c) = d h v er in
        (
          a,
          h',
          em,
          record {
            kept = c.kept;
            longer = c.longer;
            fresh = λ k agrees. rw (c.fresh k agrees) (ap some ew);
          },
        )

-- `copy` makes deep copies of what `read` reads.
pub record IsCopier {C V M : Type 0} (read : M → Reader C V) (copy : M → Alloc C M) : Type 0 where
  pub local : (m : M) → IsLocal (read m)
  pub deep : (m : M) → IsDeep (read m) (copy m) read
