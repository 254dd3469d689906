-- ===== src/Outcome.antt =====
-- Go results: a value, an error, or a run-time panic (a nil pointer, an index out of range).
use mpi_operator.Prelude.{String, ◌≡◌, refl, subst, Bool, true, false, Option, none, some}
use mpi_operator.Prelude.Tests.{◌⧺◌}

-- An error, by its text. `not_found` is one that `apierrors.IsNotFound` accepts.
pub data Error : Type 0 where
  not_found : String → Error
  failure : String → Error

abbrev pub is_not_found : Error → Bool
is_not_found (not_found _) = true
is_not_found (failure _) = false

-- `err.Error()`
abbrev pub error_text : Error → String
error_text (not_found t) = t
error_text (failure t) = t

-- fmt.Errorf with the verb %w: the wrapped error is still found by `IsNotFound`
abbrev pub wrap : String → Error → Error
wrap text (not_found t) = not_found (text ⧺ ": " ⧺ t)
wrap text (failure t) = failure (text ⧺ ": " ⧺ t)

pub data Outcome {ℓ} (A : Type ℓ) : Type ℓ where
  ok : A → Outcome A
  err : Error → Outcome A
  panic : Outcome A

infixl 5 ◌>>=◌
abbrev pub ◌>>=◌ {ℓ κ} : {A : Type ℓ} {B : Type κ} → Outcome A → (A → Outcome B) → Outcome B
ok a >>= f = f a
err e >>= f = err e
panic >>= f = panic

-- `*p`
abbrev pub deref {ℓ} : {A : Type ℓ} → Option A → Outcome A
deref none = panic
deref (some a) = ok a

-- There is a value: no error and no panic.
abbrev pub Succeeds {ℓ} : {A : Type ℓ} → Outcome A → Type ℓ
Succeeds {A} m = (a : A) × (m ≡ ok a)

>>=-Succeeds {ℓ κ} :
    {A : Type ℓ} {B : Type κ} (m : Outcome A) (f : A → Outcome B)
    → Succeeds m
    → ((a : A) → Succeeds (f a))
    → Succeeds (m >>= f)
>>=-Succeeds (ok a) f s k = k a
>>=-Succeeds (err e) f s k = cc (s.1)
>>=-Succeeds panic f s k = cc (s.1)

pub ok-injective {ℓ} : {A : Type ℓ} (a b : A) → ok a ≡ ok b → a ≡ b
ok-injective a b e = cc

-- Every value that is returned has the property.
pub record Yields {ℓ κ} {A : Type ℓ} (P : A → Type κ) (m : Outcome A) : Type (ℓ ⊔ κ) where
  pub yielded : (a : A) → m ≡ ok a → P a

module _ {ℓ κ} {B : Type ℓ} (P : B → Type κ) where
  pub ok-Yields : (b : B) → P b → Yields P (ok b)
  ok-Yields b p = record { yielded = λ c e. subst P (ok-injective b c e) p }

  pub >>=-Yields :
      {A : Type ℓ} (m : Outcome A) (f : A → Outcome B)
      → ((a : A) → Yields P (f a))
      → Yields P (m >>= f)
  >>=-Yields (ok a) f k = k a
  >>=-Yields (err x) f k = record { yielded = λ b e. cc }
  >>=-Yields panic f k = record { yielded = λ b e. cc }

abbrev pub is_ok {ℓ} : {A : Type ℓ} → Outcome A → Bool
is_ok (ok a) = true
is_ok (err e) = false
is_ok panic = false

pub is_ok-Succeeds {ℓ} : {A : Type ℓ} (m : Outcome A) → is_ok m ≡ true → Succeeds m
is_ok-Succeeds (ok a) h = (a, refl)
is_ok-Succeeds (err e) h = cc
is_ok-Succeeds panic h = cc
