-- ===== src/Informers/Runs.antt =====
-- The informers of a factory are run once.
use mpi_operator.Prelude.{ℕ, ◌+◌, String, ◌≡◌, [], ◌∷◌, ◌==◌}
use mpi_operator.Prelude.Tests.{if◌then◌else◌}
use mpi_operator.Prelude.Assoc.{Assoc}
use mpi_operator.Informers.{Factory, is_started}

-- How often `Run` of an informer of a type was begun.
abbrev pub runs {ℓ} : {I : Type ℓ} → String → Assoc I → ℕ
runs t [] = 0
runs t ((s, i) ∷ ss) = (if s == t then 1 else 0) + runs t ss

module _ {C W T : Type 0} where
  -- An informer was run once if it is marked as started, and else not.
  abbrev IsCounted : Factory C W T → Type 0
  IsCounted f = (t : String) → runs t f.running ≡ (if is_started f t then 1 else 0)

  -- An option that does not start informers, as those of the factory's package do not.
  abbrev pub IsSetting : (Factory C W T → Factory C W T) → Type 0
  IsSetting option =
      (f : Factory C W T)
      → ((option f).running ≡ f.running) × ((option f).started_informers ≡ f.started_informers)
