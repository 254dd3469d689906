-- ===== src/Informers/Calls.antt =====
-- The calls that change a factory, in any order.
use mpi_operator.Prelude.{ℕ, String, Bool, true, false, List, [], ◌∷◌}
use mpi_operator.Prelude.Tests.{if◌then◌else◌}
use mpi_operator.Informers.{Informer, Factory, start, shutdown, informer_for}

-- The calls of a factory that change it.
pub data Call (C W T : Type 0) : Type 0 where
  informer_of : (type : String) → (C → (resync address : ℕ) → Informer C W T) → Call C W T
  start_all : Call C W T
  shut_down : Call C W T

module _ {C W T : Type 0} where
  unfoldable pub apply : Call C W T → Factory C W T → Factory C W T
  apply (informer_of type new_func) f = (informer_for type new_func f).1
  apply start_all f = start f
  apply shut_down f = shutdown f

  unfoldable pub apply_calls : List (Call C W T) → Factory C W T → Factory C W T
  unfolding apply
  apply_calls [] f = f
  apply_calls (c ∷ cs) f = apply_calls cs (apply c f)

  pub if_kept :
      (P : Factory C W T → Type 0) {f g : Factory C W T} (b : Bool)
      → P f
      → P g
      → P (if b then f else g)
  if_kept P true p q = p
  if_kept P false p q = q
