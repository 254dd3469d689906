-- ===== src/Prelude/Assoc.antt =====
-- Go maps with text keys, as association lists. The order of entries is a representation: the
-- code reads maps by key, or loops over them where the order is stated.
use Prim.Native.String.{String}
use mathlib.Core.Path.{◌≡◌, refl}
use mathlib.Core.Option.{Option, none, some}
use mathlib.Core.List.{List, [], ◌∷◌}
use native.Mathlib.Omega.{arith}
use text.Mathlib.Text.{◌==◌}
use text.Mathlib.TextEquality.{eq_iff}
use mpi_operator.Prelude.Tests.{if◌then◌else◌}

abbrev pub Assoc {ℓ} : Type ℓ → Type ℓ
Assoc V = List (String × V)

module _ {ℓ} {V : Type ℓ} where
  -- `m[wanted]`, with the test of its second result
  unfoldable pub lookup : String → Assoc V → Option V
  lookup wanted [] = none
  lookup wanted ((name, content) ∷ others) =
      if name == wanted then some content else lookup wanted others

  -- `m[name] = content`: an entry stays in its place, a new one is the last.
  unfoldable pub insert : String → V → Assoc V → Assoc V
  insert name content [] = (name, content) ∷ []
  insert name content ((other, old) ∷ others) =
      let rest = insert name content others in
      if other == name then (name, content) ∷ others else (other, old) ∷ rest

  pub lookup-insert :
      (name wanted : String) (content : V) (entries : Assoc V)
      → lookup wanted (insert name content entries)
        ≡ (if name == wanted then some content else lookup wanted entries)
  unfolding lookup insert
  lookup-insert name wanted content [] = refl
  lookup-insert name wanted content ((other, old) ∷ others) =
      let tail_holds = lookup-insert name wanted content others in
      ground (arith, eq_iff other wanted, eq_iff other name, eq_iff name wanted, tail_holds)

  -- `for k, v := range from { to[k] = v }`
  pub insert_all : Assoc V → Assoc V → Assoc V
  insert_all [] to = to
  insert_all ((k, v) ∷ from) to = insert_all from (insert k v to)

  -- Writing the value that is there changes nothing.
  pub insert_same : (k : String) (v : V) (m : Assoc V) → lookup k m ≡ some v → insert k v m ≡ m
  unfolding lookup insert
  insert_same k v [] h = ground arith
  insert_same k v ((j, w) ∷ m) h = ground (arith, eq_iff j k, insert_same k v m)
