-- ===== src/Informers/Shared.antt =====
-- The informers of a factory are shared.
use mpi_operator.Prelude.{
  ℕ, String, ◌≡◌, refl, ap, ◌∙◌, ◌⊎◌, inl, inr, true, false, none, some, List, [], ◌∷◌, ◌==◌,
  eq_iff, arith,
}
use mpi_operator.Prelude.Tests.{Bool-cases, Option-cases}
use mpi_operator.Prelude.Assoc.{Assoc, lookup, insert, lookup-insert}
use mpi_operator.Informers.{
  default_informer, group_job_informer, group_job_lister, group_job_type, for_resource, Informer,
  Factory, start_informer, start_each, start, shutdown, informer_for,
}
use mpi_operator.Api.{group_name, group_version}
use mpi_operator.Outcome.{ok}
use mpi_operator.Informers.Calls.{
  Call, informer_of, start_all, shut_down, apply, apply_calls, if_kept,
}

module _ {C W T : Type 0} where
  lookup-informer_for :
      (t type : String) (new_func : C → ℕ → ℕ → Informer C W T) (f : Factory C W T)
      (i : Informer C W T)
      → lookup t f.informers ≡ some i
      → lookup t (informer_for type new_func f).1.informers ≡ some i
  unfolding informer_for
  lookup-informer_for t type new_func f i there = elim (Option-cases (lookup type f.informers)) [
    | inl is_new ↦ rw (is_new, informer_for) (kept _ (Bool-cases (type == t)) is_new)
    | inr (j, old) ↦ rw (old, informer_for) there
  ]
    where
      kept :
          (j : Informer C W T)
          → (type == t ≡ true) ⊎ (type == t ≡ false)
          → lookup type f.informers ≡ none
          → lookup t (insert type j f.informers) ≡ some i
      kept j c is_new =
          ground (arith, eq_iff type t, lookup-insert type t j f.informers, is_new, there)

  informers-start_each :
      (informers : Assoc (Informer C W T)) (f : Factory C W T)
      → (start_each informers f).informers ≡ f.informers
  unfolding start_each start_informer
  informers-start_each [] f = refl
  informers-start_each ((type, informer) ∷ informers) f =
      informers-start_each informers (start_informer type informer f) ∙ ground arith

  pub informers-start : (f : Factory C W T) → (start f).informers ≡ f.informers
  unfolding start
  informers-start f =
      if_kept (λ g. g.informers ≡ f.informers) f.shutting_down refl
        (informers-start_each f.informers f)

  lookup-apply :
      (t : String) (c : Call C W T) (f : Factory C W T) (i : Informer C W T)
      → lookup t f.informers ≡ some i
      → lookup t (apply c f).informers ≡ some i
  unfolding apply shutdown
  lookup-apply t (informer_of type new_func) f i there =
      lookup-informer_for t type new_func f i there
  lookup-apply t start_all f i there = ap (lookup t) (informers-start f) ∙ there
  lookup-apply t shut_down f i there = there

  lookup-apply_calls :
      (t : String) (cs : List (Call C W T)) (f : Factory C W T) (i : Informer C W T)
      → lookup t f.informers ≡ some i
      → lookup t (apply_calls cs f).informers ≡ some i
  unfolding apply_calls
  lookup-apply_calls t [] f i there = there
  lookup-apply_calls t (c ∷ cs) f i there =
      lookup-apply_calls t cs (apply c f) i (lookup-apply t c f i there)

  informer_for_known :
      (t : String) (new_func : C → ℕ → ℕ → Informer C W T) (f : Factory C W T) (i : Informer C W T)
      → lookup t f.informers ≡ some i
      → informer_for t new_func f ≡ (i, f)
  unfolding informer_for
  informer_for_known t new_func f i there = rw (there, informer_for) refl

  informer_for_recorded :
      (t : String) (new_func : C → ℕ → ℕ → Informer C W T) (f : Factory C W T)
      → lookup t (informer_for t new_func f).1.informers ≡ some (informer_for t new_func f).0
  unfolding informer_for
  informer_for_recorded t new_func f = elim (Option-cases (lookup t f.informers)) [
    | inl is_new ↦
        rw (is_new, informer_for) (lookup-insert t t _ f.informers ∙ rw ((eq_iff t t).1 refl) refl)
    | inr (i, there) ↦ rw (there, informer_for) there
  ]

  -- Whoever asks a factory for the informer of a type after it was made gets the same informer,
  -- whatever was called in between: the lister reads what the handlers are told of. The factory does
  -- not change.
  informer_shared :
      (t : String) (first later : C → ℕ → ℕ → Informer C W T) (cs : List (Call C W T))
      (f : Factory C W T)
      → informer_for t later (apply_calls cs (informer_for t first f).1)
        ≡ ((informer_for t first f).0, apply_calls cs (informer_for t first f).1)
  informer_shared t first later cs f =
      informer_for_known t later _ _ (lookup-apply_calls t cs _ _ (informer_for_recorded t first f))

  -- The informer of GroupJobs that the factory gave once is the one that it gives after any calls: asked for
  -- it again, for the lister, which reads its index, or by the name of the resource. So what
  -- the lister finds is what the handlers of that informer are told of.
  pub group_job_informer_shared :
      (cs : List (Call C W T)) (f : Factory C W T)
      → let i = (group_job_informer f).0 in
        let g = apply_calls cs (group_job_informer f).1 in
        (group_job_informer g ≡ (i, g))
        × (group_job_lister g ≡ (i, g))
        × (for_resource group_name group_version "groupjobs" g ≡ ok (i, g))
  unfolding group_job_informer group_job_lister for_resource
  group_job_informer_shared cs f =
      let e =
        informer_shared group_job_type (default_informer f)
          (default_informer (apply_calls cs (group_job_informer f).1)) cs f in
      (e, e, ap ok e)
