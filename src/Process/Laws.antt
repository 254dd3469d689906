-- ===== src/Process/Laws.antt =====
-- The controller runs in the leader alone, and on the informer that watches the namespace of the options.
use mpi_operator.Prelude.{
  ℕ, String, ◌≡◌, refl, sym, Bool, true, false, ◌⊎◌, inl, inr, Option, none, some, some-injective,
  List, [], ◌∷◌, arith,
}
use mpi_operator.Prelude.Tests.{if◌then◌else◌, is_nil, Bool-cases}
use mpi_operator.Outcome.{Error, Outcome, ok, err, panic}
use mpi_operator.Events.Wiring.{start_workers}
use mpi_operator.Controller.World.{Answer, found, failed}
use mpi_operator.Startup.{ClientSets, check_crd_exists}
use mpi_operator.Process.Options.{ServerOption}
use mpi_operator.Process.{
  End, Host, Candidate, identify, register, check_clients, connect, prepare, Leading, Event,
  started_leading, stopped_leading, new_leader, watch_failed, election_over, Process, run,
  run_controller, begin, handle, step, elect, process_from,
}

-- The election made the process a leader.
abbrev pub was_elected : List Event → Bool
was_elected [] = false
was_elected (started_leading ∷ es) = true
was_elected (_ ∷ es) = was_elected es

was_elected-cons :
    (e : Event) (es : List Event)
    → (was_elected (e ∷ []) ≡ true) ⊎ (was_elected es ≡ true)
    → was_elected (e ∷ es) ≡ true
was_elected-cons started_leading es h = refl
was_elected-cons stopped_leading es (inl h) = cc
was_elected-cons stopped_leading es (inr h) = h
was_elected-cons (new_leader identity) es (inl h) = cc
was_elected-cons (new_leader identity) es (inr h) = h
was_elected-cons (watch_failed denied) es (inl h) = cc
was_elected-cons (watch_failed denied) es (inr h) = h
was_elected-cons election_over es (inl h) = cc
was_elected-cons election_over es (inr h) = h

module _ {G C W T : Type 0} (host : Host G C) (opt : ServerOption) where
  -- What is known of the controller that a process runs.
  abbrev pub Runs : ClientSets C → Leading C W T → Type 0
  Runs sets l =
      (n : ℕ) × (m : Leading C W T) × (run host opt sets ≡ ok m)
      × (start_workers m.controller.gang host.has_synced m.workers ≡ ok n)
      × (l ≡ record m { workers = n })

  run_controller_leading :
      (r : Outcome ℕ) (m : Leading C W T) (p : Process C W T) (l : Leading C W T)
      → (run_controller host opt r m p).leading ≡ some l
      → ((n : ℕ) × (r ≡ ok n) × (l ≡ record m { workers = n })) ⊎ (p.leading ≡ some l)
  unfolding run_controller
  run_controller_leading (ok n) m p l h = inl (n, refl, sym (some-injective _ _ h))
  run_controller_leading (err e) m p l h = inr h
  run_controller_leading panic m p l h = inr h

  begin_leading :
      (sets : ClientSets C) (r : Outcome (Leading C W T)) (p : Process C W T) (l : Leading C W T)
      → run host opt sets ≡ r
      → (begin host opt r p).leading ≡ some l
      → Runs sets l ⊎ (p.leading ≡ some l)
  unfolding begin
  begin_leading sets (ok m) p l made h =
      elim (run_controller_leading (start_workers m.controller.gang host.has_synced m.workers) m
        (record p { is_leader = true }) l h) [
          | inl (n, started, same) ↦ inl (n, m, made, started, same)
          | inr before ↦ inr before
        ]
  begin_leading sets (err e) p l made h = inr h
  begin_leading sets panic p l made h = inr h

  watch_leading :
      (b : Bool) (p : Process C W T) (e : End) (l : Leading C W T)
      → (if b then record p { ended = some e } else p).leading ≡ some l
      → p.leading ≡ some l
  watch_leading true p e l h = h
  watch_leading false p e l h = h

  -- A call of the election brings no other controller than `run` does.
  handle_leading :
      (sets : ClientSets C) (e : Event) (p : Process C W T) (l : Leading C W T)
      → (handle host opt sets e p).leading ≡ some l
      → ((was_elected (e ∷ []) ≡ true) × Runs sets l) ⊎ (p.leading ≡ some l)
  unfolding handle
  handle_leading sets started_leading p l h = elim (begin_leading sets _ p l refl h) [
    | inl new ↦ inl (refl, new)
    | inr before ↦ inr before
  ]
  handle_leading sets stopped_leading p l h = inr h
  handle_leading sets (new_leader identity) p l h = inr h
  handle_leading sets (watch_failed denied) p l h = inr (watch_leading _ p _ l h)
  handle_leading sets election_over p l h = inr h

  step_leading :
      (sets : ClientSets C) (e : Event) (p : Process C W T) (l : Leading C W T)
      → (step host opt sets e p).leading ≡ some l
      → ((was_elected (e ∷ []) ≡ true) × Runs sets l) ⊎ (p.leading ≡ some l)
  unfolding step
  step_leading sets e p l h = of_branch (is_nil p.ended) h
    where
      of_branch :
          (b : Bool)
          → (if b then handle host opt sets e p else p).leading ≡ some l
          → ((was_elected (e ∷ []) ≡ true) × Runs sets l) ⊎ (p.leading ≡ some l)
      of_branch true k = handle_leading sets e p l k
      of_branch false k = inr k

  elect_leading :
      (sets : ClientSets C) (es : List Event) (p : Process C W T) (l : Leading C W T)
      → (elect host opt sets es p).leading ≡ some l
      → ((was_elected es ≡ true) × Runs sets l) ⊎ (p.leading ≡ some l)
  unfolding elect
  elect_leading sets [] p l h = inr h
  elect_leading sets (e ∷ es) p l h = elim (elect_leading sets es (step host opt sets e p) l h) [
    | inl (elected, runs) ↦ inl (was_elected-cons e es (inr elected), runs)
    | inr at_step ↦ elim (step_leading sets e p l at_step) [
      | inl (elected, runs) ↦ inl (was_elected-cons e es (inl elected), runs)
      | inr before ↦ inr before
    ]
  ]

  pub process_from_leading :
      (c : End ⊎ Candidate C) (es : List Event) (l : Leading C W T)
      → (process_from host opt c es).leading ≡ some l
      → (was_elected es ≡ true) × ((k : Candidate C) × (c ≡ inr k) × Runs k.sets l)
  unfolding process_from
  process_from_leading (inl end) es l h = cc
  process_from_leading (inr c) es l h = elim (elect_leading c.sets es _ l h) [
    | inl (elected, runs) ↦ (elected, (c, refl, runs))
    | inr before ↦ cc
  ]

module _ {G C : Type 0} (host : Host G C) (opt : ServerOption) where
  -- What `Run` has found before the election.
  pub record IsReady (k : Candidate C) : Type 0 where
    pub no_version_asked : opt.print_version ≡ false
    pub resource_there :
        check_crd_exists host.is_status_error (host.list_group_jobs k.sets.group_job opt.namespace)
        ≡ true
    pub own_lock : k.lock_namespace ≡ opt.lock_namespace

  identify-Ready :
      (sets : ClientSets C) (a : Answer String) (k : Candidate C)
      → identify host opt sets a ≡ inr k
      → (k.sets ≡ sets) × (k.lock_namespace ≡ opt.lock_namespace)
  unfolding identify
  identify-Ready sets (failed e) k h = cc
  identify-Ready sets (found name) k h = (ground arith, ground arith)

  register-Ready :
      (sets : ClientSets C) (o : Option Error) (k : Candidate C)
      → register host opt sets o ≡ inr k
      → (k.sets ≡ sets) × (k.lock_namespace ≡ opt.lock_namespace)
  unfolding register
  register-Ready sets (some e) k h = cc
  register-Ready sets none k h = identify-Ready sets host.hostname k h

  check_clients-IsReady :
      (r : Outcome (ClientSets C)) (k : Candidate C)
      → opt.print_version ≡ false
      → check_clients host opt r ≡ inr k
      → IsReady k
  unfolding check_clients
  check_clients-IsReady (err e) k asked h = cc
  check_clients-IsReady panic k asked h = cc
  check_clients-IsReady (ok sets) k asked h = elim (Bool-cases is_there) [
    | inl there ↦
        let (same, own) = register-Ready sets host.add_to_scheme k (rw there at h) in
        record { no_version_asked = asked; resource_there = rw same there; own_lock = own }
    | inr missing ↦ cc (rw missing at h)
  ]
    where
      is_there : Bool
      is_there =
          check_crd_exists host.is_status_error (host.list_group_jobs sets.group_job opt.namespace)

  connect-IsReady :
      (a : Answer G) (k : Candidate C)
      → opt.print_version ≡ false
      → connect host opt a ≡ inr k
      → IsReady k
  unfolding connect
  connect-IsReady (failed e) k asked h = cc
  connect-IsReady (found base) k asked h = check_clients-IsReady _ k asked h

  pub prepare-IsReady : (k : Candidate C) → prepare host opt ≡ inr k → IsReady k
  unfolding prepare
  prepare-IsReady k h = elim (Bool-cases opt.print_version) [
    | inl asked ↦ cc (simp asked at h)
    | inr not_asked ↦ connect-IsReady _ k not_asked (simp not_asked at h)
  ]
