-- ===== src/Process/Watches.antt =====
-- What the controller of a leading process watches.
use mpi_operator.Prelude.{
  ℕ, String, ◌≡◌, refl, sym, ap, subst, inr, true, some, List, [], ◌∷◌, eq_iff, arith,
}
use mpi_operator.Prelude.Int.{to_ℕ}
use mpi_operator.Prelude.Assoc.{lookup, insert}
use mpi_operator.Outcome.{Outcome, ok, err, panic, ◌>>=◌}
use mpi_operator.Events.Wiring.{start_workers}
use mpi_operator.Informers.{
  with_namespace, new_shared_informer_factory_with_options, group_job_type, group_job_informer,
  group_job_lister, informer_for, default_informer, make_informer, new_filtered_group_job_informer,
  is_started, start_informer, start_each, start,
}
use mpi_operator.Startup.{ClientSets}
use mpi_operator.Process.Options.{ServerOption}
use mpi_operator.Process.Construct.{new_group_job_controller}
use mpi_operator.Process.{
  Host, Candidate, Leading, Event, job_factory_for, lead_with, run, prepare, process,
}
use mpi_operator.Process.Laws.{was_elected, process_from_leading, IsReady, prepare-IsReady}

-- The controller of a process and its informers of GroupJobs: the lister and the handlers have one
-- informer, which lists and watches the namespace through the client, is in the factory, and is the one
-- that was run, once.
pub record Watches {C W T : Type 0} (client : C) (namespace : String) (l : Leading C W T)
    : Type 0 where
  pub shared : l.controller.lister ≡ l.controller.handled
  pub in_namespace : l.controller.lister.namespace ≡ namespace
  pub by_client : l.controller.lister.client ≡ client
  pub in_factory : lookup group_job_type l.job_factory.informers ≡ some l.controller.lister
  pub run_once : l.job_factory.running ≡ (group_job_type, l.controller.lister) ∷ []

built :
    {A B : Type 0} (r : Outcome (Unit {0})) (x : A) (g : A → B) (m : B)
    → ((r >>= λ _. ok x) >>= λ c. ok (g c)) ≡ ok m
    → g x ≡ m
built (ok u) x g m h = ground arith
built (err e) x g m h = cc
built panic x g m h = cc

module _ {G C W T : Type 0} (host : Host G C) (opt : ServerOption) where
  -- The factory is limited to the namespace of the options; the empty one stands for all.
  limited_factory :
      (sets : ClientSets C)
      → job_factory_for {W = W} {T = T} host opt sets
        ≡ new_shared_informer_factory_with_options sets.group_job 0
            (with_namespace opt.namespace ∷ [])
  unfolding job_factory_for with_namespace new_shared_informer_factory_with_options
  limited_factory sets = ground (arith, eq_iff opt.namespace "")

  run-Watches :
      (sets : ClientSets C) (m : Leading C W T)
      → run host opt sets ≡ ok m
      → Watches sets.group_job opt.namespace m
  unfolding run new_group_job_controller group_job_informer group_job_lister informer_for
      default_informer make_informer new_filtered_group_job_informer start start_each start_informer
      is_started lookup insert with_namespace new_shared_informer_factory_with_options
  run-Watches sets m h =
      subst (Watches sets.group_job opt.namespace) (built _ _ _ m (rw (limited_factory sets) at h))
        (record {
          shared = refl;
          in_namespace = refl;
          by_client = refl;
          in_factory = refl;
          run_once = refl;
        })

  run_workers :
      (sets : ClientSets C) (m : Leading C W T)
      → run host opt sets ≡ ok m
      → m.workers ≡ to_ℕ opt.threadiness
  unfolding run new_group_job_controller
  run_workers sets m h = sym (ap (λ x. x.workers) (built _ _ (lead_with host opt) m h))

  numbered-Watches :
      {client : C} {namespace : String} (m : Leading C W T) (n : ℕ)
      → Watches client namespace m
      → Watches client namespace (record m { workers = n })
  numbered-Watches m n w = record {
    shared = w.shared;
    in_namespace = w.in_namespace;
    by_client = w.by_client;
    in_factory = w.in_factory;
    run_once = w.run_once;
  }

  -- Whatever the election reports: a process that runs a controller was elected; before, it was not
  -- asked for its version, and the list of GroupJobs in the namespace of the options did not say that
  -- the resource is missing; the lock of the election is in the lock's namespace of the options. The
  -- caches had synced when the workers were started. The lister and the handlers of the controller have
  -- one informer, for this namespace and with the client for GroupJobs, which was run once.
  pub leading_process :
      (events : List Event) (l : Leading C W T)
      → (process host opt events).leading ≡ some l
      → (k : Candidate C) × (was_elected events ≡ true)
        × (prepare host opt ≡ inr k)
        × IsReady host opt k
        × (start_workers l.controller.gang host.has_synced (to_ℕ opt.threadiness) ≡ ok l.workers)
        × Watches k.sets.group_job opt.namespace l
  unfolding process
  leading_process events l h =
      let (elected, (k, ready, (n, m, made, started, same))) =
        process_from_leading host opt (prepare host opt) events l h in
      (
        k,
        elected,
        ready,
        prepare-IsReady host opt k ready,
        subst
            (λ x.
              start_workers x.controller.gang host.has_synced (to_ℕ opt.threadiness) ≡ ok x.workers)
            (sym same)
            (subst (λ t. start_workers m.controller.gang host.has_synced t ≡ ok n)
              (run_workers k.sets m made) started),
        subst (Watches k.sets.group_job opt.namespace) (sym same)
            (numbered-Watches m n (run-Watches k.sets m made)),
      )
