-- ===== src/Process.antt =====
-- The process (Run of cmd/group-operator/app/server.go): what it does before the election of a leader,
-- and what it does when the election calls back. The host and the libraries answer as a parameter.
-- A health check and events are left out.
pub mod Options
pub mod Construct
pub mod Laws
pub mod Watches
use mpi_operator.Prelude.{
  ℕ, String, Bool, true, false, not, ◌&&◌, ◌⊎◌, inl, inr, Option, none, some, List, [], ◌∷◌, ◌==◌,
}
use mpi_operator.Prelude.Tests.{if◌then◌else◌, is_nil, ◌⧺◌}
use mpi_operator.Prelude.Int.{ℤ, to_ℕ}
use mpi_operator.Outcome.{Error, error_text, failure, Outcome, ok, err, panic, ◌>>=◌}
use mpi_operator.Controller.World.{Answer, found, failed}
use mpi_operator.Events.Wiring.{Source, start_workers}
use mpi_operator.Informers.{
  Factory, with_namespace, new_shared_informer_factory_with_options, start,
}
use mpi_operator.Startup.{Constructors, ClientSets, create_client_sets, check_crd_exists}
use mpi_operator.Process.Options.{ServerOption}
use mpi_operator.Process.Construct.{PodGroupCtrl, Controller, new_group_job_controller}

-- How the process ends: `Run` returns an error, `os.Exit`, or `klog.Fatalf`.
pub data End : Type 0 where
  returned : Error → End
  exited : ℕ → End
  fatal : String → End

-- rest.Config, made from the flags and then given its limits.
pub record RestConfig (G : Type 0) : Type 0 where
  pub base : G
  pub qps : ℤ
  pub burst : ℤ

pub record Host (G C : Type 0) : Type 0 where
  -- the variable KUBECONFIG
  pub kubeconfig_env : String
  pub build_config : (master kubeconfig : String) → Answer G
  pub constructors : RestConfig G → Constructors C
  pub list_group_jobs : C → (namespace : String) → Answer (Unit {0})
  pub is_status_error : Error → Bool
  pub add_to_scheme : Option Error
  pub hostname : Answer String
  pub new_uuid : String
  -- of the informers
  pub set_handler : Source → Option Error
  pub has_synced : Source → Bool

-- A process that takes part in the election.
pub record Candidate (C : Type 0) : Type 0 where
  pub sets : ClientSets C
  pub identity : String
  pub lock_namespace : String

module _ {G C : Type 0} (host : Host G C) (opt : ServerOption) where
  -- The variable overrides the option.
  abbrev pub kubeconfig_of : String
  kubeconfig_of = if host.kubeconfig_env == "" then opt.kubeconfig else host.kubeconfig_env

  abbrev with_limits : G → RestConfig G
  with_limits base = record { base = base; qps = opt.qps; burst = opt.burst }

  -- The identity in the election: the host's name and a uniquifier.
  pub identify : ClientSets C → Answer String → End ⊎ Candidate C
  identify sets (failed e) = inl (returned (failure ("failed to get hostname: " ⧺ error_text e)))
  identify sets (found name) = inr (record {
    sets = sets;
    identity = name ⧺ "_" ⧺ host.new_uuid;
    lock_namespace = opt.lock_namespace;
  })

  pub register : ClientSets C → Option Error → End ⊎ Candidate C
  unfolding identify
  register sets (some e) = inl (returned (failure ("CoreV1 Add Scheme failed: " ⧺ error_text e)))
  register sets none = identify sets host.hostname

  pub check_clients : Outcome (ClientSets C) → End ⊎ Candidate C
  unfolding register check_crd_exists
  check_clients (err e) = inl (returned e)
  check_clients panic = inl (fatal "panic")
  check_clients (ok sets) =
      if check_crd_exists host.is_status_error (host.list_group_jobs sets.group_job opt.namespace)
      then register sets host.add_to_scheme
      else inl (exited 1)

  pub connect : Answer G → End ⊎ Candidate C
  unfolding check_clients
  connect (failed e) = inl (fatal ("Error building kubeConfig: " ⧺ error_text e))
  connect (found base) =
      check_clients
        (create_client_sets (host.constructors (with_limits base)) opt.gang_scheduling_name)

  -- `Run` up to the election.
  pub prepare : End ⊎ Candidate C
  unfolding connect
  prepare =
      if opt.print_version
      then inl (exited 0)
      else connect (host.build_config opt.master_url kubeconfig_of)

-- What runs in the leader: the controller, the informers that were begun, the workers.
pub record Leading (C W T : Type 0) : Type 0 where
  pub controller : Controller C W T
  pub kube_namespace : String
  pub job_factory : Factory C W T
  pub started_ctrl : Option (PodGroupCtrl C)
  pub workers : ℕ

-- What the election reports.
pub data Event : Type 0 where
  started_leading stopped_leading : Event
  new_leader : (identity : String) → Event
  -- an informer's watch failed; `denied` if it was unauthorized or forbidden
  watch_failed : (denied : Bool) → Event
  -- `RunOrDie` returned
  election_over : Event

pub record Process (C W T : Type 0) : Type 0 where
  pub leading : Option (Leading C W T)
  pub is_leader : Bool
  pub ended : Option End

module _ {G C W T : Type 0} (host : Host G C) (opt : ServerOption) where
  -- The factory of the informers of GroupJobs, limited to the namespace of the options if there is one.
  pub job_factory_for : ClientSets C → Factory C W T
  job_factory_for sets =
      new_shared_informer_factory_with_options sets.group_job 0
        (if opt.namespace == "" then [] else with_namespace opt.namespace ∷ [])

  abbrev lead_with : Controller C W T → Leading C W T
  lead_with controller = record {
    controller = controller;
    kube_namespace = opt.namespace;
    job_factory = start controller.factory;
    started_ctrl = controller.pod_group_ctrl;
    workers = to_ℕ opt.threadiness;
  }

  -- The function `run`, up to the end of `controller.Run`.
  pub run : ClientSets C → Outcome (Leading C W T)
  unfolding job_factory_for
  run sets =
      new_group_job_controller sets (job_factory_for sets) opt.namespace opt.gang_scheduling_name
        host.set_handler
      >>= λ controller. ok (lead_with controller)

  -- `controller.Run`, which returns at once if the caches do not sync.
  unfoldable pub run_controller : Outcome ℕ → Leading C W T → Process C W T → Process C W T
  run_controller (ok n) l p = record p { leading = some (record l { workers = n }) }
  run_controller (err e) l p = record p {
    ended = some (fatal ("Error running controller: " ⧺ error_text e));
  }
  run_controller panic l p = record p { ended = some (fatal "panic") }

  pub begin : Outcome (Leading C W T) → Process C W T → Process C W T
  unfolding run_controller
  begin (ok l) p =
      run_controller (start_workers l.controller.gang host.has_synced l.workers) l
        (record p { is_leader = true })
  begin (err e) p = record p { ended = some (fatal "Failed to setup the controller") }
  begin panic p = record p { ended = some (fatal "panic") }

  -- The callbacks of the election, and the error handlers of the informers.
  pub handle : ClientSets C → Event → Process C W T → Process C W T
  unfolding run begin
  handle sets started_leading p = begin (run sets) p
  handle sets stopped_leading p = record p {
    is_leader = false;
    ended = some (fatal "Leader election stopped");
  }
  handle sets (new_leader identity) p = p
  handle sets (watch_failed denied) p =
      if denied && not (is_nil p.leading)
      then record p { ended = some (fatal "Unable to sync cache for informer") }
      else p
  handle sets election_over p = record p {
    ended = some (returned (failure "finished without leader elect"));
  }

  -- Nothing happens in a process that has ended.
  pub step : ClientSets C → Event → Process C W T → Process C W T
  unfolding handle
  step sets e p = if is_nil p.ended then handle sets e p else p

  pub elect : ClientSets C → List Event → Process C W T → Process C W T
  unfolding step
  elect sets [] p = p
  elect sets (e ∷ es) p = elect sets es (step sets e p)

  abbrev pub waiting : Process C W T
  waiting = record { leading = none; is_leader = false; ended = none }

  pub process_from : End ⊎ Candidate C → List Event → Process C W T
  unfolding elect
  process_from (inl end) events = record { leading = none; is_leader = false; ended = some end }
  process_from (inr c) events = elect c.sets events waiting

  -- The process, whatever the election reports.
  unfoldable pub process : List Event → Process C W T
  unfolding process_from prepare
  process events = process_from (prepare host opt) events

-- `main`: an error that `Run` returns is fatal, too.
main_end : End → End
main_end (returned e) = fatal (error_text e)
main_end end = end
