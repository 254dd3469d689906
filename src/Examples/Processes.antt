-- ===== src/Examples/Processes.antt =====
-- A process that becomes the leader, and the factory of its informers.
use mpi_operator.Prelude.{String, false, true, ◌≡◌, refl, some, none, inr, List, [], ◌∷◌}
use mpi_operator.Prelude.Int.{to_ℕ}
use mpi_operator.Prelude.Assoc.{lookup, insert}
use mpi_operator.Outcome.{ok}
use mpi_operator.Api.{group_name, group_version}
use mpi_operator.PodGroup.Control.{new_gang_scheduler}
use mpi_operator.Events.Wiring.{start_workers, synced_before_start}
use mpi_operator.Process.Laws.{was_elected, IsReady}
use mpi_operator.Controller.World.{found}
use mpi_operator.Informers.{
  Informer, Factory, with_namespace, new_shared_informer_factory_with_options, group_job_type,
  group_job_informer, group_job_lister, informer_for, default_informer, make_informer,
  new_filtered_group_job_informer, is_started, start_informer, start_each, start, for_resource,
}
use mpi_operator.Informers.Calls.{Call, informer_of, start_all, shut_down, apply_calls}
use mpi_operator.Informers.Shared.{group_job_informer_shared}
use mpi_operator.Startup.{Constructors, create_client_sets, gang_clients, check_crd_exists}
use mpi_operator.Process.Options.{default_options}
use mpi_operator.Process.Construct.{new_group_job_controller, set_error_handlers}
use mpi_operator.Process.{
  Host, Candidate, Leading, Event, started_leading, new_leader, run_controller, process, prepare,
}
use mpi_operator.Process.Watches.{Watches, leading_process}

abbrev clients : Constructors String
clients = record {
  kube = λ agent. found agent;
  group_job = found "group-jobs";
  volcano_for = λ agent. found agent;
  scheduler_plugins_for = λ agent. found agent;
}

abbrev host : Host String String
host = record {
  kubeconfig_env = "";
  build_config = λ master kubeconfig. found "config";
  constructors = λ config. clients;
  list_group_jobs = λ client namespace. found tt;
  is_status_error = λ e. true;
  add_to_scheme = none;
  hostname = found "host";
  new_uuid = "1";
  set_handler = λ informer. none;
  has_synced = λ informer. true;
}

abbrev job_informer : Informer String String String
job_informer = record {
  address = 0;
  client = "group-jobs";
  namespace = "default";
  resync_period = 0;
  tweak_list_options = none;
  transform = none;
}

abbrev job_factory : Factory String String String
job_factory = record {
  client = "group-jobs";
  namespace = "default";
  tweak_list_options = none;
  default_resync = 0;
  custom_resync = [];
  transform = none;
  informers = (group_job_type, job_informer) ∷ [];
  started_informers = [];
  shutting_down = false;
  made = 1;
  running = [];
}

abbrev leader : Leading String String String
leader = record {
  controller = record {
    gang = none;
    pod_group_ctrl = none;
    lister = job_informer;
    handled = job_informer;
    factory = job_factory;
  };
  kube_namespace = "default";
  job_factory = record job_factory {
    started_informers = (group_job_type, true) ∷ [];
    running = (group_job_type, job_informer) ∷ [];
  };
  started_ctrl = none;
  workers = 2;
}

abbrev elections : List Event
elections = new_leader "other_2" ∷ started_leading ∷ []

leads :
    (process {W = String} {T = String} host (default_options "default") elections).leading
    ≡ some leader
unfolding process default_options create_client_sets gang_clients check_crd_exists run_controller
    start_workers synced_before_start new_group_job_controller set_error_handlers new_gang_scheduler
    group_job_informer group_job_lister informer_for default_informer make_informer
    new_filtered_group_job_informer start start_each start_informer is_started lookup insert
    with_namespace new_shared_informer_factory_with_options
leads = refl

leading_process_example :
    (k : Candidate String) × (was_elected elections ≡ true)
    × (prepare host (default_options "default") ≡ inr k)
    × IsReady host (default_options "default") k
    × (start_workers leader.controller.gang host.has_synced
          (to_ℕ (default_options "default").threadiness)
        ≡ ok leader.workers)
    × Watches k.sets.group_job (default_options "default").namespace leader
leading_process_example = leading_process host (default_options "default") elections leader leads

abbrev calls : List (Call String String String)
calls =
    informer_of group_job_type (default_informer job_factory)
    ∷ start_all
    ∷ shut_down
    ∷ start_all
    ∷ []

group_job_informer_shared_example :
    (group_job_informer (apply_calls calls (group_job_informer job_factory).1)
      ≡ ((group_job_informer job_factory).0, apply_calls calls (group_job_informer job_factory).1))
    × (group_job_lister (apply_calls calls (group_job_informer job_factory).1) ≡ (
      (group_job_informer job_factory).0,
      apply_calls calls (group_job_informer job_factory).1,
    ))
    × (for_resource group_name group_version "groupjobs"
          (apply_calls calls (group_job_informer job_factory).1)
        ≡ ok (
          (group_job_informer job_factory).0,
          apply_calls calls (group_job_informer job_factory).1,
        ))
group_job_informer_shared_example = group_job_informer_shared calls job_factory

abbrev made : Factory String String String
made = new_shared_informer_factory_with_options "group-jobs" 0 (with_namespace "default" ∷ [])
