-- ===== src/Process/Construct.antt =====
-- The construction of the controller (NewGroupJobControllerWithClock of
-- pkg/controller/mpi_job_controller.go, NewVolcanoCtrl and NewSchedulerPluginsCtrl of
-- pkg/controller/podgroup.go). Of the factories of other packages their namespace is kept.
use mpi_operator.Prelude.{String, Option, none, some, List, [], ◌∷◌}
use mpi_operator.Prelude.Tests.{◌⧺◌}
use mpi_operator.Outcome.{Error, error_text, failure, Outcome, ok, err, ◌>>=◌}
use mpi_operator.PodGroup.Control.{
  GangScheduler, volcano, scheduler_plugins, gang_scheduler_volcano, new_gang_scheduler,
}
use mpi_operator.Events.Wiring.{
  Source, config_maps, secrets, services, jobs, pods, priority_classes, group_jobs,
}
use mpi_operator.Informers.{Informer, Factory, group_job_informer, group_job_lister}
use mpi_operator.Startup.{ClientSets}

-- VolcanoCtrl and SchedulerPluginsCtrl; the factory of the informers is limited to a namespace, or to none.
pub record PodGroupCtrl (C : Type 0) : Type 0 where
  pub client : Option C
  pub factory_namespace : String
  pub scheduler_name : String

module _ {C : Type 0} where
  pub new_volcano_ctrl : Option C → (watch_namespace : String) → PodGroupCtrl C
  new_volcano_ctrl client watch_namespace = record {
    client = client;
    factory_namespace = watch_namespace;
    scheduler_name = gang_scheduler_volcano;
  }

  pub new_scheduler_plugins_ctrl :
      Option C → (watch_namespace scheduler_name : String) → PodGroupCtrl C
  new_scheduler_plugins_ctrl client watch_namespace scheduler_name = record {
    client = client;
    factory_namespace = watch_namespace;
    scheduler_name = scheduler_name;
  }

  pub new_ctrl : ClientSets C → (namespace : String) → GangScheduler → PodGroupCtrl C
  unfolding new_volcano_ctrl new_scheduler_plugins_ctrl
  new_ctrl sets namespace volcano = new_volcano_ctrl sets.volcano_client namespace
  new_ctrl sets namespace (scheduler_plugins name) =
      new_scheduler_plugins_ctrl sets.scheduler_plugins_client namespace name

-- The informers that are given an error handler, by name.
abbrev pub watched : List (String × Source)
watched =
    ("configMapInformer", config_maps)
    ∷ ("secretInformer", secrets)
    ∷ ("serviceInformer", services)
    ∷ ("jobInformer", jobs)
    ∷ ("podInformer", pods)
    ∷ ("priorityClassInformer", priority_classes)
    ∷ ("mpiJobInformer", group_jobs)
    ∷ []

-- The loop over these; `set_handler` answers for `SetWatchErrorHandler`.
unfoldable pub set_error_handlers :
    (set_handler : Source → Option Error) → List (String × Source) → Outcome (Unit {0})
set_error_handlers set_handler [] = ok tt
set_error_handlers set_handler ((name, informer) ∷ informers) = elim (set_handler informer) [
  | none ↦ set_error_handlers set_handler informers
  | some e ↦
      err (failure ("unable to set error handler for informer " ⧺ name ⧺ ": " ⧺ error_text e))
]

-- The controller, as far as its construction decides it, and the factory that gave it the informer of
-- GroupJobs.
pub record Controller (C W T : Type 0) : Type 0 where
  pub gang : Option GangScheduler
  pub pod_group_ctrl : Option (PodGroupCtrl C)
  pub lister : Informer C W T
  pub handled : Informer C W T
  pub factory : Factory C W T

abbrev pub ctrl_of :
    {C : Type 0} → ClientSets C → String → Option GangScheduler → Option (PodGroupCtrl C)
ctrl_of sets namespace none = none
ctrl_of sets namespace (some g) = some (new_ctrl sets namespace g)

module _ {C W T : Type 0} where
  unfoldable pub new_group_job_controller :
      ClientSets C
      → Factory C W T
      → (namespace gang_scheduling_name : String) → (set_handler : Source → Option Error)
      → Outcome (Controller C W T)
  unfolding set_error_handlers new_ctrl
  new_group_job_controller sets factory namespace gang_scheduling_name set_handler =
      let gang = new_gang_scheduler gang_scheduling_name in
      let (lister, f) = group_job_lister factory in
      let (handled, f') = group_job_informer f in
      set_error_handlers set_handler watched >>= λ _. ok (record {
        gang = gang;
        pod_group_ctrl = ctrl_of sets namespace gang;
        lister = lister;
        handled = handled;
        factory = f';
      })
