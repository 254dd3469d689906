-- ===== src/Examples/Queues.antt =====
-- The theorems on the work queue and on the start of the process at concrete inputs.
use mpi_operator.Prelude.{String, ◌≡◌, Bool, true, false≢true, refl, inr, none, some, List, [], ◌∷◌}
use mpi_operator.Outcome.{ok, err, failure}
use mpi_operator.Controller.World.{found}
use mpi_operator.Events.{object}
use mpi_operator.Events.Belongs.{direct}
use mpi_operator.Events.Wiring.{
  start_workers, synced_before_start, Source, pods, added, start_workers_synced,
}
use mpi_operator.Queue.{key, Operator, settle, run_worker}
use mpi_operator.Queue.Laws.{
  HandedOut, Moment, notified, taken, settled, Reaches, begin, notify, take, settle_item, owes,
  works_on,
}
use mpi_operator.Queue.Pending.{owes-HandedOut}
use mpi_operator.Examples.FairQueue.{
  mem, remove, Line, next_of, get_next, add_last, release, fair_queue, IsMarked, IsHeld,
  fair_queue-PendingLaws,
}
use mpi_operator.Queue.Worker.{Ran, run_worker-Ran}
use mpi_operator.Queue.React.{new_object, react, react-Reaches}
use mpi_operator.PodGroup.Control.{scheduler_plugins, new_gang_scheduler}
use mpi_operator.Startup.{
  Constructors, ClientSets, gang_clients, create_client_sets, client_of, gang_client_there,
}
use mpi_operator.Examples.Jobs.{pi_job}
use mpi_operator.Examples.Setup.{env, empty_cache, machinery}
use mpi_operator.Examples.Handlers.{pod_meta}

-- No item at all.
abbrev no_items : Line
no_items = record { waiting = []; again = []; held = [] }

-- The queue with one key.
abbrev one_key : Line
one_key = record { waiting = key "pi" ∷ []; again = []; held = [] }

-- A key is enqueued and taken, enqueued again, and its sync fails.
abbrev retried : List Moment
retried =
    settled (key "pi") (err (failure "conflict"))
    ∷ notified "pi"
    ∷ taken (key "pi")
    ∷ notified "pi"
    ∷ []

retried-Reaches : Reaches fair_queue no_items one_key retried
unfolding settle add_last release get_next next_of mem remove
retried-Reaches =
    settle_item (key "pi") (err (failure "conflict"))
      (notify "pi" (take (key "pi") (notify "pi" begin) refl))

owes-HandedOut_example : HandedOut fair_queue (key "pi") one_key
unfolding owes works_on mem
owes-HandedOut_example =
    owes-HandedOut fair_queue (λ q. Unit {0}) IsMarked IsHeld fair_queue-PendingLaws no_items
      one_key retried "pi" tt (λ h. false≢true h) retried-Reaches refl refl

abbrev operator : Operator fair_queue
operator = record { queue = one_key; cache = empty_cache; trace = []; reported = [] }

run_worker-Ran_example :
    Ran fair_queue env no_items
      (notified "pi" ∷ [])
      empty_cache
      []
      4
      (run_worker fair_queue env 2 operator)
unfolding add_last mem
run_worker-Ran_example =
    run_worker-Ran fair_queue env 2 no_items (notified "pi" ∷ []) operator (notify "pi" begin)

abbrev idle : Operator fair_queue
idle = record operator { queue = no_items }

react-Reaches_example :
    (c' : Operator fair_queue) × (react fair_queue env (added pods (object pod_meta)) idle ≡ ok c')
    × Reaches fair_queue no_items c'.queue (notified "pi" ∷ [])
react-Reaches_example =
    react-Reaches fair_queue env no_items [] idle (added pods (object pod_meta)) pods pod_meta "pi"
      begin (new_object pods pod_meta) refl
      (
        pi_job,
        direct {r = machinery.new_controller_ref pi_job.meta}
            {gvk = record { group = "coreweave.com"; version = "v2beta1"; kind = "GroupJob" }}
            (record { reference_is = refl; version_is = refl; kind_is = refl }) (refl, (refl, refl))
            refl,
        refl,
      )

abbrev all_synced : Source → Bool
all_synced s = true

start_workers_synced_example : all_synced pods ≡ true
unfolding start_workers synced_before_start
start_workers_synced_example = start_workers_synced none all_synced 2 2 pods refl (inr refl)

-- Clients that are known by their user agents.
abbrev constructors : Constructors String
constructors = record {
  kube = λ user_agent. found user_agent;
  group_job = found "group-operator";
  volcano_for = λ user_agent. found user_agent;
  scheduler_plugins_for = λ user_agent. found user_agent;
}

abbrev coscheduling_sets : ClientSets String
coscheduling_sets = record {
  kube = "group-operator";
  leader_election = "leader-election";
  group_job = "group-operator";
  volcano_client = none;
  scheduler_plugins_client = some "scheduler-plugins";
}

gang_client_there_example :
    (c : String) × (client_of coscheduling_sets (scheduler_plugins "coscheduling") ≡ some c)
unfolding create_client_sets gang_clients new_gang_scheduler
gang_client_there_example =
    gang_client_there constructors "coscheduling" coscheduling_sets
      (scheduler_plugins "coscheduling") refl refl
