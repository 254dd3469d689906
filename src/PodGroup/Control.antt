-- ===== src/PodGroup/Control.antt =====
-- The two implementations of `PodGroupControl`: VolcanoCtrl and SchedulerPluginsCtrl. Their Client,
-- their informers and their listers are parameters of the controller.
use mpi_operator.Prelude.{String, not, Option, none, some, [], ◌∷◌, ◌==◌}
use mpi_operator.Prelude.Tests.{if◌then◌else◌, deref_or}
use mpi_operator.Prelude.Int.{ℤ, pos, ◌+ℤ◌, wrap32, eqb_ℤ}
use mpi_operator.Prelude.Assoc.{Assoc, lookup, insert}
use mpi_operator.Api.{
  GroupJob, ReplicaSpec, SchedulingPolicy, ResourceList, PodTemplateSpec, PodGroup, volcano_spec,
  scheduler_plugins_spec, ObjectMeta, worker_spec, launcher_spec,
}
use mpi_operator.Machinery.{Machinery}
use mpi_operator.Outcome.{Outcome, ok, ◌>>=◌}
use mpi_operator.PodGroup.Resources.{QuantityOps}
use mpi_operator.PodGroup.Order.{PriorityClassLister, cal_pg_min_resource}

-- options.go
abbrev pub gang_scheduler_volcano : String
gang_scheduler_volcano = "volcano"

pub data GangScheduler : Type 0 where
  volcano : GangScheduler
  scheduler_plugins : (scheduler_name : String) → GangScheduler

-- The choice that `NewGroupJobControllerWithClock` makes from `--gang-scheduling`.
unfoldable pub new_gang_scheduler : String → Option GangScheduler
new_gang_scheduler name =
    if name == gang_scheduler_volcano
    then some volcano
    else if name == ""
    then none
    else some (scheduler_plugins name)

pub scheduler_name : GangScheduler → String
scheduler_name volcano = gang_scheduler_volcano
scheduler_name (scheduler_plugins name) = name

pub worker_replicas : GroupJob → ℤ
worker_replicas j = elim (worker_spec j) [ none ↦ pos 0 | some r ↦ deref_or r.replicas (pos 0) ]

abbrev pub scheduling_policy : GroupJob → Option SchedulingPolicy
scheduling_policy j = j.spec.run_policy.scheduling_policy

-- The pointer is never nil.
unfoldable pub calculate_min_available : GroupJob → ℤ
unfolding worker_replicas
calculate_min_available j =
    let all = wrap32 (worker_replicas j +ℤ pos 1) in
    elim (scheduling_policy j) [ none ↦ all | some p ↦ deref_or p.min_available all ]

-- `r != nil` and its class is not empty
abbrev class_of : Option ReplicaSpec → String
class_of none = ""
class_of (some r) = r.template.spec.priority_class_name

abbrev policy_class : Option SchedulingPolicy → String
policy_class none = ""
policy_class (some p) = p.priority_class

calculate_priority_class_name : GroupJob → String
calculate_priority_class_name j =
    if not (policy_class (scheduling_policy j) == "")
    then policy_class (scheduling_policy j)
    else if not (class_of (launcher_spec j) == "")
    then class_of (launcher_spec j)
    else if not (class_of (worker_spec j) == "")
    then class_of (worker_spec j)
    else ""

abbrev pub policy_resources : Option SchedulingPolicy → Option ResourceList
policy_resources none = none
policy_resources (some p) = p.min_resources

abbrev policy_queue : Option SchedulingPolicy → String
policy_queue none = ""
policy_queue (some p) = p.queue

abbrev policy_timeout : Option SchedulingPolicy → Option ℤ
policy_timeout none = some (pos 0)
policy_timeout (some p) = some (deref_or p.schedule_timeout_seconds (pos 0))

abbrev pub specs_or_empty : Option (Assoc ReplicaSpec) → Assoc ReplicaSpec
specs_or_empty none = []
specs_or_empty (some specs) = specs

module _ (m : Machinery) (ops : QuantityOps) (lister : Option PriorityClassLister) where
  -- Both implementations have this body.
  unfoldable pub calculate_pg_min_resources : ℤ → GroupJob → Outcome (Option ResourceList)
  calculate_pg_min_resources min_member j = elim (policy_resources (scheduling_policy j)) [
    | some given ↦ ok (some given)
    | none ↦
        if eqb_ℤ min_member (pos 0)
        then ok none
        else cal_pg_min_resource ops lister min_member (specs_or_empty j.spec.replica_specs)
  ]

  abbrev pod_group_meta : GroupJob → ObjectMeta
  pod_group_meta j = record {
    kind = "PodGroup";
    name = j.meta.name;
    namespace = j.meta.namespace;
    uid = "";
    labels = [];
    annotations = [];
    owner_references = m.new_controller_ref j.meta ∷ [];
    creation_timestamp = 0;
    deletion_timestamp = none;
  }

  queue_name : GroupJob → String
  queue_name j =
      if policy_queue (scheduling_policy j) == ""
      then deref_or (lookup m.queue_name_annotation_key j.meta.annotations) ""
      else policy_queue (scheduling_policy j)

  unfoldable pub new_pod_group : GangScheduler → GroupJob → Outcome PodGroup
  unfolding calculate_min_available calculate_priority_class_name calculate_pg_min_resources
      queue_name
  new_pod_group volcano j =
      let min_member = calculate_min_available j in
      calculate_pg_min_resources min_member j >>= λ resources. ok (record {
        meta = pod_group_meta j;
        spec = volcano_spec (record {
          min_member = min_member;
          queue = queue_name j;
          priority_class_name = calculate_priority_class_name j;
          min_resources = resources;
        });
      })
  new_pod_group (scheduler_plugins name) j =
      let min_member = calculate_min_available j in
      calculate_pg_min_resources min_member j >>= λ resources. ok (record {
        meta = pod_group_meta j;
        spec = scheduler_plugins_spec (record {
          min_member = min_member;
          schedule_timeout_seconds = policy_timeout (scheduling_policy j);
          min_resources = deref_or resources [];
        });
      })

unfoldable pub decorate_pod_template_spec :
    Machinery → GangScheduler → PodTemplateSpec → String → PodTemplateSpec
unfolding scheduler_name
decorate_pod_template_spec m volcano t job_name = record t {
  spec = record t.spec { scheduler_name = scheduler_name volcano };
  annotations = insert m.kube_group_name_annotation_key job_name t.annotations;
}
decorate_pod_template_spec m (scheduler_plugins name) t job_name = record t {
  spec = record t.spec { scheduler_name = name };
  labels = insert m.pod_group_label job_name t.labels;
}
