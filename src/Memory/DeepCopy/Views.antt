-- ===== src/Memory/DeepCopy/Views.antt =====
-- What can be reached from a GroupJob in memory, with the pointers forgotten: the own values of a struct,
-- then what is read behind its pointers, in the order of its copy.
use mpi_operator.Prelude.{ℕ, String, Bool, Option, List}
use mpi_operator.Prelude.Int.{ℤ}
use mpi_operator.Prelude.Assoc.{Assoc}
use mpi_operator.Api.{Time, Quantity, JobCondition}
use mpi_operator.Memory.Copier.{Reader, give, ◌&◌}
use mpi_operator.Memory.Pointer.{read_pointer, read_slice}
use mpi_operator.Memory.Objects.{
  Foreign, TypeMeta, SchedulingPolicyObject, RunPolicyObject, GroupJobSpecObject,
  ReplicaStatusObject, JobStatusObject, ReplicaSpecObject, GroupJobObject, GroupJobListObject,
  Entry, Cell,
}
use mpi_operator.Memory.Slots.{
  ints, bools, texts, times, resource_lists, quantity_maps, scheduling_policies, label_selectors,
  replica_specs, replica_statuses, entry_maps, condition_slices, group_job_objects,
  group_job_slices, group_job_lists,
}
use mpi_operator.Memory.DeepCopy.{Library}

abbrev pub SchedulingPolicyView : Type 0
SchedulingPolicyView =
    (String × String) × (Option ℤ × (Option (Option (Assoc Quantity)) × Option ℤ))

abbrev pub RunPolicyView : Type 0
RunPolicyView =
    Option String
    × (Option ℤ
        × (Option ℤ × (Option ℤ × (Option SchedulingPolicyView × (Option Bool × Option String)))))

abbrev pub MapView : Type 0 → Type 0
MapView V = Option (List (String × Option V))

module _ {F : Foreign} where
  abbrev pub read_int : Option ℕ → Reader (Cell F) (Option ℤ)
  read_int = read_pointer ints give

  abbrev pub read_bool : Option ℕ → Reader (Cell F) (Option Bool)
  read_bool = read_pointer bools give

  abbrev pub read_text : Option ℕ → Reader (Cell F) (Option String)
  read_text = read_pointer texts give

  abbrev pub read_time : Option ℕ → Reader (Cell F) (Option Time)
  read_time = read_pointer times give

  abbrev pub read_resources : Option ℕ → Reader (Cell F) (Option (Option (Assoc Quantity)))
  read_resources = read_pointer resource_lists (read_pointer quantity_maps give)

  unfoldable pub read_scheduling_policy :
      SchedulingPolicyObject → Reader (Cell F) SchedulingPolicyView
  read_scheduling_policy p =
      give (p.queue, p.priority_class)
      & read_int p.min_available
      & read_resources p.min_resources
      & read_int p.schedule_timeout_seconds

  unfoldable pub read_run_policy : RunPolicyObject → Reader (Cell F) RunPolicyView
  unfolding read_scheduling_policy
  read_run_policy p =
      read_text p.clean_pod_policy
      & read_int p.ttl_seconds_after_finished
      & read_int p.active_deadline_seconds
      & read_int p.backoff_limit
      & read_pointer scheduling_policies read_scheduling_policy p.scheduling_policy
      & read_bool p.suspend
      & read_text p.managed_by

  unfoldable pub read_entry :
      {V : Type 0}
      → (Option ℕ → Reader (Cell F) (Option V))
      → Entry
      → Reader (Cell F) (String × Option V)
  read_entry read e = give e.0 & read e.1

module _ {F : Foreign} (lib : Library F) where
  abbrev pub ReplicaSpecView : Type 0
  ReplicaSpecView = String × (Option ℤ × F.TemplateView)

  unfoldable pub read_replica_spec : ReplicaSpecObject F → Reader (Cell F) ReplicaSpecView
  read_replica_spec r = give r.restart_policy & read_int r.replicas & lib.read_template r.template

  abbrev pub ReplicaStatusView : Type 0
  ReplicaStatusView = (ℤ × ℤ × ℤ × String) × Option F.SelectorView

  unfoldable pub read_replica_status : ReplicaStatusObject → Reader (Cell F) ReplicaStatusView
  read_replica_status r =
      give (r.active, r.succeeded, r.failed, r.selector)
      & read_pointer label_selectors lib.read_selector r.label_selector

  abbrev pub SpecView : Type 0
  SpecView =
      (String × String × String)
      × (Option ℤ × (Option Bool × (RunPolicyView × MapView ReplicaSpecView)))

  unfoldable pub read_spec : GroupJobSpecObject → Reader (Cell F) SpecView
  unfolding read_run_policy read_entry read_replica_spec
  read_spec s =
      give (s.ssh_auth_mount_path, s.launcher_creation_policy, s.mpi_implementation)
      & read_int s.slots_per_worker
      & read_bool s.run_launcher_as_worker
      & read_run_policy s.run_policy
      & read_pointer entry_maps
          (read_slice (read_entry (read_pointer replica_specs read_replica_spec))) s.replica_specs

  abbrev pub StatusView : Type 0
  StatusView =
      Option (List JobCondition)
      × (MapView ReplicaStatusView × (Option Time × (Option Time × Option Time)))

  unfoldable pub read_status : JobStatusObject → Reader (Cell F) StatusView
  unfolding read_entry read_replica_status
  read_status s =
      read_pointer condition_slices (read_slice give) s.conditions
      & read_pointer entry_maps
          (read_slice (read_entry (read_pointer replica_statuses read_replica_status)))
          s.replica_statuses
      & read_time s.start_time
      & read_time s.completion_time
      & read_time s.last_reconcile_time

  abbrev pub GroupJobView : Type 0
  GroupJobView = TypeMeta × (F.MetaView × (SpecView × StatusView))

  unfoldable pub read_object : GroupJobObject F → Reader (Cell F) GroupJobView
  unfolding read_spec read_status
  read_object j = give j.type_meta & lib.read_meta j.meta & read_spec j.spec & read_status j.status

  -- The job behind a pointer.
  unfoldable pub read_job : Option ℕ → Reader (Cell F) (Option GroupJobView)
  unfolding read_object
  read_job = read_pointer group_job_objects read_object

  abbrev pub ListView : Type 0
  ListView = TypeMeta × (F.ListMetaView × Option (List GroupJobView))

  unfoldable pub read_list_object : GroupJobListObject F → Reader (Cell F) ListView
  unfolding read_object
  read_list_object l =
      give l.type_meta
      & lib.read_list_meta l.list_meta
      & read_pointer group_job_slices (read_slice read_object) l.items

  unfoldable pub read_list : Option ℕ → Reader (Cell F) (Option ListView)
  unfolding read_list_object
  read_list = read_pointer group_job_lists read_list_object
