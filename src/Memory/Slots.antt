-- ===== src/Memory/Slots.antt =====
-- The objects of each type among all that memory holds.
use mpi_operator.Prelude.{ℕ, String, Bool, refl, Option, none, some, List}
use mpi_operator.Prelude.Int.{ℤ}
use mpi_operator.Prelude.Assoc.{Assoc}
use mpi_operator.Api.{Time, Quantity, JobCondition}
use mpi_operator.Memory.Pointer.{Slot}
use mpi_operator.Memory.Objects.{
  Foreign, SchedulingPolicyObject, ReplicaStatusObject, ReplicaSpecObject, GroupJobObject,
  GroupJobListObject, Entry, Cell, text, int, bool, time, resource_list, quantities,
  scheduling_policy, replica_spec, replica_status, label_selector, entries, conditions, group_job,
  group_jobs, group_job_list,
}

module _ {F : Foreign} where
  abbrev take_text : Cell F → Option String
  take_text (text x) = some x
  take_text _ = none

  abbrev pub texts : Slot (Cell F) (String)
  texts = record { put = text; take = take_text; take-put = λ x. refl }

  abbrev take_int : Cell F → Option ℤ
  take_int (int x) = some x
  take_int _ = none

  abbrev pub ints : Slot (Cell F) (ℤ)
  ints = record { put = int; take = take_int; take-put = λ x. refl }

  abbrev take_bool : Cell F → Option Bool
  take_bool (bool x) = some x
  take_bool _ = none

  abbrev pub bools : Slot (Cell F) (Bool)
  bools = record { put = bool; take = take_bool; take-put = λ x. refl }

  abbrev take_time : Cell F → Option (Time)
  take_time (time x) = some x
  take_time _ = none

  abbrev pub times : Slot (Cell F) (Time)
  times = record { put = time; take = take_time; take-put = λ x. refl }

  abbrev take_resource_list : Cell F → Option (Option ℕ)
  take_resource_list (resource_list x) = some x
  take_resource_list _ = none

  abbrev pub resource_lists : Slot (Cell F) (Option ℕ)
  resource_lists = record { put = resource_list; take = take_resource_list; take-put = λ x. refl }

  abbrev take_quantities : Cell F → Option (Assoc Quantity)
  take_quantities (quantities x) = some x
  take_quantities _ = none

  abbrev pub quantity_maps : Slot (Cell F) (Assoc Quantity)
  quantity_maps = record { put = quantities; take = take_quantities; take-put = λ x. refl }

  abbrev take_scheduling_policy : Cell F → Option (SchedulingPolicyObject)
  take_scheduling_policy (scheduling_policy x) = some x
  take_scheduling_policy _ = none

  abbrev pub scheduling_policies : Slot (Cell F) (SchedulingPolicyObject)
  scheduling_policies = record {
    put = scheduling_policy;
    take = take_scheduling_policy;
    take-put = λ x. refl;
  }

  abbrev take_replica_spec : Cell F → Option (ReplicaSpecObject F)
  take_replica_spec (replica_spec x) = some x
  take_replica_spec _ = none

  abbrev pub replica_specs : Slot (Cell F) (ReplicaSpecObject F)
  replica_specs = record { put = replica_spec; take = take_replica_spec; take-put = λ x. refl }

  abbrev take_replica_status : Cell F → Option (ReplicaStatusObject)
  take_replica_status (replica_status x) = some x
  take_replica_status _ = none

  abbrev pub replica_statuses : Slot (Cell F) (ReplicaStatusObject)
  replica_statuses = record {
    put = replica_status;
    take = take_replica_status;
    take-put = λ x. refl;
  }

  abbrev take_label_selector : Cell F → Option (F.LabelSelector)
  take_label_selector (label_selector x) = some x
  take_label_selector _ = none

  abbrev pub label_selectors : Slot (Cell F) (F.LabelSelector)
  label_selectors = record {
    put = label_selector;
    take = take_label_selector;
    take-put = λ x. refl;
  }

  abbrev take_entries : Cell F → Option (List Entry)
  take_entries (entries x) = some x
  take_entries _ = none

  abbrev pub entry_maps : Slot (Cell F) (List Entry)
  entry_maps = record { put = entries; take = take_entries; take-put = λ x. refl }

  abbrev take_conditions : Cell F → Option (List JobCondition)
  take_conditions (conditions x) = some x
  take_conditions _ = none

  abbrev pub condition_slices : Slot (Cell F) (List JobCondition)
  condition_slices = record { put = conditions; take = take_conditions; take-put = λ x. refl }

  abbrev take_group_job : Cell F → Option (GroupJobObject F)
  take_group_job (group_job x) = some x
  take_group_job _ = none

  abbrev pub group_job_objects : Slot (Cell F) (GroupJobObject F)
  group_job_objects = record { put = group_job; take = take_group_job; take-put = λ x. refl }

  abbrev take_group_jobs : Cell F → Option (List (GroupJobObject F))
  take_group_jobs (group_jobs x) = some x
  take_group_jobs _ = none

  abbrev pub group_job_slices : Slot (Cell F) (List (GroupJobObject F))
  group_job_slices = record { put = group_jobs; take = take_group_jobs; take-put = λ x. refl }

  abbrev take_group_job_list : Cell F → Option (GroupJobListObject F)
  take_group_job_list (group_job_list x) = some x
  take_group_job_list _ = none

  abbrev pub group_job_lists : Slot (Cell F) (GroupJobListObject F)
  group_job_lists = record {
    put = group_job_list;
    take = take_group_job_list;
    take-put = λ x. refl;
  }
