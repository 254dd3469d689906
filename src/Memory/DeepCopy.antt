-- ===== src/Memory/DeepCopy.antt =====
-- The copies of zz_generated.deepcopy.go. A struct's fields are copied in their order; its own values
-- (texts, numbers) come over with `*out = *in`. A new object is put into memory when its copy is complete.
pub mod Views
pub mod Laws
use mpi_operator.Prelude.{ℕ, String, Bool, Option, none, some, List}
use mpi_operator.Prelude.Int.{ℤ}
use mpi_operator.Prelude.Assoc.{Assoc}
use mpi_operator.Api.{Time, Quantity, JobCondition}
use mpi_operator.Memory.Heap.{Alloc, ◌>>=◌, pure}
use mpi_operator.Memory.Copier.{Reader, ◌⊗◌, ◌<$>◌}
use mpi_operator.Memory.Pointer.{copy_pointer, copy_slice}
use mpi_operator.Memory.Objects.{
  Foreign, SchedulingPolicyObject, RunPolicyObject, GroupJobSpecObject, ReplicaStatusObject,
  JobStatusObject, ReplicaSpecObject, GroupJobObject, GroupJobListObject, Entry, Cell,
}
use mpi_operator.Memory.Slots.{
  ints, bools, texts, times, resource_lists, quantity_maps, scheduling_policies, label_selectors,
  replica_specs, replica_statuses, entry_maps, condition_slices, group_job_objects,
  group_job_slices, group_job_lists,
}

-- What is read of the structs of metav1 and corev1, and their functions `DeepCopyInto`.
pub record Library (F : Foreign) : Type 0 where
  pub read_meta : F.ObjectMeta → Reader (Cell F) F.MetaView
  pub copy_meta : F.ObjectMeta → Alloc (Cell F) F.ObjectMeta
  pub read_list_meta : F.ListMeta → Reader (Cell F) F.ListMetaView
  pub copy_list_meta : F.ListMeta → Alloc (Cell F) F.ListMeta
  pub read_template : F.PodTemplateSpec → Reader (Cell F) F.TemplateView
  pub copy_template : F.PodTemplateSpec → Alloc (Cell F) F.PodTemplateSpec
  pub read_selector : F.LabelSelector → Reader (Cell F) F.SelectorView
  pub copy_selector : F.LabelSelector → Alloc (Cell F) F.LabelSelector

module _ {F : Foreign} where
  abbrev pub copy_int : Option ℕ → Alloc (Cell F) (Option ℕ)
  copy_int = copy_pointer ints pure

  abbrev pub copy_bool : Option ℕ → Alloc (Cell F) (Option ℕ)
  copy_bool = copy_pointer bools pure

  abbrev pub copy_text : Option ℕ → Alloc (Cell F) (Option ℕ)
  copy_text = copy_pointer texts pure

  -- metav1.Time has no pointer that is followed.
  abbrev pub copy_time : Option ℕ → Alloc (Cell F) (Option ℕ)
  copy_time = copy_pointer times pure

  pub deep_copy_into_condition : JobCondition → Alloc (Cell F) JobCondition
  deep_copy_into_condition c = pure c

  -- A pointer to a map, and the map.
  abbrev pub copy_resources : Option ℕ → Alloc (Cell F) (Option ℕ)
  copy_resources = copy_pointer resource_lists (copy_pointer quantity_maps pure)

  pub deep_copy_into_scheduling_policy :
      SchedulingPolicyObject → Alloc (Cell F) SchedulingPolicyObject
  deep_copy_into_scheduling_policy p =
      (λ x. record p {
        min_available = x.0;
        min_resources = x.1.0;
        schedule_timeout_seconds = x.1.1;
      })
      <$> (copy_int p.min_available
          ⊗ copy_resources p.min_resources
          ⊗ copy_int p.schedule_timeout_seconds)

  pub deep_copy_into_run_policy : RunPolicyObject → Alloc (Cell F) RunPolicyObject
  unfolding deep_copy_into_scheduling_policy
  deep_copy_into_run_policy p =
      (λ x. record {
        clean_pod_policy = x.0;
        ttl_seconds_after_finished = x.1.0;
        active_deadline_seconds = x.1.1.0;
        backoff_limit = x.1.1.1.0;
        scheduling_policy = x.1.1.1.1.0;
        suspend = x.1.1.1.1.1.0;
        managed_by = x.1.1.1.1.1.1;
      })
      <$> (copy_text p.clean_pod_policy
          ⊗ copy_int p.ttl_seconds_after_finished
          ⊗ copy_int p.active_deadline_seconds
          ⊗ copy_int p.backoff_limit
          ⊗ copy_pointer scheduling_policies deep_copy_into_scheduling_policy p.scheduling_policy
          ⊗ copy_bool p.suspend
          ⊗ copy_text p.managed_by)

  -- The entries of a map of pointers, with the copies of what they point to.
  pub copy_entry : (Option ℕ → Alloc (Cell F) (Option ℕ)) → Entry → Alloc (Cell F) Entry
  copy_entry copy e = (λ p. (e.0, p)) <$> copy e.1

module _ {F : Foreign} (lib : Library F) where
  pub deep_copy_into_replica_spec : ReplicaSpecObject F → Alloc (Cell F) (ReplicaSpecObject F)
  deep_copy_into_replica_spec r =
      (λ x. record r { replicas = x.0; template = x.1 })
      <$> (copy_int r.replicas ⊗ lib.copy_template r.template)

  pub deep_copy_into_replica_status : ReplicaStatusObject → Alloc (Cell F) ReplicaStatusObject
  deep_copy_into_replica_status r =
      (λ p. record r { label_selector = p })
      <$> copy_pointer label_selectors lib.copy_selector r.label_selector

  -- The map of the replica specs, and that of their statuses.
  abbrev pub copy_spec_map : Option ℕ → Alloc (Cell F) (Option ℕ)
  copy_spec_map =
      copy_pointer entry_maps
        (copy_slice (copy_entry (copy_pointer replica_specs deep_copy_into_replica_spec)))

  abbrev pub copy_status_map : Option ℕ → Alloc (Cell F) (Option ℕ)
  copy_status_map =
      copy_pointer entry_maps
        (copy_slice (copy_entry (copy_pointer replica_statuses deep_copy_into_replica_status)))

  pub deep_copy_into_spec : GroupJobSpecObject → Alloc (Cell F) GroupJobSpecObject
  unfolding deep_copy_into_run_policy copy_entry deep_copy_into_replica_spec
  deep_copy_into_spec s =
      (λ x. record s {
        slots_per_worker = x.0;
        run_launcher_as_worker = x.1.0;
        run_policy = x.1.1.0;
        replica_specs = x.1.1.1;
      })
      <$> (copy_int s.slots_per_worker
          ⊗ copy_bool s.run_launcher_as_worker
          ⊗ deep_copy_into_run_policy s.run_policy
          ⊗ copy_spec_map s.replica_specs)

  pub deep_copy_into_status : JobStatusObject → Alloc (Cell F) JobStatusObject
  unfolding deep_copy_into_condition copy_entry deep_copy_into_replica_status
  deep_copy_into_status s =
      (λ x. record {
        conditions = x.0;
        replica_statuses = x.1.0;
        start_time = x.1.1.0;
        completion_time = x.1.1.1.0;
        last_reconcile_time = x.1.1.1.1;
      })
      <$> (copy_pointer condition_slices (copy_slice deep_copy_into_condition) s.conditions
          ⊗ copy_status_map s.replica_statuses
          ⊗ copy_time s.start_time
          ⊗ copy_time s.completion_time
          ⊗ copy_time s.last_reconcile_time)

  pub deep_copy_into : GroupJobObject F → Alloc (Cell F) (GroupJobObject F)
  unfolding deep_copy_into_spec deep_copy_into_status
  deep_copy_into j =
      (λ x. record j { meta = x.0; spec = x.1.0; status = x.1.1 })
      <$> (lib.copy_meta j.meta ⊗ deep_copy_into_spec j.spec ⊗ deep_copy_into_status j.status)

  -- `DeepCopy` of a pointer: nil has the copy nil.
  pub deep_copy : Option ℕ → Alloc (Cell F) (Option ℕ)
  unfolding deep_copy_into
  deep_copy = copy_pointer group_job_objects deep_copy_into

  pub deep_copy_into_list : GroupJobListObject F → Alloc (Cell F) (GroupJobListObject F)
  unfolding deep_copy_into
  deep_copy_into_list l =
      (λ x. record l { list_meta = x.0; items = x.1 })
      <$> (lib.copy_list_meta l.list_meta
          ⊗ copy_pointer group_job_slices (copy_slice deep_copy_into) l.items)

  pub deep_copy_list : Option ℕ → Alloc (Cell F) (Option ℕ)
  unfolding deep_copy_into_list
  deep_copy_list = copy_pointer group_job_lists deep_copy_into_list
