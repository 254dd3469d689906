-- ===== src/Memory/DeepCopy/Laws.antt =====
-- The copies are deep.
use mpi_operator.Prelude.{ℕ, ◌≡◌, refl, Option, some, List}
use mpi_operator.Prelude.Tests.{length}
use mpi_operator.Memory.Heap.{AgreesFrom, Alloc}
use mpi_operator.Memory.Copier.{Reader, give, IsCopier}
use mpi_operator.Memory.Pointer.{pointer-IsCopier, slice-IsCopier}
use mpi_operator.Memory.Fields.{
  of_copier, to_copier, value-IsCopier, ◌then_field◌, own-IsField, struct-IsField,
}
use mpi_operator.Memory.Objects.{Foreign, Cell}
use mpi_operator.Memory.Slots.{
  ints, bools, texts, times, resource_lists, quantity_maps, scheduling_policies, label_selectors,
  replica_specs, replica_statuses, entry_maps, condition_slices, group_job_objects,
  group_job_slices, group_job_lists,
}
use mpi_operator.Memory.DeepCopy.{
  Library, deep_copy_into_condition, deep_copy_into_scheduling_policy, deep_copy_into_run_policy,
  copy_entry, deep_copy_into_replica_spec, deep_copy_into_replica_status, deep_copy_into_spec,
  deep_copy_into_status, deep_copy_into, deep_copy, deep_copy_into_list, deep_copy_list, copy_int,
  copy_bool, copy_text, copy_time, copy_resources,
}
use mpi_operator.Memory.DeepCopy.Views.{
  read_int, read_bool, read_text, read_time, read_resources, read_scheduling_policy,
  read_run_policy, read_entry, read_replica_spec, read_replica_status, read_spec, read_status,
  GroupJobView, read_object, read_job, ListView, read_list_object, read_list,
}

-- What is asked of `DeepCopyInto` of metav1 and corev1: it makes deep copies, too.
pub record LibraryLaws {F : Foreign} (lib : Library F) : Type 0 where
  pub metas : IsCopier lib.read_meta lib.copy_meta
  pub list_metas : IsCopier lib.read_list_meta lib.copy_list_meta
  pub templates : IsCopier lib.read_template lib.copy_template
  pub selectors : IsCopier lib.read_selector lib.copy_selector

module _ {F : Foreign} where
  int_pointers : IsCopier (read_int {F = F}) copy_int
  int_pointers = pointer-IsCopier ints value-IsCopier

  bool_pointers : IsCopier (read_bool {F = F}) copy_bool
  bool_pointers = pointer-IsCopier bools value-IsCopier

  text_pointers : IsCopier (read_text {F = F}) copy_text
  text_pointers = pointer-IsCopier texts value-IsCopier

  time_pointers : IsCopier (read_time {F = F}) copy_time
  time_pointers = pointer-IsCopier times value-IsCopier

  resource_pointers : IsCopier (read_resources {F = F}) copy_resources
  resource_pointers =
      pointer-IsCopier resource_lists (pointer-IsCopier quantity_maps value-IsCopier)

  condition-IsCopier : IsCopier {C = Cell F} give deep_copy_into_condition
  unfolding deep_copy_into_condition
  condition-IsCopier = value-IsCopier

  scheduling_policy-IsCopier :
      IsCopier (read_scheduling_policy {F = F}) deep_copy_into_scheduling_policy
  unfolding read_scheduling_policy deep_copy_into_scheduling_policy
  scheduling_policy-IsCopier = to_copier λ p.
      struct-IsField _ read_scheduling_policy (λ x. refl)
        (own-IsField (p.queue, p.priority_class)
          (of_copier int_pointers p.min_available
            then_field of_copier resource_pointers p.min_resources
            then_field of_copier int_pointers p.schedule_timeout_seconds))

  run_policy-IsCopier : IsCopier (read_run_policy {F = F}) deep_copy_into_run_policy
  unfolding read_run_policy deep_copy_into_run_policy
  run_policy-IsCopier = to_copier λ p.
      struct-IsField _ read_run_policy (λ x. refl)
        (of_copier text_pointers p.clean_pod_policy
          then_field of_copier int_pointers p.ttl_seconds_after_finished
          then_field of_copier int_pointers p.active_deadline_seconds
          then_field of_copier int_pointers p.backoff_limit
          then_field of_copier (pointer-IsCopier scheduling_policies scheduling_policy-IsCopier)
              p.scheduling_policy
          then_field of_copier bool_pointers p.suspend
          then_field of_copier text_pointers p.managed_by)

  module _ {V : Type 0} {read : Option ℕ → Reader (Cell F) (Option V)}
      {copy : Option ℕ → Alloc (Cell F) (Option ℕ)} (copier : IsCopier read copy) where
    entry-IsCopier : IsCopier (read_entry read) (copy_entry copy)
    unfolding read_entry copy_entry
    entry-IsCopier =
        to_copier λ e.
          struct-IsField _ (read_entry read) (λ x. refl) (own-IsField e.0 (of_copier copier e.1))

module _ {F : Foreign} {lib : Library F} (laws : LibraryLaws lib) where
  replica_spec-IsCopier : IsCopier (read_replica_spec lib) (deep_copy_into_replica_spec lib)
  unfolding read_replica_spec deep_copy_into_replica_spec
  replica_spec-IsCopier = to_copier λ r.
      struct-IsField _ (read_replica_spec lib) (λ x. refl)
        (own-IsField r.restart_policy
          (of_copier int_pointers r.replicas then_field of_copier laws.templates r.template))

  replica_status-IsCopier : IsCopier (read_replica_status lib) (deep_copy_into_replica_status lib)
  unfolding read_replica_status deep_copy_into_replica_status
  replica_status-IsCopier = to_copier λ r.
      struct-IsField _ (read_replica_status lib) (λ x. refl)
        (own-IsField (r.active, r.succeeded, r.failed, r.selector)
          (of_copier (pointer-IsCopier label_selectors laws.selectors) r.label_selector))

  spec-IsCopier : IsCopier (read_spec lib) (deep_copy_into_spec lib)
  unfolding read_spec deep_copy_into_spec
  spec-IsCopier = to_copier λ s.
      struct-IsField _ (read_spec lib) (λ x. refl)
        (own-IsField (s.ssh_auth_mount_path, s.launcher_creation_policy, s.mpi_implementation)
          (of_copier int_pointers s.slots_per_worker
            then_field of_copier bool_pointers s.run_launcher_as_worker
            then_field of_copier run_policy-IsCopier s.run_policy
            then_field of_copier
                (pointer-IsCopier entry_maps (
                  slice-IsCopier
                    (entry-IsCopier (pointer-IsCopier replica_specs replica_spec-IsCopier))))
                s.replica_specs))

  status-IsCopier : IsCopier (read_status lib) (deep_copy_into_status lib)
  unfolding read_status deep_copy_into_status
  status-IsCopier = to_copier λ s.
      struct-IsField _ (read_status lib) (λ x. refl)
        (of_copier (pointer-IsCopier condition_slices (slice-IsCopier condition-IsCopier))
            s.conditions
          then_field of_copier
              (pointer-IsCopier entry_maps (
                slice-IsCopier
                  (entry-IsCopier (pointer-IsCopier replica_statuses replica_status-IsCopier))))
              s.replica_statuses
          then_field of_copier time_pointers s.start_time
          then_field of_copier time_pointers s.completion_time
          then_field of_copier time_pointers s.last_reconcile_time)

  object-IsCopier : IsCopier (read_object lib) (deep_copy_into lib)
  unfolding read_object deep_copy_into
  object-IsCopier = to_copier λ j.
      struct-IsField _ (read_object lib) (λ x. refl)
        (own-IsField j.type_meta (
          of_copier laws.metas j.meta
          then_field of_copier spec-IsCopier j.spec
          then_field of_copier status-IsCopier j.status))

  list_object-IsCopier : IsCopier (read_list_object lib) (deep_copy_into_list lib)
  unfolding read_list_object deep_copy_into_list
  list_object-IsCopier = to_copier λ l.
      struct-IsField _ (read_list_object lib) (λ x. refl)
        (own-IsField l.type_meta (
          of_copier laws.list_metas l.list_meta
          then_field of_copier (pointer-IsCopier group_job_slices (slice-IsCopier object-IsCopier))
              l.items))

-- What makes a copy `q` of what is behind `p` deep. It reads as the original did, and so it does in every
-- memory that has the objects that are new since then, whatever became of the others; the
-- original reads as it did in every memory that has the objects from before, whatever became of the copy.
pub record IsIsolated {C V : Type 0} (read : Option ℕ → Reader C V) (p q : Option ℕ) (v : V)
    (h h' : List C) : Type 0 where
  pub before_kept : AgreesFrom 0 h h'
  pub copy_reads : (k : List C) → AgreesFrom (length h) h' k → read q k ≡ some v
  pub original_reads : (k : List C) → AgreesFrom 0 h k → read p k ≡ some v

isolated :
    {C V : Type 0} {read : Option ℕ → Reader C V} {copy : Option ℕ → Alloc C (Option ℕ)}
    → IsCopier read copy
    → (p : Option ℕ) (h : List C) (v : V) → read p h ≡ some v
    → (q : Option ℕ) × (h' : List C) × (copy p h ≡ some (q, h')) × IsIsolated read p q v h h'
isolated copier p h v e =
    let (q, h', copied, c) = copier.deep p h v e in
    (
      q,
      h',
      copied,
      record {
        before_kept = c.kept;
        copy_reads = c.fresh;
        original_reads = λ k agrees. copier.local p h k v agrees e;
      },
    )

module _ {F : Foreign} (lib : Library F) (laws : LibraryLaws lib) where
  -- Let DeepCopyInto of metav1 and corev1 make deep copies. Where a GroupJob can be read behind a pointer,
  -- DeepCopy returns a pointer, and leaves all objects of the memory as they were. What is read behind the
  -- new pointer is what was read behind the old one, and neither is changed by any write to the
  -- objects of the other.
  pub deep_copy-IsIsolated :
      (p : Option ℕ) (h : List (Cell F)) (v : Option (GroupJobView lib))
      → read_job lib p h ≡ some v
      → (q : Option ℕ) × (h' : List (Cell F)) × (deep_copy lib p h ≡ some (q, h'))
        × IsIsolated (read_job lib) p q v h h'
  unfolding read_job deep_copy
  deep_copy-IsIsolated = isolated (pointer-IsCopier group_job_objects (object-IsCopier laws))

  -- So with lists of GroupJobs.
  deep_copy_list-IsIsolated :
      (p : Option ℕ) (h : List (Cell F)) (v : Option (ListView lib))
      → read_list lib p h ≡ some v
      → (q : Option ℕ) × (h' : List (Cell F)) × (deep_copy_list lib p h ≡ some (q, h'))
        × IsIsolated (read_list lib) p q v h h'
  unfolding read_list deep_copy_list
  deep_copy_list-IsIsolated =
      isolated (pointer-IsCopier group_job_lists (list_object-IsCopier laws))
