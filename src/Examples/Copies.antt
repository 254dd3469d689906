-- ===== src/Examples/Copies.antt =====
-- A GroupJob in memory, and its copy.
use mpi_operator.Prelude.{ℕ, String, true, ◌≡◌, refl, Option, some, none, List, [], ◌∷◌}
use mpi_operator.Prelude.Int.{pos}
use mpi_operator.Memory.Heap.{pure}
use mpi_operator.Memory.Copier.{give}
use mpi_operator.Memory.Fields.{value-IsCopier}
use mpi_operator.Memory.Pointer.{read_pointer, read_slice, read_at, taken}
use mpi_operator.Memory.Objects.{
  Foreign, RunPolicyObject, GroupJobSpecObject, JobStatusObject, ReplicaSpecObject, GroupJobObject,
  Cell, text, int, bool, replica_spec, entries, group_job,
}
use mpi_operator.Memory.DeepCopy.{Library, deep_copy}
use mpi_operator.Memory.DeepCopy.Views.{
  GroupJobView, read_run_policy, read_entry, read_replica_spec, read_spec, read_status, read_object,
  read_job,
}
use mpi_operator.Memory.DeepCopy.Laws.{LibraryLaws, IsIsolated, deep_copy-IsIsolated}

-- Metadata and templates by their names.
abbrev named : Foreign
named = record {
  ObjectMeta = String;
  ListMeta = String;
  PodTemplateSpec = String;
  LabelSelector = String;
  MetaView = String;
  ListMetaView = String;
  TemplateView = String;
  SelectorView = String;
  Stored = Unit;
}

abbrev library : Library named
library = record {
  read_meta = give;
  copy_meta = pure;
  read_list_meta = give;
  copy_list_meta = pure;
  read_template = give;
  copy_template = pure;
  read_selector = give;
  copy_selector = pure;
}

library_laws : LibraryLaws library
library_laws = record {
  metas = value-IsCopier;
  list_metas = value-IsCopier;
  templates = value-IsCopier;
  selectors = value-IsCopier;
}

abbrev open_policy : RunPolicyObject
open_policy = record {
  clean_pod_policy = some 0;
  ttl_seconds_after_finished = none;
  active_deadline_seconds = none;
  backoff_limit = none;
  scheduling_policy = none;
  suspend = some 1;
  managed_by = none;
}

abbrev stored_spec : GroupJobSpecObject
stored_spec = record {
  slots_per_worker = some 2;
  run_launcher_as_worker = none;
  run_policy = open_policy;
  replica_specs = some 4;
  ssh_auth_mount_path = "";
  launcher_creation_policy = "";
  mpi_implementation = "";
}

abbrev no_status : JobStatusObject
no_status = record {
  conditions = none;
  replica_statuses = none;
  start_time = none;
  completion_time = none;
  last_reconcile_time = none;
}

abbrev stored_job : GroupJobObject named
stored_job = record {
  type_meta = record { kind = "GroupJob"; api_version = "v2beta1" };
  meta = "pi";
  spec = stored_spec;
  status = no_status;
}

abbrev worker_object : ReplicaSpecObject named
worker_object = record { replicas = some 2; template = "worker"; restart_policy = "Never" }

-- The number at address 2 is shared by two fields.
abbrev memory : List (Cell named)
memory =
    text "None"
    ∷ bool true
    ∷ int (pos 4)
    ∷ replica_spec worker_object
    ∷ entries (("Worker", some 3) ∷ [])
    ∷ group_job stored_job
    ∷ []

abbrev stored_view : GroupJobView library
stored_view = (
  stored_job.type_meta,
  (
    "pi",
    (
      (
        ("", "", ""),
        (
          some (pos 4),
          (
            none,
            (
              (some "None", (none, (none, (none, (none, (some true, none)))))),
              some (("Worker", some ("Never", (some (pos 4), "worker"))) ∷ []),
            ),
          ),
        ),
      ),
      (none, (none, (none, (none, none)))),
    ),
  ),
)

deep_copy-IsIsolated_example :
    (q : Option ℕ) × (h' : List (Cell named)) × (deep_copy library (some 5) memory ≡ some (q, h'))
    × IsIsolated (read_job library) (some 5) q (some stored_view) memory h'
unfolding read_pointer read_slice read_at taken read_job read_object read_spec read_status
    read_run_policy read_entry read_replica_spec
deep_copy-IsIsolated_example =
    deep_copy-IsIsolated library library_laws (some 5) memory (some stored_view) refl
