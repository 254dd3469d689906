-- ===== src/Defaults.antt =====
-- The defaulting of a GroupJob (pkg/apis/kubeflow/v2beta1/default.go).
pub mod Laws
pub mod Values
use mpi_operator.Prelude.{String, Bool, Option, none, some, ◌==◌}
use mpi_operator.Prelude.Tests.{if◌then◌else◌, deref_or}
use mpi_operator.Prelude.Int.{ℤ, pos}
use mpi_operator.Prelude.Assoc.{Assoc, lookup, insert}
use mpi_operator.Api.{
  GroupJob, GroupJobSpec, ReplicaSpec, RunPolicy, default_restart_policy,
  default_launcher_restart_policy, clean_pod_policy_none, open_mpi, root_ssh_path,
  launcher_creation_policy_at_startup, replica_type_launcher, replica_type_worker,
}

-- `if s == "" { s = d }`
abbrev pub text_or : String → String → String
text_or s d = if s == "" then d else s

-- `if p == nil { p = &d }`
abbrev pub pointer_or {ℓ} : {A : Type ℓ} → Option A → A → Option A
pointer_or p d = some (deref_or p d)

pub set_defaults_type_launcher : ReplicaSpec → ReplicaSpec
set_defaults_type_launcher r = record r {
  restart_policy = text_or r.restart_policy default_launcher_restart_policy;
  replicas = pointer_or r.replicas (pos 1);
}

unfoldable pub set_defaults_type_worker : ReplicaSpec → ReplicaSpec
set_defaults_type_worker r = record r {
  restart_policy = text_or r.restart_policy default_restart_policy;
  replicas = pointer_or r.replicas (pos 0);
}

pub set_defaults_run_policy : RunPolicy → RunPolicy
set_defaults_run_policy p = record p {
  clean_pod_policy = pointer_or p.clean_pod_policy clean_pod_policy_none;
}

-- A call on the pointer `specs[k]`: nothing happens if it is nil, and else the entry changes in place.
pub modify_spec : String → (ReplicaSpec → ReplicaSpec) → Assoc ReplicaSpec → Assoc ReplicaSpec
modify_spec k f m = elim (lookup k m) [ none ↦ m | some r ↦ insert k (f r) m ]

pub set_defaults_replica_specs : Option (Assoc ReplicaSpec) → Option (Assoc ReplicaSpec)
unfolding modify_spec
set_defaults_replica_specs none = none
set_defaults_replica_specs (some m) = some (
    modify_spec replica_type_worker set_defaults_type_worker
      (modify_spec replica_type_launcher set_defaults_type_launcher m))

pub set_defaults_spec : GroupJobSpec → GroupJobSpec
set_defaults_spec s = record s {
  run_policy = set_defaults_run_policy s.run_policy;
  slots_per_worker = pointer_or s.slots_per_worker (pos 1);
  ssh_auth_mount_path = text_or s.ssh_auth_mount_path root_ssh_path;
  mpi_implementation = text_or s.mpi_implementation open_mpi;
  launcher_creation_policy = text_or s.launcher_creation_policy launcher_creation_policy_at_startup;
  replica_specs = set_defaults_replica_specs s.replica_specs;
}

pub set_defaults : GroupJob → GroupJob
unfolding set_defaults_spec
set_defaults j = record j { spec = set_defaults_spec j.spec }
