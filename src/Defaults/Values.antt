-- ===== src/Defaults/Values.antt =====
-- What a job has behind the defaulting, by its fields and with no reference to the code.
use mpi_operator.Prelude.{String, ◌≡◌, ◌≢◌, Option, none, some}
use mpi_operator.Prelude.Int.{ℤ, pos}
use mpi_operator.Api.{GroupJob, ReplicaSpec, spec_of, worker_spec, launcher_spec}

-- A text is kept where there is one.
pub record IsText (default before after : String) : Type 0 where
  pub given : before ≢ "" → after ≡ before
  pub missing : before ≡ "" → after ≡ default

-- A value is kept where there is one.
pub record IsValue {A : Type 0} (default : A) (before after : Option A) : Type 0 where
  pub given : (a : A) → before ≡ some a → after ≡ some a
  pub missing : before ≡ none → after ≡ some default

-- The entry of a role gets a restart policy and a number of replicas, and keeps its template.
pub record IsRole (restart_policy : String) (replicas : ℤ) (before after : ReplicaSpec)
    : Type 0 where
  pub restart : IsText restart_policy before.restart_policy after.restart_policy
  pub count : IsValue replicas before.replicas after.replicas
  pub same_template : after.template ≡ before.template

-- There is an entry exactly if there was one.
abbrev pub IsEntryOf : String → ℤ → Option ReplicaSpec → Option ReplicaSpec → Type 0
IsEntryOf restart_policy replicas none after = after ≡ none
IsEntryOf restart_policy replicas (some r) after =
    (r' : ReplicaSpec) × (after ≡ some r') × IsRole restart_policy replicas r r'

pub record IsDefaulted (before after : GroupJob) : Type 0 where
  pub same_meta : after.meta ≡ before.meta
  pub same_status : after.status ≡ before.status
  pub clean_pod_policy :
      IsValue "None" before.spec.run_policy.clean_pod_policy after.spec.run_policy.clean_pod_policy
  pub slots : IsValue (pos 1) before.spec.slots_per_worker after.spec.slots_per_worker
  pub ssh_path : IsText "/root/.ssh" before.spec.ssh_auth_mount_path after.spec.ssh_auth_mount_path
  pub mpi : IsText "OpenMPI" before.spec.mpi_implementation after.spec.mpi_implementation
  pub creation :
      IsText "AtStartup" before.spec.launcher_creation_policy after.spec.launcher_creation_policy
  pub launcher : IsEntryOf "OnFailure" (pos 1) (launcher_spec before) (launcher_spec after)
  pub workers : IsEntryOf "Never" (pos 0) (worker_spec before) (worker_spec after)
  pub others :
      (role : String)
      → role ≢ "Launcher"
      → role ≢ "Worker"
      → spec_of after.spec.replica_specs role ≡ spec_of before.spec.replica_specs role
