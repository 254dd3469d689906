-- ===== src/Examples/Jobs.antt =====
-- A GroupJob with a launcher and two workers, and variants of it.
use mpi_operator.Prelude.{String, ℕ, true, false, none, some, [], ◌∷◌}
use mpi_operator.Prelude.Tests.{◌⧺◌}
use mpi_operator.Prelude.Int.{pos}
use mpi_operator.Prelude.Assoc.{Assoc}
use mpi_operator.Api.{
  GroupJob, RunPolicy, ReplicaSpec, ObjectMeta, PodSpec, Container, replica_type_launcher,
  replica_type_worker, clean_pod_policy_none, restart_policy_never, open_mpi,
  launcher_creation_policy_at_startup,
}

abbrev pub plain_meta : String → ObjectMeta
plain_meta name = record {
  kind = "GroupJob";
  name = name;
  namespace = "default";
  uid = name ⧺ "-uid";
  labels = [];
  annotations = [];
  owner_references = [];
  creation_timestamp = 0;
  deletion_timestamp = none;
}

abbrev pub first_container : Container
first_container = record {
  name = "main";
  command = [];
  args = [];
  env = [];
  volume_mounts = [];
  requests = ("cpu", "1") ∷ [];
  limits = [];
}

abbrev pub plain_pod_spec : PodSpec
plain_pod_spec = record {
  containers = first_container ∷ [];
  volumes = [];
  hostname = "";
  subdomain = "";
  host_network = false;
  dns_policy = "";
  dns_searches = none;
  restart_policy = "";
  scheduler_name = "";
  priority_class_name = "";
}

abbrev pub replica_spec : ℕ → ReplicaSpec
replica_spec n = record {
  replicas = some (pos n);
  template = record { labels = []; annotations = []; owner_references = []; spec = plain_pod_spec };
  restart_policy = restart_policy_never;
}

abbrev pub run_policy : RunPolicy
run_policy = record {
  clean_pod_policy = some clean_pod_policy_none;
  ttl_seconds_after_finished = none;
  active_deadline_seconds = none;
  backoff_limit = none;
  scheduling_policy = none;
  suspend = some false;
  managed_by = none;
}

abbrev pub job_of : Assoc ReplicaSpec → GroupJob
job_of specs = record {
  meta = plain_meta "pi";
  spec = record {
    slots_per_worker = some (pos 1);
    run_launcher_as_worker = some false;
    run_policy = run_policy;
    replica_specs = some specs;
    ssh_auth_mount_path = "/root/.ssh";
    launcher_creation_policy = launcher_creation_policy_at_startup;
    mpi_implementation = open_mpi;
  };
  status = record {
    conditions = [];
    replica_statuses = none;
    start_time = none;
    completion_time = none;
  };
}

abbrev pub pi_job : GroupJob
pi_job =
    job_of ((replica_type_launcher, replica_spec 1) ∷ (replica_type_worker, replica_spec 2) ∷ [])

-- The job whose launcher runs as a worker.
abbrev pub as_worker_job : GroupJob
as_worker_job = record pi_job { spec = record pi_job.spec { run_launcher_as_worker = some true } }

-- Workers are named, their number is left open.
abbrev pub open_worker : ReplicaSpec
open_worker = record (replica_spec 1) { replicas = none }

abbrev pub open_job : GroupJob
open_job =
    job_of ((replica_type_launcher, replica_spec 1) ∷ (replica_type_worker, open_worker) ∷ [])
