-- ===== src/Examples/Setup.antt =====
-- A small environment for a job: the library functions, the API server and the caches by concrete
-- functions.
use mpi_operator.Prelude.{String, refl, Bool, true, false, Option, none, some, List, [], ◌∷◌, ◌==◌}
use mpi_operator.Prelude.Tests.{if◌then◌else◌, ◌⧺◌}
use mpi_operator.Prelude.Int.{ℤ, pos, negsuc}
use mpi_operator.Api.{
  GroupJob, ObjectMeta, OwnerReference, Pod, Job, PodGroup, Service, Secret, ConfigMap, pod_running,
  replica_index_label,
}
use mpi_operator.Machinery.{Machinery, FieldError, PathStep, invalid, NonnegativeLaw}
use mpi_operator.Outcome.{ok, not_found}
use mpi_operator.PodGroup.Resources.{QuantityOps}
use mpi_operator.Controller.World.{
  State, Action, Answer, found, failed, Cache, Client, Env, create_pod, create_job, create_service,
  update_service, create_config_map, update_config_map, create_secret, update_secret,
  create_pod_group, update_pod_group, update_job, update_status,
}
use mpi_operator.Examples.Jobs.{pi_job, plain_meta, plain_pod_spec}

abbrev controls : List OwnerReference → String → Bool
controls [] uid = false
controls (o ∷ os) uid = o.uid == uid

abbrev reference : ObjectMeta → OwnerReference
reference owner = record {
  api_version = "coreweave.com/v2beta1";
  kind = "GroupJob";
  name = owner.name;
  uid = owner.uid;
  controller = true;
}

abbrev nonnegative : ℤ → List PathStep → List FieldError
nonnegative (pos n) path = []
nonnegative (negsuc n) path = (record { kind = invalid; path = path }) ∷ []

abbrev first_owner : List OwnerReference → Option OwnerReference
first_owner [] = none
first_owner (o ∷ os) = some o

abbrev parse : String → Option (String × String)
parse text =
    if text == "batch/v1"
    then some ("batch", "v1")
    else if text == "coreweave.com/v2beta1"
    then some ("coreweave.com", "v2beta1")
    else none

abbrev pub machinery : Machinery
machinery = record {
  is_dns1035_label = λ s. [];
  validate_nonnegative = nonnegative;
  aggregate = λ errs. "invalid";
  is_controlled_by = λ obj owner. controls obj.owner_references owner.uid;
  get_controller_of = λ obj. first_owner obj.owner_references;
  new_controller_ref = reference;
  parse_group_version = parse;
  queue_name_annotation_key = "volcano.sh/queue-name";
  kube_group_name_annotation_key = "scheduling.k8s.io/group-name";
  pod_group_label = "scheduling.x-k8s.io/pod-group";
}

pub machinery-NonnegativeLaw : NonnegativeLaw machinery
machinery-NonnegativeLaw (pos n) path = (λ h. refl, λ h. refl)
machinery-NonnegativeLaw (negsuc n) path = (λ h. cc, λ h. cc)

abbrev pub ops : QuantityOps
ops = record { add = λ a b. a ⧺ "+" ⧺ b; mul = λ q n. q }

-- The API server has each object that is created or updated, as it is sent.
abbrev answer_pod : Action → Answer Pod
answer_pod (create_pod x) = found x
answer_pod _ = failed (not_found "")

abbrev answer_service : Action → Answer Service
answer_service (create_service x) = found x
answer_service (update_service x) = found x
answer_service _ = failed (not_found "")

abbrev answer_config_map : Action → Answer ConfigMap
answer_config_map (create_config_map x) = found x
answer_config_map (update_config_map x) = found x
answer_config_map _ = failed (not_found "")

abbrev answer_secret : Action → Answer Secret
answer_secret (create_secret x) = found x
answer_secret (update_secret x) = found x
answer_secret _ = failed (not_found "")

abbrev answer_job : Action → Answer Job
answer_job (create_job x) = found x
answer_job (update_job x) = found x
answer_job _ = failed (not_found "")

abbrev answer_pod_group : Action → Answer PodGroup
answer_pod_group (create_pod_group x) = found x
answer_pod_group (update_pod_group x) = found x
answer_pod_group _ = failed (not_found "")

abbrev answer_group_job : Action → Answer GroupJob
answer_group_job (update_status x) = found x
answer_group_job _ = failed (not_found "")

abbrev client : Client
client = record {
  on_pod = λ trace. answer_pod;
  on_service = λ trace. answer_service;
  on_config_map = λ trace. answer_config_map;
  on_secret = λ trace. answer_secret;
  on_job = λ trace. answer_job;
  on_pod_group = λ trace. answer_pod_group;
  on_group_job = λ trace. answer_group_job;
  on_delete = λ trace a. found tt;
}

abbrev pub env : Env
env = record {
  machinery = machinery;
  ops = ops;
  client = client;
  gang = none;
  priority_classes = none;
  now = λ trace. 7;
  generate_keys = λ trace. found ("private", "public");
  meta_key = λ meta. ok meta.name;
  split_key = λ key. some ("default", key);
  specs_equal = λ a b. true;
}

-- No object is there but the job.
abbrev pub empty_cache : Cache
empty_cache = record {
  group_jobs = λ namespace name. found pi_job;
  pods = λ namespace name. failed (not_found "");
  list_pods = λ namespace labels. found [];
  jobs = λ namespace name. failed (not_found "");
  config_maps = λ namespace name. failed (not_found "");
  services = λ namespace name. failed (not_found "");
  secrets = λ namespace name. failed (not_found "");
  pod_groups = λ namespace name. failed (not_found "");
}

abbrev pub owned_pod : String → Pod
owned_pod name = record {
  meta = record (plain_meta name) {
    kind = "Pod";
    owner_references = reference pi_job.meta ∷ [];
    labels = (replica_index_label, "2") ∷ [];
  };
  spec = plain_pod_spec;
  phase = pod_running;
  conditions = [];
  reason = "";
  message = "";
}

-- The job's pods are there.
abbrev pub full_state : State
full_state = record {
  job = pi_job;
  cache = record empty_cache { pods = λ namespace name. found (owned_pod name) };
  trace = [];
}

abbrev pub labelled_pod : Pod
labelled_pod = owned_pod "pi-worker-1"
