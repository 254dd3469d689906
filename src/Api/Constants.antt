-- ===== src/Api/Constants.antt =====
-- The constants of pkg/apis/kubeflow/v2beta1/constants.go and types.go, and those at the top of
-- pkg/controller/mpi_job_controller.go and mpi_job_controller_status.go.
use mpi_operator.Prelude.{String, ℕ}

-- constants.go
abbrev pub default_restart_policy : String
default_restart_policy = "Never"

abbrev pub default_launcher_restart_policy : String
default_launcher_restart_policy = "OnFailure"

abbrev pub operator_name : String
operator_name = "group-operator"

abbrev pub replica_index_label : String
replica_index_label = "training.coreweave.com/replica-index"

abbrev pub operator_name_label : String
operator_name_label = "training.coreweave.com/operator-name"

abbrev pub job_name_label : String
job_name_label = "training.coreweave.com/job-name"

abbrev pub job_role_label : String
job_role_label = "training.coreweave.com/job-role"

-- types.go: CleanPodPolicy
abbrev pub clean_pod_policy_all : String
clean_pod_policy_all = "All"

abbrev pub clean_pod_policy_running : String
clean_pod_policy_running = "Running"

abbrev pub clean_pod_policy_none : String
clean_pod_policy_none = "None"

abbrev pub kubeflow_job_controller : String
kubeflow_job_controller = "kubeflow.org/group-operator"

abbrev pub multi_kueue_controller : String
multi_kueue_controller = "kueue.x-k8s.io/multikueue"

abbrev pub launcher_creation_policy_at_startup : String
launcher_creation_policy_at_startup = "AtStartup"

abbrev pub replica_type_launcher : String
replica_type_launcher = "Launcher"

abbrev pub replica_type_worker : String
replica_type_worker = "Worker"

-- types.go: MPIImplementation
abbrev pub open_mpi : String
open_mpi = "OpenMPI"

abbrev pub intel : String
intel = "Intel"

abbrev pub mpich : String
mpich = "MPICH"

-- types.go: JobConditionType
abbrev pub job_created : String
job_created = "Created"

abbrev pub job_running : String
job_running = "Running"

abbrev pub job_restarting : String
job_restarting = "Restarting"

abbrev pub job_succeeded : String
job_succeeded = "Succeeded"

abbrev pub job_suspended : String
job_suspended = "Suspended"

abbrev pub job_failed : String
job_failed = "Failed"

-- types.go: RestartPolicy
abbrev pub restart_policy_on_failure : String
restart_policy_on_failure = "OnFailure"

abbrev pub restart_policy_never : String
restart_policy_never = "Never"

abbrev pub restart_policy_exit_code : String
restart_policy_exit_code = "ExitCode"

-- mpi_job_controller.go
abbrev pub config_suffix : String
config_suffix = "-config"

abbrev pub hostfile_name : String
hostfile_name = "hostfile"

abbrev pub discover_hosts_script_name : String
discover_hosts_script_name = "discover_hosts.sh"

abbrev pub ssh_auth_secret_suffix : String
ssh_auth_secret_suffix = "-ssh"

abbrev pub root_ssh_path : String
root_ssh_path = "/root/.ssh"

abbrev pub launcher_role : String
launcher_role = "launcher"

abbrev pub worker_role : String
worker_role = "worker"

abbrev pub launcher_suffix : String
launcher_suffix = "-launcher"

abbrev pub worker_suffix : String
worker_suffix = "-worker"

abbrev pub event_message_limit : ℕ
event_message_limit = 1024

-- mpi_job_controller_status.go: reasons
abbrev pub created_reason : String
created_reason = "GroupJobCreated"

abbrev pub succeeded_reason : String
succeeded_reason = "GroupJobSucceeded"

abbrev pub running_reason : String
running_reason = "GroupJobRunning"

abbrev pub suspended_reason : String
suspended_reason = "GroupJobSuspended"

abbrev pub resumed_reason : String
resumed_reason = "GroupJobResumed"

abbrev pub failed_reason : String
failed_reason = "GroupJobFailed"

abbrev pub evicted_reason : String
evicted_reason = "GroupJobEvicted"

-- corev1: ConditionStatus
abbrev pub condition_true : String
condition_true = "True"

abbrev pub condition_false : String
condition_false = "False"

-- Constants of the Kubernetes API (corev1), by their values.
abbrev pub ssh_auth_private_key : String
ssh_auth_private_key = "ssh-privatekey"

abbrev pub secret_type_ssh_auth : String
secret_type_ssh_auth = "kubernetes.io/ssh-auth"

abbrev pub cluster_ip_none : String
cluster_ip_none = "None"

abbrev pub dns_cluster_first_with_host_net : String
dns_cluster_first_with_host_net = "ClusterFirstWithHostNet"

abbrev pub pod_ready : String
pod_ready = "Ready"

abbrev pub batch_job_complete : String
batch_job_complete = "Complete"

abbrev pub batch_job_failed : String
batch_job_failed = "Failed"

abbrev pub backoff_limit_exceeded : String
backoff_limit_exceeded = "BackoffLimitExceeded"

-- The Group, the Version and the Kind of the resource (register.go).
abbrev pub group_name : String
group_name = "coreweave.com"

abbrev pub group_version : String
group_version = "v2beta1"

abbrev pub group_job_kind : String
group_job_kind = "GroupJob"

-- batchv1.GroupName and the kind of a Job
abbrev pub batch_group : String
batch_group = "batch"

abbrev pub batch_job_kind : String
batch_job_kind = "Job"
