-- ===== src/Api/Kube.antt =====
-- The Kubernetes objects that the controller reads and writes, with the fields that it reads and
-- writes. Their types are declared outside of the repository (k8s.io/api, volcano.sh/apis,
-- sigs.k8s.io/scheduler-plugins). A pointer that may be nil is an `Option`, a point in time a number.
use mpi_operator.Prelude.{ℕ, String, Bool, Option, List}
use mpi_operator.Prelude.Int.{ℤ}
use mpi_operator.Prelude.Assoc.{Assoc}

abbrev pub Time : Type 0
Time = ℕ

-- A resource.Quantity, by its serial form. Its arithmetic is a parameter of what computes with it.
abbrev pub Quantity : Type 0
Quantity = String

abbrev pub ResourceList : Type 0
ResourceList = Assoc Quantity

-- metav1.OwnerReference
pub record OwnerReference : Type 0 where
  pub api_version : String
  pub kind : String
  pub name : String
  pub uid : String
  pub controller : Bool

-- metav1.ObjectMeta, with the Kind of metav1.TypeMeta
pub record ObjectMeta : Type 0 where
  pub kind : String
  pub name : String
  pub namespace : String
  pub uid : String
  pub labels : Assoc String
  pub annotations : Assoc String
  pub owner_references : List OwnerReference
  pub creation_timestamp : Time
  pub deletion_timestamp : Option Time

-- corev1.EnvVar
pub record EnvVar : Type 0 where
  pub name : String
  pub value : String

-- corev1.VolumeMount
pub record VolumeMount : Type 0 where
  pub name : String
  pub mount_path : String

-- corev1.KeyToPath
pub record KeyToPath : Type 0 where
  pub key : String
  pub path : String
  pub mode : Option ℤ

-- corev1.Volume, of the three kinds that matter here: made from a Secret, made from a ConfigMap, and
-- any other, by its name.
pub data Volume : Type 0 where
  secret_volume : (name secret_name : String) → (default_mode : Option ℤ) → List KeyToPath → Volume
  config_map_volume : (name config_map : String) → List KeyToPath → Volume
  other_volume : (name : String) → Volume

-- corev1.Container
pub record Container : Type 0 where
  pub name : String
  pub command : List String
  pub args : List String
  pub env : List EnvVar
  pub volume_mounts : List VolumeMount
  pub requests : ResourceList
  pub limits : ResourceList

-- corev1.PodSpec. `dns_searches` is the field Searches of the DNSConfig, if there is one.
pub record PodSpec : Type 0 where
  pub containers : List Container
  pub volumes : List Volume
  pub hostname : String
  pub subdomain : String
  pub host_network : Bool
  pub dns_policy : String
  pub dns_searches : Option (List String)
  pub restart_policy : String
  pub scheduler_name : String
  pub priority_class_name : String

-- corev1.PodTemplateSpec
pub record PodTemplateSpec : Type 0 where
  pub labels : Assoc String
  pub annotations : Assoc String
  pub owner_references : List OwnerReference
  pub spec : PodSpec

-- corev1.PodPhase
pub data PodPhase : Type 0 where
  pod_pending pod_running pod_succeeded pod_failed pod_unknown : PodPhase

-- corev1.PodCondition, batchv1.JobCondition
pub record ObjectCondition : Type 0 where
  pub type : String
  pub status : String
  pub reason : String
  pub message : String

-- corev1.Pod
pub record Pod : Type 0 where
  pub meta : ObjectMeta
  pub spec : PodSpec
  pub phase : PodPhase
  pub conditions : List ObjectCondition
  pub reason : String
  pub message : String

-- batchv1.Job
pub record Job : Type 0 where
  pub meta : ObjectMeta
  pub ttl_seconds_after_finished : Option ℤ
  pub active_deadline_seconds : Option ℤ
  pub backoff_limit : Option ℤ
  pub suspend : Option Bool
  pub selector : Assoc String
  pub template : PodTemplateSpec
  pub conditions : List ObjectCondition
  pub failed : ℤ
  pub completion_time : Option Time

-- corev1.ConfigMap
pub record ConfigMap : Type 0 where
  pub meta : ObjectMeta
  pub content : Assoc String

-- corev1.Service
pub record Service : Type 0 where
  pub meta : ObjectMeta
  pub cluster_ip : String
  pub selector : Assoc String

-- corev1.Secret
pub record Secret : Type 0 where
  pub meta : ObjectMeta
  pub type : String
  pub content : Assoc String

-- The PodGroup objects of volcano and of scheduler-plugins.
pub record VolcanoSpec : Type 0 where
  pub min_member : ℤ
  pub queue : String
  pub priority_class_name : String
  pub min_resources : Option ResourceList

pub record SchedulerPluginsSpec : Type 0 where
  pub min_member : ℤ
  pub schedule_timeout_seconds : Option ℤ
  pub min_resources : ResourceList

pub data PodGroupSpec : Type 0 where
  volcano_spec : VolcanoSpec → PodGroupSpec
  scheduler_plugins_spec : SchedulerPluginsSpec → PodGroupSpec

pub record PodGroup : Type 0 where
  pub meta : ObjectMeta
  pub spec : PodGroupSpec
