-- ===== src/Controller/World.antt =====
-- What a call of `syncHandler` reads and changes: the copy of the job that it works on, the caches of
-- the informers (whose objects it shares), and the calls that it makes, newest first. The API server,
-- the clock and the key generator answer as a function of the calls made so far.
use mpi_operator.Prelude.{String, Bool, true, false, Option, List, ◌∷◌}
use mpi_operator.Prelude.Tests.{◌⧺◌}
use mpi_operator.Prelude.Assoc.{Assoc}
use mpi_operator.Api.{
  Time, GroupJob, ObjectMeta, Pod, Job, ConfigMap, Service, Secret, PodGroup, PodGroupSpec,
}
use mpi_operator.Machinery.{Machinery}
use mpi_operator.Outcome.{Error, failure, wrap, Outcome, ok, err, panic}
use mpi_operator.PodGroup.Resources.{QuantityOps}
use mpi_operator.PodGroup.Order.{PriorityClassLister}
use mpi_operator.PodGroup.Control.{GangScheduler}

pub data Answer {ℓ} (A : Type ℓ) : Type ℓ where
  found : A → Answer A
  failed : Error → Answer A

-- The listers. A `Get` is by namespace and name, a `List` by namespace and labels.
pub record Cache : Type 0 where
  pub group_jobs : String → String → Answer GroupJob
  pub pods : String → String → Answer Pod
  pub list_pods : String → Assoc String → Answer (List Pod)
  pub jobs : String → String → Answer Job
  pub config_maps : String → String → Answer ConfigMap
  pub services : String → String → Answer Service
  pub secrets : String → String → Answer Secret
  pub pod_groups : String → String → Answer PodGroup

pub data EventType : Type 0 where
  normal warning : EventType

-- The calls that change something outside of the controller.
pub data Action : Type 0 where
  create_pod : Pod → Action
  delete_pod : (namespace name : String) → Action
  create_service update_service : Service → Action
  create_config_map update_config_map : ConfigMap → Action
  create_secret update_secret : Secret → Action
  create_job update_job : Job → Action
  create_pod_group update_pod_group : PodGroup → Action
  delete_pod_group : (namespace name : String) → Action
  update_status : GroupJob → Action
  event : EventType → (reason message : String) → Action
  count_created count_succeeded count_failed : Action
  set_job_info : (launcher namespace : String) → Action

-- The answers of the API server, given the calls before.
pub record Client : Type 0 where
  pub on_pod : List Action → Action → Answer Pod
  pub on_service : List Action → Action → Answer Service
  pub on_config_map : List Action → Action → Answer ConfigMap
  pub on_secret : List Action → Action → Answer Secret
  pub on_job : List Action → Action → Answer Job
  pub on_pod_group : List Action → Action → Answer PodGroup
  pub on_group_job : List Action → Action → Answer GroupJob
  pub on_delete : List Action → Action → Answer (Unit {0})

pub record Env : Type 0 where
  pub machinery : Machinery
  pub ops : QuantityOps
  pub client : Client
  pub gang : Option GangScheduler
  pub priority_classes : Option PriorityClassLister
  -- `metav1.Now` and the controller's clock
  pub now : List Action → Time
  -- a new pair of SSH keys: the private one in PEM, the public one
  pub generate_keys : List Action → Answer (String × String)
  -- `cache.MetaNamespaceKeyFunc`: the key of an object, or an error
  pub meta_key : ObjectMeta → Outcome String
  -- `cache.SplitMetaNamespaceKey`: a namespace and a name, or an error
  pub split_key : String → Option (String × String)
  -- `equality.Semantic.DeepEqual` on the specs of PodGroups
  pub specs_equal : PodGroupSpec → PodGroupSpec → Bool

pub record State : Type 0 where
  pub job : GroupJob
  pub cache : Cache
  pub trace : List Action

abbrev pub Sync {ℓ} : Type ℓ → Type ℓ
Sync A = State → Outcome A × State

abbrev pub continue {ℓ κ} :
    {A : Type ℓ} {B : Type κ} → Outcome A → (A → Sync B) → State → Outcome B × State
continue (ok a) f s = f a s
continue (err e) f s = (err e, s)
continue panic f s = (panic, s)

infixl 5 ◌>>=◌ ◌>>◌
unfoldable pub ◌>>=◌ {ℓ κ} : {A : Type ℓ} {B : Type κ} → Sync A → (A → Sync B) → Sync B
◌>>=◌ m f s = let (r, s') = m s in continue r f s'

abbrev pub ◌>>◌ {ℓ κ} : {A : Type ℓ} {B : Type κ} → Sync A → Sync B → Sync B
m >> n = m >>= λ _. n

module _ {ℓ} {A : Type ℓ} where
  abbrev pub pure : A → Sync A
  pure a s = (ok a, s)

  abbrev pub raise : Error → Sync A
  raise e s = (err e, s)

  abbrev pub crash : Sync A
  crash s = (panic, s)

  abbrev pub lift : Outcome A → Sync A
  lift m s = (m, s)

  abbrev pub gets : (State → A) → Sync A
  gets f s = (ok (f s), s)

  abbrev pub to_outcome : Answer A → Outcome A
  to_outcome (found a) = ok a
  to_outcome (failed e) = err e

  -- A call of the API server: it is recorded, whatever the answer.
  abbrev pub perform : Action → (List Action → Action → Answer A) → Sync A
  perform a answer s = (to_outcome (answer s.trace a), record s { trace = a ∷ s.trace })

-- A call with no answer: an event, a metric.
abbrev pub emit : Action → Sync (Unit {0})
emit a s = (ok tt, record s { trace = a ∷ s.trace })

abbrev pub modify_job : (GroupJob → GroupJob) → Sync (Unit {0})
modify_job f s = (ok tt, record s { job = f s.job })

abbrev pub when : Bool → Sync (Unit {0}) → Sync (Unit {0})
when true m = m
when false m = pure tt

abbrev relabel {ℓ} : {A : Type ℓ} → String → Outcome A → Outcome A
relabel text (ok a) = ok a
relabel text (err e) = err (wrap text e)
relabel text panic = panic

-- An error, with a text in front.
abbrev pub with_text {ℓ} : {A : Type ℓ} → String → Sync A → Sync A
with_text text m s = let (r, s') = m s in (relabel text r, s')

-- MessageResourceExists, with the verb %q
resource_exists : (name kind : String) → String
resource_exists name kind =
    "Resource \"" ⧺ name ⧺ "\" of Kind \"" ⧺ kind
    ⧺ "\" already exists and is not managed by GroupJob"

-- The event and the error for an object that another owner controls.
unfoldable pub refuse {ℓ} : {A : Type ℓ} → (name kind : String) → Sync A
unfolding resource_exists
refuse name kind = do
  emit (event warning "ErrResourceExists" (resource_exists name kind))
  raise (failure (resource_exists name kind))
