-- ===== src/Informers.antt =====
-- The informers of GroupJobs (pkg/client/informers/externalversions: factory.go, generic.go,
-- kubeflow/v2beta1/mpijob.go). An informer is the object at an address, with what it was made from: two
-- informers that are made alike differ. Its own work, the lists and the watches, is that of
-- k8s.io/client-go. A reflect.Type is a text.
pub mod Calls
pub mod Shared
pub mod Runs
use mpi_operator.Prelude.{
  ℕ, suc, String, Bool, true, false, Option, none, some, List, [], ◌∷◌, ◌&&◌, ◌==◌,
}
use mpi_operator.Prelude.Tests.{if◌then◌else◌, deref_or}
use mpi_operator.Prelude.Assoc.{Assoc, lookup, insert, insert_all}
use mpi_operator.Api.{group_name, group_version}
use mpi_operator.Outcome.{Outcome, ok, err, failure}

-- A client, a filter of lists and a function on objects are parameters.
pub record Informer (C W T : Type 0) : Type 0 where
  pub address : ℕ
  pub client : C
  pub namespace : String
  pub resync_period : ℕ
  pub tweak_list_options : Option W
  pub transform : Option T

-- sharedInformerFactory, with the number of informers that it has made, and those whose `Run` was begun,
-- by their types, newest first.
pub record Factory (C W T : Type 0) : Type 0 where
  pub client : C
  pub namespace : String
  pub tweak_list_options : Option W
  pub default_resync : ℕ
  pub custom_resync : Assoc ℕ
  pub transform : Option T
  pub informers : Assoc (Informer C W T)
  pub started_informers : Assoc Bool
  pub shutting_down : Bool
  pub made : ℕ
  pub running : Assoc (Informer C W T)

-- reflect.TypeOf(&kubeflowv2beta1.GroupJob{})
abbrev pub group_job_type : String
group_job_type = "*v2beta1.GroupJob"

module _ {C W T : Type 0} where
  with_custom_resync_config : Assoc ℕ → Factory C W T → Factory C W T
  with_custom_resync_config resync f = record f {
    custom_resync = insert_all resync f.custom_resync;
  }

  with_tweak_list_options : Option W → Factory C W T → Factory C W T
  with_tweak_list_options tweak f = record f { tweak_list_options = tweak }

  unfoldable pub with_namespace : String → Factory C W T → Factory C W T
  with_namespace namespace f = record f { namespace = namespace }

  with_transform : Option T → Factory C W T → Factory C W T
  with_transform transform f = record f { transform = transform }

  -- SharedInformerOption is a function on factories.
  abbrev pub apply_all : List (Factory C W T → Factory C W T) → Factory C W T → Factory C W T
  apply_all [] f = f
  apply_all (option ∷ options) f = apply_all options (option f)

  unfoldable pub new_shared_informer_factory_with_options :
      C → ℕ → List (Factory C W T → Factory C W T) → Factory C W T
  new_shared_informer_factory_with_options client resync options = apply_all options (record {
    client = client;
    namespace = "";
    tweak_list_options = none;
    default_resync = resync;
    custom_resync = [];
    transform = none;
    informers = [];
    started_informers = [];
    shutting_down = false;
    made = 0;
    running = [];
  })

  new_shared_informer_factory : C → ℕ → Factory C W T
  new_shared_informer_factory client resync =
      new_shared_informer_factory_with_options client resync []

  new_filtered_shared_informer_factory : C → ℕ → String → Option W → Factory C W T
  new_filtered_shared_informer_factory client resync namespace tweak =
      new_shared_informer_factory_with_options client resync
        (with_namespace namespace ∷ with_tweak_list_options tweak ∷ [])

  -- `f.startedInformers[informerType]`
  unfoldable pub is_started : Factory C W T → String → Bool
  is_started f type = deref_or (lookup type f.started_informers) false

  -- One round of the loop of `Start`: an informer that is not started is, in a goroutine of its own.
  unfoldable pub start_informer : String → Informer C W T → Factory C W T → Factory C W T
  unfolding is_started
  start_informer type informer f = if is_started f type then f else record f {
    running = (type, informer) ∷ f.running;
    started_informers = insert type true f.started_informers;
  }

  unfoldable pub start_each : Assoc (Informer C W T) → Factory C W T → Factory C W T
  unfolding start_informer
  start_each [] f = f
  start_each ((type, informer) ∷ informers) f =
      start_each informers (start_informer type informer f)

  unfoldable pub start : Factory C W T → Factory C W T
  unfolding start_each
  start f = if f.shutting_down then f else start_each f.informers f

  -- The wait for the goroutines changes nothing.
  pub shutdown : Factory C W T → Factory C W T
  shutdown f = record f { shutting_down = true }

  -- The caches that are waited for, with what the waits return.
  pub wait_for_each :
      Factory C W T → (has_synced : String → Bool) → Assoc (Informer C W T) → Assoc Bool
  unfolding is_started
  wait_for_each f has_synced [] = []
  wait_for_each f has_synced ((type, informer) ∷ informers) =
      let rest = wait_for_each f has_synced informers in
      if is_started f type then (type, has_synced type) ∷ rest else rest

  pub wait_for_cache_sync : Factory C W T → (has_synced : String → Bool) → Assoc Bool
  unfolding wait_for_each
  wait_for_cache_sync f has_synced = wait_for_each f has_synced f.informers

  -- A new informer of a type, at a new address, is given the period and the function of the factory.
  unfoldable pub make_informer :
      String → (C → (resync address : ℕ) → Informer C W T) → Factory C W T → Informer C W T
  make_informer type new_func f =
      record (new_func f.client (deref_or (lookup type f.custom_resync) f.default_resync) f.made) {
        transform = f.transform;
      }

  unfoldable pub informer_for :
      String
      → (C → (resync address : ℕ) → Informer C W T)
      → Factory C W T
      → Informer C W T × Factory C W T
  unfolding make_informer
  informer_for type new_func f = elim (lookup type f.informers) [
    | some informer ↦ (informer, f)
    | none ↦
        let informer = make_informer type new_func f in
        (informer, record f { informers = insert type informer f.informers; made = suc f.made })
  ]

  unfoldable pub new_filtered_group_job_informer :
      C → String → ℕ → Option W → (address : ℕ) → Informer C W T
  new_filtered_group_job_informer client namespace resync tweak address = record {
    address = address;
    client = client;
    namespace = namespace;
    resync_period = resync;
    tweak_list_options = tweak;
    transform = none;
  }

  unfoldable pub default_informer : Factory C W T → C → (resync address : ℕ) → Informer C W T
  unfolding new_filtered_group_job_informer
  default_informer f client resync address =
      new_filtered_group_job_informer client f.namespace resync f.tweak_list_options address

  -- `Kubeflow().V2beta1().GroupJobs().Informer()`
  unfoldable pub group_job_informer : Factory C W T → Informer C W T × Factory C W T
  unfolding informer_for default_informer
  group_job_informer f = informer_for group_job_type (default_informer f) f

  -- A lister reads the index of the informer.
  unfoldable pub group_job_lister : Factory C W T → Informer C W T × Factory C W T
  unfolding group_job_informer
  group_job_lister f = group_job_informer f

  pub for_resource :
      (group version resource : String) → Factory C W T → Outcome (Informer C W T × Factory C W T)
  unfolding group_job_informer
  for_resource group version resource f =
      if group == group_name && version == group_version && resource == "groupjobs"
      then ok (group_job_informer f)
      else err (failure "no informer found")
