-- ===== src/Startup.antt =====
-- The start of the process (createClientSets and checkCRDExists of cmd/group-operator/app/server.go). The
-- clients are made by k8s.io/client-go, volcano.sh/apis and sigs.k8s.io/scheduler-plugins: how they are
-- made is a parameter.
use mpi_operator.Prelude.{
  String, ◌≡◌, refl, ◌∙◌, Bool, true, false, not, ◌&&◌, Option, none, some, some-injective, subst,
  ◌==◌,
}
use mpi_operator.Prelude.Tests.{if◌then◌else◌}
use mpi_operator.Outcome.{Error, is_not_found, Outcome, ok, err, panic, ◌>>=◌}
use mpi_operator.PodGroup.Control.{
  GangScheduler, volcano, scheduler_plugins, gang_scheduler_volcano, new_gang_scheduler,
}
use mpi_operator.Controller.World.{Answer, found, failed, to_outcome}

-- The constructors of the clients, each `NewForConfig` of its package with a user agent.
pub record Constructors (C : Type 0) : Type 0 where
  pub kube : (user_agent : String) → Answer C
  pub group_job : Answer C
  pub volcano_for : (user_agent : String) → Answer C
  pub scheduler_plugins_for : (user_agent : String) → Answer C

-- The clients that are made; an interface that is not set is nil.
pub record ClientSets (C : Type 0) : Type 0 where
  pub kube : C
  pub leader_election : C
  pub group_job : C
  pub volcano_client : Option C
  pub scheduler_plugins_client : Option C

module _ {C : Type 0} where
  abbrev only_volcano : C → Outcome (Option C × Option C)
  only_volcano c = ok (some c, none)

  abbrev only_scheduler_plugins : C → Outcome (Option C × Option C)
  only_scheduler_plugins c = ok (none, some c)

  -- The client of the gang scheduler that the options name.
  unfoldable pub gang_clients : Constructors C → String → Outcome (Option C × Option C)
  gang_clients make name =
      if name == gang_scheduler_volcano
      then to_outcome (make.volcano_for "volcano") >>= only_volcano
      else if not (name == "")
      then to_outcome (make.scheduler_plugins_for "scheduler-plugins") >>= only_scheduler_plugins
      else ok (none, none)

  unfoldable pub create_client_sets : Constructors C → String → Outcome (ClientSets C)
  unfolding gang_clients
  create_client_sets make name = to_outcome (make.kube "group-operator") >>= (λ kube.
      to_outcome (make.kube "leader-election") >>= (λ leader. to_outcome make.group_job >>= (λ jobs.
        gang_clients make name >>= (λ gang. ok (record {
          kube = kube;
          leader_election = leader;
          group_job = jobs;
          volcano_client = gang.0;
          scheduler_plugins_client = gang.1;
        })))))

  -- The client that the control of a gang scheduler's PodGroups is given.
  abbrev pub client_of : ClientSets C → GangScheduler → Option C
  client_of sets volcano = sets.volcano_client
  client_of sets (scheduler_plugins name) = sets.scheduler_plugins_client

-- The resource is missing if its list ends with a status error that says so.
unfoldable pub check_crd_exists : {A : Type 0} → (is_status_error : Error → Bool) → Answer A → Bool
check_crd_exists is_status_error (found list) = true
check_crd_exists is_status_error (failed e) = not (is_status_error e && is_not_found e)

module _ {C : Type 0} (make : Constructors C) (name : String) where
  ended :
      {A : Type 0} (m : Outcome A) (f : A → Outcome (ClientSets C)) (sets : ClientSets C)
      → (m >>= f) ≡ ok sets
      → (a : A) × (m ≡ ok a) × (f a ≡ ok sets)
  ended (ok a) f sets h = (a, refl, h)
  ended (err e) f sets h = cc
  ended panic f sets h = cc

  gang_of_sets :
      (sets : ClientSets C)
      → create_client_sets make name ≡ ok sets
      → gang_clients make name ≡ ok (sets.volcano_client, sets.scheduler_plugins_client)
  unfolding create_client_sets
  gang_of_sets sets h =
      let (kube, _, h1) = ended (to_outcome (make.kube "group-operator")) _ sets h in
      let (leader, _, h2) = ended (to_outcome (make.kube "leader-election")) _ sets h1 in
      let (jobs, _, h3) = ended (to_outcome make.group_job) _ sets h2 in
      let (gang, e, h4) = ended (gang_clients make name) _ sets h3 in e ∙ cc h4

  volcano_made :
      (a : Answer C) (v p : Option C)
      → (to_outcome a >>= only_volcano) ≡ ok (v, p)
      → (c : C) × (v ≡ some c)
  volcano_made (found c) v p h = (c, cc h)
  volcano_made (failed e) v p h = cc

  scheduler_plugins_made :
      (a : Answer C) (v p : Option C)
      → (to_outcome a >>= only_scheduler_plugins) ≡ ok (v, p)
      → (c : C) × (p ≡ some c)
  scheduler_plugins_made (found c) v p h = (c, cc h)
  scheduler_plugins_made (failed e) v p h = cc

  -- Where the clients are made, and the controller is to use a gang scheduler by the same option, the control
  -- of its PodGroups is given a client that is not nil.
  pub gang_client_there :
      (sets : ClientSets C) (g : GangScheduler)
      → create_client_sets make name ≡ ok sets
      → new_gang_scheduler name ≡ some g
      → (c : C) × (client_of sets g ≡ some c)
  unfolding gang_clients new_gang_scheduler
  gang_client_there sets g h chosen =
      go (name == gang_scheduler_volcano) (name == "") (gang_of_sets sets h) chosen
    where
      go :
          (a b : Bool)
          → (if a
              then to_outcome (make.volcano_for "volcano") >>= only_volcano
              else if not b
              then to_outcome (make.scheduler_plugins_for "scheduler-plugins")
                >>= only_scheduler_plugins
              else ok (none, none))
            ≡ ok (sets.volcano_client, sets.scheduler_plugins_client)
          → (if a then some volcano else if b then none else some (scheduler_plugins name)) ≡ some g
          → (c : C) × (client_of sets g ≡ some c)
      go true b e f =
          let (c, k) = volcano_made (make.volcano_for "volcano") _ _ e in
          (c, subst (λ x. client_of sets x ≡ some c) (some-injective _ _ f) k)
      go false false e f =
          let (c, k) =
            scheduler_plugins_made (make.scheduler_plugins_for "scheduler-plugins") _ _ e in
          (c, subst (λ x. client_of sets x ≡ some c) (some-injective _ _ f) k)
      go false true e f = cc
