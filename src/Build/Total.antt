-- ===== src/Build/Total.antt =====
-- The worker pods and the launcher Job are made where their templates have a container.
use mpi_operator.Prelude.{ℕ, ◌≡◌, refl, sym, subst, Option, none, some, List, ◌∷◌}
use mpi_operator.Prelude.Int.{ℤ}
use mpi_operator.Prelude.Tests.{Bool-cases}
use mpi_operator.Prelude.{inl, inr}
use mpi_operator.Names.{run_launcher_as_worker}
use mpi_operator.Api.{
  launcher_role, GroupJob, ReplicaSpec, PodSpec, Container, worker_spec, launcher_spec,
}
use mpi_operator.Api.Kube
use mpi_operator.Machinery.{Machinery}
use mpi_operator.Outcome.{Outcome, ok, ok-injective, err, panic, deref, ◌>>=◌, Succeeds}
use mpi_operator.PodGroup.Control.{
  GangScheduler, volcano, scheduler_plugins, decorate_pod_template_spec,
}
use mpi_operator.Build.Template.{
  with_main_container, setup_ssh_on_pod, new_worker, worker_labels, set_host, set_search,
  set_restart_policy, with_default_labels, decorate,
}
use mpi_operator.Build.Launcher.{
  new_launcher_job, new_launcher_pod_template, mount_config, launcher_labels,
}

abbrev pub HasContainer : PodSpec → Type 0
HasContainer s = (c : Container) × (cs : List Container) × (s.containers ≡ c ∷ cs)

-- A value with a property.
Makes : {A : Type 0} → (A → Type 0) → Outcome A → Type 0
Makes {A} P m = (a : A) × (m ≡ ok a) × P a

bind-Succeeds :
    {A B : Type 0} (P : A → Type 0) (m : Outcome A) (f : A → Outcome B)
    → Makes P m
    → ((a : A) → P a → Succeeds (f a))
    → Succeeds (m >>= f)
unfolding Makes
bind-Succeeds P (ok a) f (b, e, p) k = k a (subst P (ok-injective b a (sym e)) p)
bind-Succeeds P (err x) f (b, e, p) k = cc
bind-Succeeds P panic f (b, e, p) k = cc

deref-Makes : {A : Type 0} (o : Option A) (a : A) → o ≡ some a → Makes (λ b. a ≡ b) (deref o)
unfolding Makes
deref-Makes o a e = (a, rw e refl, refl)

with_main_container-Makes :
    (f : Container → Container) (s : PodSpec)
    → HasContainer s
    → Makes HasContainer (with_main_container f s)
unfolding Makes with_main_container
with_main_container-Makes f s (c, cs, e) =
    (record s { containers = f c ∷ cs }, rw e refl, (f c, cs, refl))

setup_ssh_on_pod-Makes :
    (s : PodSpec) (j : GroupJob) → HasContainer s → Makes HasContainer (setup_ssh_on_pod s j)
unfolding setup_ssh_on_pod
setup_ssh_on_pod-Makes s j h = with_main_container-Makes _ _ h

pub new_worker-Succeeds :
    (m : Machinery) (g : Option GangScheduler) (j : GroupJob) (index : ℕ) (r : ReplicaSpec)
    → worker_spec j ≡ some r
    → HasContainer r.template.spec
    → Succeeds (new_worker m g j index)
unfolding new_worker worker_labels set_host set_search set_restart_policy with_default_labels
new_worker-Succeeds m g j index r e h =
    bind-Succeeds _ (deref (worker_spec j)) _ (deref-Makes (worker_spec j) r e) λ r' same.
      bind-Succeeds HasContainer _ _
        (with_main_container-Makes _ _ (subst (λ x. HasContainer x.template.spec) same h))
        λ s has.
          bind-Succeeds HasContainer _ _ (setup_ssh_on_pod-Makes s j has) λ s' has'. (_, refl)

decorate-keeps :
    (m : Machinery) (g : Option GangScheduler) (j : GroupJob) (t : Kube.PodTemplateSpec)
    → HasContainer t.spec
    → HasContainer (decorate m g j t).spec
unfolding decorate decorate_pod_template_spec
decorate-keeps m none j t h = h
decorate-keeps m (some volcano) j t h = h
decorate-keeps m (some (scheduler_plugins name)) j t h = h

launcher_labels-keeps :
    (j : GroupJob) (t : Kube.PodTemplateSpec)
    → HasContainer t.spec
    → HasContainer (launcher_labels j t).spec
unfolding launcher_labels
launcher_labels-keeps j t h = elim (Bool-cases (run_launcher_as_worker j)) [
  | inl as_worker ↦ rw as_worker h
  | inr apart ↦ rw apart h
]

mount_config-Makes :
    (j : GroupJob) (s : PodSpec) → HasContainer s → Makes HasContainer (mount_config j s)
unfolding mount_config
mount_config-Makes j s h = with_main_container-Makes _ _ h

map-Succeeds :
    {A B : Type 0} (m : Outcome A) (f : A → B) → Succeeds m → Succeeds (m >>= (λ a. ok (f a)))
map-Succeeds m f (a, e) = rw e (f a, refl)

pub new_launcher_job-Succeeds :
    (m : Machinery) (g : Option GangScheduler) (j : GroupJob) (r : ReplicaSpec) (slots : ℤ)
    → launcher_spec j ≡ some r
    → HasContainer r.template.spec
    → j.spec.slots_per_worker ≡ some slots
    → Succeeds (new_launcher_job m g j)
unfolding new_launcher_job new_launcher_pod_template set_host set_restart_policy with_default_labels
new_launcher_job-Succeeds m g j r slots e h slots_are = map-Succeeds _ _ (
    bind-Succeeds _ (deref (launcher_spec j)) _ (deref-Makes (launcher_spec j) r e) λ r' same.
      let has : HasContainer
          (launcher_labels j
            (decorate m g j (with_default_labels j launcher_role r'.template))).spec =
        launcher_labels-keeps j _
          (decorate-keeps m g j _ (subst (λ x. HasContainer x.template.spec) same h)) in
      bind-Succeeds _ (deref j.spec.slots_per_worker) _
        (deref-Makes j.spec.slots_per_worker slots slots_are)
        λ slots' same_slots.
          bind-Succeeds HasContainer _ _ (with_main_container-Makes _ _ has) λ s has'.
            bind-Succeeds HasContainer _ _ (setup_ssh_on_pod-Makes s j has') λ s' has''.
              bind-Succeeds HasContainer _ _ (mount_config-Makes j _ has'') λ s'' _. (_, refl))
