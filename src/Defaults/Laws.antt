-- ===== src/Defaults/Laws.antt =====
-- What the defaulting leaves: the entries of the map, and that a second pass changes nothing.
use mpi_operator.Prelude.{
  String, ◌≡◌, ◌≢◌, refl, inl, inr, ap, sym, ◌∙◌, false, Option, none, some, arith, ◌==◌, eq_iff,
}
use mpi_operator.Prelude.Tests.{if◌then◌else◌, Option-cases}
use mpi_operator.Prelude.Int.{pos}
use mpi_operator.Prelude.Assoc.{Assoc, lookup, lookup-insert, insert_same}
use mpi_operator.Api.{
  GroupJob, GroupJobSpec, ReplicaSpec, root_ssh_path, open_mpi, launcher_creation_policy_at_startup,
  default_restart_policy, default_launcher_restart_policy, spec_of, replica_type_launcher,
  replica_type_worker, worker_spec, launcher_spec,
}
use mpi_operator.Defaults.{
  text_or, pointer_or, set_defaults_type_launcher, set_defaults_type_worker,
  set_defaults_run_policy, modify_spec, set_defaults_replica_specs, set_defaults_spec, set_defaults,
}

unfoldable pub map_option : (ReplicaSpec → ReplicaSpec) → Option ReplicaSpec → Option ReplicaSpec
map_option f none = none
map_option f (some r) = some (f r)

lookup-modify_spec :
    (k j : String) (f : ReplicaSpec → ReplicaSpec) (m : Assoc ReplicaSpec)
    → lookup j (modify_spec k f m) ≡ (if k == j then map_option f (lookup j m) else lookup j m)
unfolding modify_spec map_option
lookup-modify_spec k j f m = elim (Option-cases (lookup k m)) [
  | inl e ↦ ground (arith, eq_iff k j, e)
  | inr (r, e) ↦ ground (arith, eq_iff k j, e, lookup-insert k j (f r) m)
]

-- A call that leaves the entry as it is leaves the map.
modify_spec_id :
    (k : String) (f : ReplicaSpec → ReplicaSpec) (m : Assoc ReplicaSpec)
    → map_option f (lookup k m) ≡ lookup k m
    → modify_spec k f m ≡ m
unfolding modify_spec map_option
modify_spec_id k f m h = elim (Option-cases (lookup k m)) [
  | inl e ↦ rw (e, modify_spec)
  | inr (r, e) ↦ rw (e, modify_spec) (insert_same k (f r) m (e ∙ sym (rw e at h)))
]

launcher_is_not_worker : (replica_type_launcher == replica_type_worker) ≡ false
launcher_is_not_worker = refl

worker_is_not_launcher : (replica_type_worker == replica_type_launcher) ≡ false
worker_is_not_launcher = refl

launcher-set_defaults_replica_specs :
    (o : Option (Assoc ReplicaSpec))
    → spec_of (set_defaults_replica_specs o) replica_type_launcher
      ≡ map_option set_defaults_type_launcher (spec_of o replica_type_launcher)
unfolding set_defaults_replica_specs map_option
launcher-set_defaults_replica_specs none = refl
launcher-set_defaults_replica_specs (some m) =
    lookup-modify_spec replica_type_worker replica_type_launcher set_defaults_type_worker
      (modify_spec replica_type_launcher set_defaults_type_launcher m)
    ∙ lookup-modify_spec replica_type_launcher replica_type_launcher set_defaults_type_launcher m

worker-set_defaults_replica_specs :
    (o : Option (Assoc ReplicaSpec))
    → spec_of (set_defaults_replica_specs o) replica_type_worker
      ≡ map_option set_defaults_type_worker (spec_of o replica_type_worker)
unfolding set_defaults_replica_specs map_option
worker-set_defaults_replica_specs none = refl
worker-set_defaults_replica_specs (some m) =
    lookup-modify_spec replica_type_worker replica_type_worker set_defaults_type_worker
      (modify_spec replica_type_launcher set_defaults_type_launcher m)
    ∙ ap (map_option set_defaults_type_worker)
        (lookup-modify_spec replica_type_launcher replica_type_worker set_defaults_type_launcher m)

-- The defaults reach the two entries that the code reads, each by its own function.
pub replica_specs-set_defaults :
    (j : GroupJob)
    → (launcher_spec (set_defaults j) ≡ map_option set_defaults_type_launcher (launcher_spec j))
      × (worker_spec (set_defaults j) ≡ map_option set_defaults_type_worker (worker_spec j))
unfolding set_defaults
replica_specs-set_defaults j = (
  launcher-set_defaults_replica_specs j.spec.replica_specs,
  worker-set_defaults_replica_specs j.spec.replica_specs,
)

-- The entries of other roles stay.
pub others-set_defaults :
    (role : String) (o : Option (Assoc ReplicaSpec))
    → role ≢ replica_type_launcher
    → role ≢ replica_type_worker
    → spec_of (set_defaults_replica_specs o) role ≡ spec_of o role
unfolding set_defaults_replica_specs
others-set_defaults role none l w = refl
others-set_defaults role (some m) l w = ground (
  arith,
  lookup-modify_spec replica_type_worker role set_defaults_type_worker
      (modify_spec replica_type_launcher set_defaults_type_launcher m),
  lookup-modify_spec replica_type_launcher role set_defaults_type_launcher m,
  eq_iff replica_type_launcher role,
  eq_iff replica_type_worker role,
  l,
  w,
)

text_or_twice : (s d : String) → text_or (text_or s d) d ≡ text_or s d
text_or_twice s d = ground arith

launcher_twice :
    (o : Option ReplicaSpec)
    → map_option set_defaults_type_launcher (map_option set_defaults_type_launcher o)
      ≡ map_option set_defaults_type_launcher o
unfolding map_option set_defaults_type_launcher
launcher_twice none = refl
launcher_twice (some r) =
    ap (λ t. some (record r { restart_policy = t; replicas = pointer_or r.replicas (pos 1) }))
      (text_or_twice r.restart_policy default_launcher_restart_policy)

worker_twice :
    (o : Option ReplicaSpec)
    → map_option set_defaults_type_worker (map_option set_defaults_type_worker o)
      ≡ map_option set_defaults_type_worker o
unfolding map_option set_defaults_type_worker
worker_twice none = refl
worker_twice (some r) =
    ap (λ t. some (record r { restart_policy = t; replicas = pointer_or r.replicas (pos 0) }))
      (text_or_twice r.restart_policy default_restart_policy)

-- Both functions leave what both functions have made.
settled :
    (o : Option (Assoc ReplicaSpec)) (m : Assoc ReplicaSpec)
    → set_defaults_replica_specs o ≡ some m
    → (modify_spec replica_type_launcher set_defaults_type_launcher m ≡ m)
      × (modify_spec replica_type_worker set_defaults_type_worker m ≡ m)
settled o m h =
    let l : lookup replica_type_launcher m
        ≡ map_option set_defaults_type_launcher (spec_of o replica_type_launcher) =
      ap (λ x. spec_of x replica_type_launcher) (sym h) ∙ launcher-set_defaults_replica_specs o in
    let w : lookup replica_type_worker m
        ≡ map_option set_defaults_type_worker (spec_of o replica_type_worker) =
      ap (λ x. spec_of x replica_type_worker) (sym h) ∙ worker-set_defaults_replica_specs o in
    (
      modify_spec_id replica_type_launcher set_defaults_type_launcher m
          (ap (map_option set_defaults_type_launcher) l ∙ launcher_twice _ ∙ sym l),
      modify_spec_id replica_type_worker set_defaults_type_worker m
          (ap (map_option set_defaults_type_worker) w ∙ worker_twice _ ∙ sym w),
    )

replica_specs_twice :
    (o : Option (Assoc ReplicaSpec))
    → set_defaults_replica_specs (set_defaults_replica_specs o) ≡ set_defaults_replica_specs o
unfolding set_defaults_replica_specs
replica_specs_twice none = refl
replica_specs_twice (some m) =
    let (l, w) = settled (some m) _ refl in
    ap (λ x. some (modify_spec replica_type_worker set_defaults_type_worker x)) l ∙ ap some w

spec_twice : (s : GroupJobSpec) → set_defaults_spec (set_defaults_spec s) ≡ set_defaults_spec s
unfolding set_defaults_spec set_defaults_run_policy
spec_twice s = λ i. record (set_defaults_spec s) {
  replica_specs = replica_specs_twice s.replica_specs i;
  ssh_auth_mount_path = text_or_twice s.ssh_auth_mount_path root_ssh_path i;
  mpi_implementation = text_or_twice s.mpi_implementation open_mpi i;
  launcher_creation_policy =
      text_or_twice s.launcher_creation_policy launcher_creation_policy_at_startup i;
}

-- Defaulting a job that has its defaults changes nothing: the controller may default the cached
-- object, and its copy again.
pub set_defaults_idempotent : (j : GroupJob) → set_defaults (set_defaults j) ≡ set_defaults j
unfolding set_defaults
set_defaults_idempotent j = ap (λ s. record j { spec = s }) (spec_twice j.spec)
