-- ===== src/Events/Belongs.antt =====
-- The owners of an object, and the job that it belongs to.
use mpi_operator.Prelude.{
  String, ◌≡◌, refl, Bool, true, false, ◌&&◌, ◌==◌, ◌↔◌, eq_iff, Option, none, some,
}
use mpi_operator.Api.{
  GroupJob, ObjectMeta, Job, group_name, group_version, group_job_kind, batch_group, batch_job_kind,
}
use mpi_operator.Api.Kube.{OwnerReference}
use mpi_operator.Machinery.{Machinery}
use mpi_operator.Outcome.{ok}
use mpi_operator.Controller.World.{found, Cache, Env}
use mpi_operator.Events.Ownership.{
  Gvk, Owner, no_owner, owner_of_version, owner_of_reference, owner_reference_and_gvk,
}
use mpi_operator.Events.{is_batch_job, is_group_job}

-- The controller reference of the object is `r`, and it names the kind `gvk`.
pub record IsControlled (m : Machinery) (o : ObjectMeta) (r : OwnerReference) (gvk : Gvk)
    : Type 0 where
  pub reference_is : m.get_controller_of o ≡ some r
  pub version_is : m.parse_group_version r.api_version ≡ some (gvk.group, gvk.version)
  pub kind_is : r.kind ≡ gvk.kind

-- The kinds of the resource itself, and of a Job.
abbrev IsGroupJob : Gvk → Type 0
IsGroupJob gvk =
    (gvk.kind ≡ group_job_kind) × ((gvk.group ≡ group_name) × (gvk.version ≡ group_version))

abbrev IsBatchJob : Gvk → Type 0
IsBatchJob gvk = (gvk.group ≡ batch_group) × (gvk.kind ≡ batch_job_kind)

and_iff :
    {P Q : Type 0} (a b : Bool) → (a ≡ true) ↔ P → (b ≡ true) ↔ Q → ((a && b) ≡ true) ↔ (P × Q)
and_iff true b h k = (λ e. (h.0 refl, k.0 e), λ p. k.1 p.1)
and_iff false b h k = (λ e. cc, λ p. h.1 p.0)

pub is_group_job_iff : (gvk : Gvk) → (is_group_job gvk ≡ true) ↔ IsGroupJob gvk
is_group_job_iff gvk =
    and_iff (gvk.kind == group_job_kind) (gvk.group == group_name && gvk.version == group_version)
      (eq_iff gvk.kind group_job_kind)
      (and_iff (gvk.group == group_name) (gvk.version == group_version)
        (eq_iff gvk.group group_name) (eq_iff gvk.version group_version))

pub is_batch_job_iff : (gvk : Gvk) → (is_batch_job gvk ≡ true) ↔ IsBatchJob gvk
is_batch_job_iff gvk =
    and_iff (gvk.group == batch_group) (gvk.kind == batch_job_kind) (eq_iff gvk.group batch_group)
      (eq_iff gvk.kind batch_job_kind)

-- The job that an object belongs to, by the objects in the caches: its controller, or the controller of
-- the Job that is its controller.
pub data BelongsTo (env : Env) (cache : Cache) (o : ObjectMeta) (j : GroupJob) : Type 0 where
  direct :
      {r : OwnerReference} {gvk : Gvk}
      → IsControlled env.machinery o r gvk
      → IsGroupJob gvk
      → cache.group_jobs o.namespace r.name ≡ found j
      → BelongsTo env cache o j
  by_job :
      {r q : OwnerReference} {gvk hvk : Gvk} {l : Job}
      → IsControlled env.machinery o r gvk
      → IsBatchJob gvk
      → cache.jobs o.namespace r.name ≡ found l
      → IsControlled env.machinery l.meta q hvk
      → IsGroupJob hvk
      → cache.group_jobs o.namespace q.name ≡ found j
      → BelongsTo env cache o j

abbrev pub owner_of : OwnerReference → Gvk → Owner
owner_of r gvk = record { reference = some r; gvk = gvk }

pub controlled_owner :
    (m : Machinery) (o : ObjectMeta) (r : OwnerReference) (gvk : Gvk)
    → IsControlled m o r gvk
    → owner_reference_and_gvk m o ≡ ok (owner_of r gvk)
unfolding owner_reference_and_gvk
controlled_owner m o r gvk h = rw h.reference_is (rw h.version_is (rw h.kind_is refl))

-- An owner that is found is none, or is that of a controller reference.
pub data OwnerCases (m : Machinery) (o : ObjectMeta) (w : Owner) : Type 0 where
  nobody : w ≡ no_owner → OwnerCases m o w
  somebody :
      (r : OwnerReference) (gvk : Gvk)
      → IsControlled m o r gvk
      → w ≡ owner_of r gvk
      → OwnerCases m o w

pub owner_cases :
    (m : Machinery) (o : ObjectMeta) (w : Owner)
    → owner_reference_and_gvk m o ≡ ok w
    → OwnerCases m o w
unfolding owner_reference_and_gvk
owner_cases m o w h = go (m.get_controller_of o) refl h
  where
    found_version :
        (r : OwnerReference) (v : Option (String × String))
        → m.get_controller_of o ≡ some r
        → m.parse_group_version r.api_version ≡ v
        → owner_of_version r v ≡ ok w
        → OwnerCases m o w
    found_version r none e f p = cc
    found_version r (some (g, v)) e f p =
        somebody r (record { group = g; version = v; kind = r.kind })
          (record { reference_is = e; version_is = f; kind_is = refl }) (cc p)

    go :
        (x : Option OwnerReference)
        → m.get_controller_of o ≡ x
        → owner_of_reference m x ≡ ok w
        → OwnerCases m o w
    go none e p = nobody (cc p)
    go (some r) e p = found_version r (m.parse_group_version r.api_version) e refl p
