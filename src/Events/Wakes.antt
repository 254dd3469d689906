-- ===== src/Events/Wakes.antt =====
-- The job behind a key that a handler puts on the queue.
use mpi_operator.Prelude.{
  String, ◌≡◌, refl, inl, inr, ◌∙◌, Bool, true, false, Option, none, some, some-injective, ap,
  subst,
}
use mpi_operator.Prelude.Tests.{if◌then◌else◌, Bool-cases}
use mpi_operator.Api.{GroupJob, ObjectMeta, Job}
use mpi_operator.Api.Kube.{OwnerReference}
use mpi_operator.Outcome.{Outcome, is_not_found, wrap, ok, err, panic, deref, ◌>>=◌}
use mpi_operator.Controller.World.{Answer, found, failed, Cache, Env}
use mpi_operator.Events.Belongs.{
  is_group_job_iff, IsControlled, BelongsTo, direct, owner_of, nobody, somebody, owner_cases,
}
use mpi_operator.Events.Ownership.{Gvk, Owner, owner_reference_and_gvk}
use mpi_operator.Events.{
  Effect, ignore, report, enqueue, is_group_job, enqueue_group_job, notify_job, notify_owner,
  notify_owner_of_job,
}

module _ (env : Env) (cache : Cache) where
  -- The object belongs to a job with this key.
  abbrev pub Wakes : ObjectMeta → String → Type 0
  Wakes o key = (j : GroupJob) × BelongsTo env cache o j × (env.meta_key j.meta ≡ ok key)

  enqueue-key :
      (j : GroupJob) (key : String)
      → enqueue_group_job env j ≡ ok (enqueue key)
      → env.meta_key j.meta ≡ ok key
  unfolding enqueue_group_job
  enqueue-key j key h = go (env.meta_key j.meta) refl h
    where
      go :
          (a : Outcome String)
          → env.meta_key j.meta ≡ a
          → Path
              (Outcome Effect)
              (elim a as (λ _. Outcome Effect) [
                | ok k ↦ ok (enqueue k)
                | err e ↦ ok (report e)
                | panic ↦ panic
              ])
              (ok (enqueue key))
          → env.meta_key j.meta ≡ ok key
      go (ok k) e p = cc (e, p)
      go (err x) e p = cc
      go panic e p = cc

  -- The job of an owner, by the cache.
  pub record OwnerJob (o : ObjectMeta) (w : Owner) (key : String) : Type 0 where
    pub reference : OwnerReference
    pub reference_is : w.reference ≡ some reference
    pub kind_is : is_group_job w.gvk ≡ true
    pub job : GroupJob
    pub job_is : cache.group_jobs o.namespace reference.name ≡ found job
    pub key_is : env.meta_key job.meta ≡ ok key

  notify_job-key :
      (a : Answer GroupJob) (key : String)
      → notify_job env a ≡ ok (enqueue key)
      → (j : GroupJob) × (a ≡ found j) × (env.meta_key j.meta ≡ ok key)
  unfolding notify_job
  notify_job-key (found j) key h = (j, refl, enqueue-key j key h)
  notify_job-key (failed e) key h = cc

  pub notify_owner-OwnerJob :
      (o : ObjectMeta) (w : Owner) (key : String)
      → notify_owner env cache o w ≡ ok (enqueue key)
      → OwnerJob o w key
  unfolding notify_owner
  notify_owner-OwnerJob o w key h = go (is_group_job w.gvk) w.reference refl refl h
    where
      go :
          (b : Bool) (x : Option OwnerReference)
          → is_group_job w.gvk ≡ b
          → w.reference ≡ x
          → (if b
              then deref x >>= (λ r. notify_job env (cache.group_jobs o.namespace r.name))
              else ok ignore)
            ≡ ok (enqueue key)
          → OwnerJob o w key
      go true (some r) kind reference p =
          let (j, e, k) = notify_job-key (cache.group_jobs o.namespace r.name) key p in
          record {
            reference = r;
            reference_is = reference;
            kind_is = kind;
            job = j;
            job_is = e;
            key_is = k;
          }
      go true none kind reference p = cc
      go false x kind reference p = cc

  -- A found owner whose job is woken up is that of a controller reference.
  pub owner-BelongsTo :
      (o p : ObjectMeta) (w : Owner) (key : String)
      → owner_reference_and_gvk env.machinery o ≡ ok w
      → OwnerJob p w key
      → (r : OwnerReference) × (gvk : Gvk) × IsControlled env.machinery o r gvk
        × (w ≡ owner_of r gvk)
        × OwnerJob p (owner_of r gvk) key
  owner-BelongsTo o p w key h d = elim (owner_cases env.machinery o w h) [
    | nobody e ↦ cc (d.reference_is, e)
    | somebody r gvk c e ↦ (r, gvk, c, e, subst (λ x. OwnerJob p x key) e d)
  ]

  pub handle_owner-Wakes :
      (o : ObjectMeta) (w : Owner) (key : String)
      → owner_reference_and_gvk env.machinery o ≡ ok w
      → OwnerJob o w key
      → Wakes o key
  handle_owner-Wakes o w key h d =
      let (r, gvk, c, e, d') = owner-BelongsTo o o w key h d in
      (
        d'.job,
        direct c ((is_group_job_iff gvk).0 d'.kind_is) (
            ap (λ x. cache.group_jobs o.namespace x.name) (some-injective _ _ d'.reference_is)
            ∙ d'.job_is),
        d'.key_is,
      )

  pub notify_owner_of_job-OwnerJob :
      (o : ObjectMeta) (a : Answer Job) (key : String)
      → notify_owner_of_job env cache o a ≡ ok (enqueue key)
      → (l : Job) × (w : Owner) × (a ≡ found l)
        × (owner_reference_and_gvk env.machinery l.meta ≡ ok w)
        × OwnerJob o w key
  unfolding notify_owner_of_job
  notify_owner_of_job-OwnerJob o (failed e) key h = elim (Bool-cases (is_not_found e)) [
    | inl gone ↦ cc (rw gone at h)
    | inr other ↦ cc (rw other at h)
  ]
  notify_owner_of_job-OwnerJob o (found l) key h =
      go (owner_reference_and_gvk env.machinery l.meta) refl h
    where
      go :
          (x : Outcome Owner)
          → owner_reference_and_gvk env.machinery l.meta ≡ x
          → Path
              (Outcome Effect)
              (elim x as (λ _. Outcome Effect) [
                | ok w ↦ notify_owner env cache o w
                | err e ↦ ok (report (wrap "obtaining k8s Job's owner" e))
                | panic ↦ panic
              ])
              (ok (enqueue key))
          → (k : Job) × (w : Owner) × (found l ≡ found k)
            × (owner_reference_and_gvk env.machinery k.meta ≡ ok w)
            × OwnerJob o w key
      go (ok w) e p = (l, w, refl, e, notify_owner-OwnerJob o w key p)
      go (err x) e p = cc
      go panic e p = cc
