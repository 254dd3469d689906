-- ===== src/Events/Laws.antt =====
-- Which objects wake up which job.
use mpi_operator.Prelude.{
  String, ◌≡◌, refl, ◌↔◌, inl, inr, sym, ◌∙◌, Bool, true, false, Option, none, some, some-injective,
  ap, ◌≢◌, false≢true, subst, arith, eq_iff, ◌==◌,
}
use mpi_operator.Prelude.Tests.{if◌then◌else◌, Bool-cases}
use mpi_operator.Api.{GroupJob, ObjectMeta, group_job_kind, batch_job_kind}
use mpi_operator.Api.Kube.{OwnerReference}
use mpi_operator.Outcome.{Outcome, ok, err, panic, deref, ◌>>=◌}
use mpi_operator.Controller.World.{found, Cache, Env}
use mpi_operator.Events.Belongs.{
  is_group_job_iff, is_batch_job_iff, direct, by_job, owner_of, controlled_owner, nobody, somebody,
  owner_cases,
}
use mpi_operator.Events.Ownership.{Gvk, Owner, owner_reference_and_gvk}
use mpi_operator.Events.Wakes.{
  Wakes, owner-BelongsTo, handle_owner-Wakes, notify_owner-OwnerJob, notify_owner_of_job-OwnerJob,
}
use mpi_operator.Events.{
  object, Effect, report, enqueue, is_batch_job, is_group_job, enqueue_group_job, notify_job,
  notify_owner, notify_owner_of_job, follow_owner, handle_meta, handle_object, handle_object_update,
}

-- No kind is that of a Job and that of a GroupJob.
kinds_differ : group_job_kind ≢ batch_job_kind
kinds_differ p = false≢true ((eq_iff group_job_kind batch_job_kind).1 p)

group_job_no_batch_job : (gvk : Gvk) → is_group_job gvk ≡ true → is_batch_job gvk ≡ false
group_job_no_batch_job gvk h =
    ground (arith, eq_iff gvk.kind group_job_kind, eq_iff gvk.kind batch_job_kind, kinds_differ)

module _ (env : Env) (cache : Cache) where
  follow_owner-Wakes :
      (o : ObjectMeta) (w : Owner) (key : String)
      → owner_reference_and_gvk env.machinery o ≡ ok w
      → follow_owner env cache o w ≡ ok (enqueue key)
      → Wakes env cache o key
  unfolding follow_owner
  follow_owner-Wakes o w key h p = go (is_batch_job w.gvk) w.reference refl refl p
    where
      go :
          (b : Bool) (x : Option OwnerReference)
          → is_batch_job w.gvk ≡ b
          → w.reference ≡ x
          → (if b
              then deref x
                >>= (λ r. notify_owner_of_job env cache o (cache.jobs o.namespace r.name))
              else notify_owner env cache o w)
            ≡ ok (enqueue key)
          → Wakes env cache o key
      go false x kind reference q =
          handle_owner-Wakes env cache o w key h (notify_owner-OwnerJob env cache o w key q)
      go true none kind reference q = cc
      go true (some r) kind reference q =
          let (l, w', e, owned, d) =
            notify_owner_of_job-OwnerJob env cache o (cache.jobs o.namespace r.name) key q in
          let (r', hvk, c, _, d') = owner-BelongsTo env cache l.meta o w' key owned d in
          elim (owner_cases env.machinery o w h) [
            | nobody n ↦ cc (reference, n)
            | somebody r'' gvk c' f ↦
                let same_r : r ≡ r'' =
                  some-injective _ _ (sym reference ∙ ap (λ x. x.reference) f) in
                let same_gvk : w.gvk ≡ gvk = ap (λ x. x.gvk) f in
                (
                  d'.job,
                  by_job c'
                      ((is_batch_job_iff gvk).0 (subst (λ x. is_batch_job x ≡ true) same_gvk kind))
                      (subst (λ x. cache.jobs o.namespace x.name ≡ found l) same_r e) c
                      ((is_group_job_iff hvk).0 d'.kind_is)
                      (ap (λ x. cache.group_jobs o.namespace x.name)
                          (some-injective _ _ d'.reference_is)
                        ∙ d'.job_is),
                  d'.key_is,
                )
          ]

  handle_meta-Wakes :
      (o : ObjectMeta) (key : String)
      → handle_meta env cache o ≡ ok (enqueue key)
      → Wakes env cache o key
  unfolding handle_meta
  handle_meta-Wakes o key h = go (owner_reference_and_gvk env.machinery o) refl h
    where
      go :
          (x : Outcome Owner)
          → owner_reference_and_gvk env.machinery o ≡ x
          → Path
              (Outcome Effect)
              (elim x as (λ _. Outcome Effect) [
                | ok w ↦ follow_owner env cache o w
                | err e ↦ ok (report e)
                | panic ↦ panic
              ])
              (ok (enqueue key))
          → Wakes env cache o key
      go (ok w) e p = follow_owner-Wakes o w key e p
      go (err x) e p = cc
      go panic e p = cc

  notify_owner-enqueues :
      (o : ObjectMeta) (r : OwnerReference) (gvk : Gvk) (j : GroupJob) (key : String)
      → is_group_job gvk ≡ true
      → cache.group_jobs o.namespace r.name ≡ found j
      → env.meta_key j.meta ≡ ok key
      → notify_owner env cache o (owner_of r gvk) ≡ ok (enqueue key)
  unfolding notify_owner notify_job enqueue_group_job
  notify_owner-enqueues o r gvk j key kind e k =
      rw kind (rw (notify_job, e) (rw (enqueue_group_job, k) refl))

  handle_meta-enqueues :
      (o : ObjectMeta) (key : String)
      → Wakes env cache o key
      → handle_meta env cache o ≡ ok (enqueue key)
  unfolding handle_meta follow_owner notify_owner_of_job
  handle_meta-enqueues o key (j, direct {r} {gvk} c kind e, k) =
      rw (handle_meta, controlled_owner env.machinery o r gvk c)
        (rw (group_job_no_batch_job gvk ((is_group_job_iff gvk).1 kind))
          (notify_owner-enqueues o r gvk j key ((is_group_job_iff gvk).1 kind) e k))
  handle_meta-enqueues o key (j, by_job {r} {q} {gvk} {hvk} {l} c kind e d kind' f, k) =
      rw (handle_meta, controlled_owner env.machinery o r gvk c)
        (rw ((is_batch_job_iff gvk).1 kind) (
          rw e (
            rw (notify_owner_of_job, controlled_owner env.machinery l.meta q hvk d)
              (notify_owner-enqueues o q hvk j key ((is_group_job_iff hvk).1 kind') f k))))

  -- The handler puts a key on the queue for an object exactly if the object belongs to a job with this key:
  -- a cached job that is its controller, or the controller of the cached Job that is its controller.
  pub handle_object_iff :
      (o : ObjectMeta) (key : String)
      → (handle_object env cache (object o) ≡ ok (enqueue key)) ↔ Wakes env cache o key
  unfolding handle_object
  handle_object_iff o key = (handle_meta-Wakes o key, handle_meta-enqueues o key)

  -- For an update, the handler puts a key on the queue exactly if the resource version is new and the new
  -- object belongs to a job with this key.
  pub handle_object_update_iff :
      (old new : String × ObjectMeta) (key : String)
      → (handle_object_update env cache old new ≡ ok (enqueue key))
        ↔ ((new.0 ≢ old.0) × Wakes env cache new.1 key)
  unfolding handle_object_update
  handle_object_update_iff old new key = elim (Bool-cases (new.0 == old.0)) [
    | inl same ↦ (λ h. cc (rw same at h), λ h. elim (h.0 ((eq_iff new.0 old.0).0 same)) [ ])
    | inr differ ↦ (
      λ h. (
        λ e. false≢true (sym differ ∙ (eq_iff new.0 old.0).1 e),
        (handle_object_iff new.1 key).0 (rw differ at h),
      ),
      λ h. rw (handle_object_update, differ) ((handle_object_iff new.1 key).1 h.1),
    )
  ]
