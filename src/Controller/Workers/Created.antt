-- ===== src/Controller/Workers/Created.antt =====
-- The worker pods that the loop of `getOrCreateWorker` returns.
use mpi_operator.Prelude.{
  String, ℕ, zero, suc, ◌≡◌, refl, ap, sym, subst, ◌∙◌, ◌⊎◌, inl, inr, Bool, true, false, List, [],
  ◌∷◌,
}
use mpi_operator.Prelude.Tests.{if◌then◌else◌, length, Bool-cases}
use mpi_operator.Api.{GroupJob, Pod}
use mpi_operator.Outcome.{ok-injective, Error, is_not_found, Outcome, ok, err, panic}
use mpi_operator.Names.{worker_name}
use mpi_operator.Build.Template.{new_worker}
use mpi_operator.Controller.World.{
  Answer, Cache, found, failed, Env, State, Sync, Action, continue, ◌>>=◌, create_pod, pure, raise,
  lift, refuse, emit,
}
use mpi_operator.Controller.Resources.{owned_or_refuse}
use mpi_operator.Controller.Workers.{
  worker_failed, checked_worker, create_worker, worker_of_answer, get_or_create_one, create_workers,
}

-- The state has this job and these caches.
abbrev At : GroupJob → Cache → State → Type 0
At j c s = (s.job ≡ j) × (s.cache ≡ c)

-- Started with the job `j` and the caches `c`, `m` leaves them, and a value that it returns has the
-- property.
pub record Returns {A : Type 0} (j : GroupJob) (c : Cache) (P : A → Type 0) (m : Sync A)
    : Type 0 where
  pub kept : (s : State) → At j c s → At j c (m s).1
  pub value : (s : State) (a : A) → At j c s → (m s).0 ≡ ok a → P a

module _ {j : GroupJob} {c : Cache} where
  module _ {A : Type 0} {P : A → Type 0} where
    Returns-pure : (a : A) → P a → Returns j c P (pure a)
    Returns-pure a h = record {
      kept = λ s same. same;
      value = λ s b same e. subst P (ok-injective a b e) h;
    }

    Returns-raise : (e : Error) → Returns j c P (raise e)
    Returns-raise e = record { kept = λ s same. same; value = λ s b same h. cc }

    Returns-if :
        (test : Bool) (m other : Sync A)
        → Returns j c P m
        → Returns j c P other
        → Returns j c P (if test then m else other)
    Returns-if true m other l r = l
    Returns-if false m other l r = r

  Returns-emit : (a : Action) → Returns j c (λ t. Unit {0}) (emit a)
  Returns-emit a = record { kept = λ s same. same; value = λ s b same h. tt }

  Returns-lift : {A : Type 0} (r : Outcome A) → Returns j c (λ a. r ≡ ok a) (lift r)
  Returns-lift r = record { kept = λ s same. same; value = λ s b same h. h }

  module _ {A B : Type 0} {Q : B → Type 0} where
    continue_kept :
        (r : Outcome A) (f : A → Sync B) (t : State)
        → At j c t
        → ((a : A) → r ≡ ok a → Returns j c Q (f a))
        → At j c (continue r f t).1
    continue_kept (ok a) f t same k = (k a refl).kept t same
    continue_kept (err e) f t same k = same
    continue_kept panic f t same k = same

    continue_value :
        (r : Outcome A) (f : A → Sync B) (t : State) (b : B)
        → At j c t
        → ((a : A) → r ≡ ok a → Returns j c Q (f a))
        → (continue r f t).0 ≡ ok b
        → Q b
    continue_value (ok a) f t b same k h = (k a refl).value t b same h
    continue_value (err e) f t b same k h = cc
    continue_value panic f t b same k h = cc

  module _ {A B : Type 0} {P : A → Type 0} {Q : B → Type 0} where
    Returns-bind :
        (m : Sync A) (f : A → Sync B)
        → Returns j c P m
        → ((a : A) → P a → Returns j c Q (f a))
        → Returns j c Q (m >>= f)
    unfolding ◌>>=◌
    Returns-bind m f km kf = record {
      kept = λ s same.
          continue_kept (m s).0 f (m s).1 (km.kept s same) λ a e. kf a (km.value s a same e);
      value = λ s b same h.
          continue_value (m s).0 f (m s).1 b (km.kept s same) (λ a e. kf a (km.value s a same e)) h;
    }

module _ {j : GroupJob} {c : Cache} where
  refuse-Returns :
      {A : Type 0} {P : A → Type 0} (name kind : String) → Returns j c P (refuse {A = A} name kind)
  unfolding refuse
  refuse-Returns name kind = Returns-bind _ _ (Returns-emit _) (λ t u. Returns-raise _)

  worker_failed-Returns :
      {A : Type 0} {P : A → Type 0} (env : Env) (e : Error)
      → Returns j c P (worker_failed env {A = A} e)
  unfolding worker_failed
  worker_failed-Returns env e = Returns-bind _ _ (Returns-emit _) (λ t u. Returns-raise e)

  -- An operation that first reads the state.
  Returns-reads :
      {A : Type 0} {P : A → Type 0} (f : State → Sync A)
      → ((s : State) → At j c s → Returns j c P (f s))
      → Returns j c P (λ s. f s s)
  Returns-reads f k = record {
    kept = λ s same. (k s same).kept s same;
    value = λ s a same e. (k s same).value s a same e;
  }

  Returns-weaken :
      {A : Type 0} {P Q : A → Type 0} (m : Sync A)
      → ((a : A) → P a → Q a)
      → Returns j c P m
      → Returns j c Q m
  Returns-weaken m w r = record { kept = r.kept; value = λ s a same e. w a (r.value s a same e) }

-- The job controls the pod.
abbrev pub IsOurs : Env → GroupJob → Pod → Type 0
IsOurs env j p = env.machinery.is_controlled_by p.meta j.meta ≡ true

-- The pod is the API server's answer to the creation of the worker of an index, which the cache misses.
pub record IsCreated (env : Env) (j : GroupJob) (c : Cache) (i : ℕ) (p : Pod) : Type 0 where
  pub error : Error
  pub absent : c.pods j.meta.namespace (worker_name j i) ≡ failed error
  pub missing : is_not_found error ≡ true
  pub sent : Pod
  pub built : new_worker env.machinery env.gang j i ≡ ok sent
  pub before : List Action
  pub answered : env.client.on_pod before (create_pod sent) ≡ found p

-- The pod is the worker of an index, from the cache or created, and the job controls it.
abbrev pub IsWorkerOf : Env → GroupJob → Cache → ℕ → Pod → Type 0
IsWorkerOf env j c i p =
    ((c.pods j.meta.namespace (worker_name j i) ≡ found p) ⊎ IsCreated env j c i p) × IsOurs env j p

-- The pods are the workers of the indices from one on, in order, one for each.
abbrev pub AreWorkersFrom : Env → GroupJob → Cache → ℕ → List Pod → Type 0
AreWorkersFrom env j c index [] = Unit {0}
AreWorkersFrom env j c index (p ∷ ps) =
    IsWorkerOf env j c index p × AreWorkersFrom env j c (suc index) ps

module _ (env : Env) (j : GroupJob) (c : Cache) where
  tested-IsOurs :
      (b : Bool) (p q : Pod) (s : State) (name kind : String)
      → (b ≡ true → IsOurs env j p)
      → At j c s
      → ((if b then pure p else refuse name kind) s).0 ≡ ok q
      → (p ≡ q) × IsOurs env j q
  tested-IsOurs true p q s name kind k same e =
      let is = ok-injective p q e in (is, subst (IsOurs env j) is (k refl))
  tested-IsOurs false p q s name kind k same e =
      (refuse-Returns {P = λ r. (p ≡ r) × IsOurs env j r} name kind).value s q same e

  owned-Returns :
      (p : Pod) (kind : String)
      → Returns j c (λ q. (p ≡ q) × IsOurs env j q) (owned_or_refuse env p.meta kind (pure p))
  unfolding owned_or_refuse
  owned-Returns p kind = record {
    kept = λ s same.
        (Returns-if {P = λ q. Unit {0}} (env.machinery.is_controlled_by p.meta s.job.meta) _ _
            (Returns-pure p tt) (refuse-Returns p.meta.name kind)).kept
          s same;
    value = λ s q same e.
        tested-IsOurs (env.machinery.is_controlled_by p.meta s.job.meta) p q s p.meta.name kind
          (λ t. ap (λ k. env.machinery.is_controlled_by p.meta k.meta) (sym same.0) ∙ t) same e;
  }

  checked_worker-Returns :
      (a : Answer Pod) → Returns j c (λ q. (a ≡ found q) × IsOurs env j q) (checked_worker env a)
  unfolding checked_worker
  checked_worker-Returns (found p) =
      Returns-weaken _ (λ q h. (ap found h.0, h.1)) (owned-Returns p p.meta.kind)
  checked_worker-Returns (failed e) = worker_failed-Returns env e

  -- A pod that is sent to the API server.
  abbrev IsAnswer : Pod → Pod → Type 0
  IsAnswer p q =
      ((before : List Action) × (env.client.on_pod before (create_pod p) ≡ found q))
      × IsOurs env j q

  submit-Returns :
      (p : Pod)
      → Returns j c (IsAnswer p) (λ t.
        checked_worker env
          (env.client.on_pod t.trace (create_pod p))
          (record t { trace = create_pod p ∷ t.trace }))
  submit-Returns p = record {
    kept = λ s same. (checked_worker-Returns _).kept _ same;
    value = λ s q same e.
        let (answered, ours) = (checked_worker-Returns _).value _ q same e in
        ((s.trace, answered), ours);
  }

  create_worker-Returns :
      (i : ℕ) (e : Error)
      → c.pods j.meta.namespace (worker_name j i) ≡ failed e
      → is_not_found e ≡ true
      → Returns j c (IsWorkerOf env j c i) (create_worker env i)
  unfolding create_worker
  create_worker-Returns i e absent missing =
      Returns-reads
        (λ s. lift (new_worker env.machinery env.gang s.job i) >>= λ p t.
          checked_worker env (env.client.on_pod t.trace (create_pod p))
            (record t { trace = create_pod p ∷ t.trace }))
        λ s same. Returns-bind _ _ (Returns-lift _) λ p is.
          Returns-weaken _
            (λ q h. (
              inr (record {
                error = e;
                absent = absent;
                missing = missing;
                sent = p;
                built = subst (λ k. new_worker env.machinery env.gang k i ≡ ok p) same.0 is;
                before = h.0.0;
                answered = h.0.1;
              }),
              h.1,
            ))
            (submit-Returns p)

  worker_of_answer-Returns :
      (i : ℕ) (a : Answer Pod)
      → c.pods j.meta.namespace (worker_name j i) ≡ a
      → Returns j c (IsWorkerOf env j c i) (worker_of_answer env i a)
  unfolding worker_of_answer
  worker_of_answer-Returns i (found p) there =
      Returns-weaken _ (λ q h. (inl (there ∙ h.0), h.1)) (checked_worker-Returns (found p))
  worker_of_answer-Returns i (failed e) there = elim (Bool-cases (is_not_found e)) [
    | inl missing ↦ rw missing (create_worker-Returns i e there missing)
    | inr other ↦
        rw other
          (Returns-weaken _ (λ q h. (inl (there ∙ h.0), h.1)) (checked_worker-Returns (failed e)))
  ]

  get_or_create_one-Returns : (i : ℕ) → Returns j c (IsWorkerOf env j c i) (get_or_create_one env i)
  unfolding get_or_create_one
  get_or_create_one-Returns i =
      Returns-reads
        (λ s. worker_of_answer env i (s.cache.pods s.job.meta.namespace (worker_name s.job i)))
        λ s same.
          worker_of_answer-Returns i _
            (λ k. (sym same.1 k).pods (sym same.0 k).meta.namespace (worker_name (sym same.0 k) i))

  create_workers-Returns :
      (index rounds : ℕ)
      → Returns j c
          (λ ps. (length ps ≡ rounds) × AreWorkersFrom env j c index ps)
          (create_workers env index rounds)
  unfolding create_workers
  create_workers-Returns index zero = Returns-pure [] (refl, tt)
  create_workers-Returns index (suc rounds) =
      Returns-bind _ _ (get_or_create_one-Returns index) λ p is.
        Returns-bind _ _ (create_workers-Returns (suc index) rounds)
          λ ps all. Returns-pure (p ∷ ps) (ap suc all.0, (is, all.1))

-- Where the loop over the workers' indices returns pods, it returns one for each index, in order: the
-- pod that the cache has under the name of this index, or, where the cache misses it, the answer of the
-- API server to the creation of the worker of this index. The job controls each of them.
pub create_workers-IsOurs :
    (env : Env) (s : State) (index rounds : ℕ) (pods : List Pod)
    → (create_workers env index rounds s).0 ≡ ok pods
    → (length pods ≡ rounds) × AreWorkersFrom env s.job s.cache index pods
create_workers-IsOurs env s index rounds pods e =
    (create_workers-Returns env s.job s.cache index rounds).value s pods (refl, refl) e
