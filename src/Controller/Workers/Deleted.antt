-- ===== src/Controller/Workers/Deleted.antt =====
-- Which worker pods are left when `deleteWorkerPods` returns without an error.
use mpi_operator.Prelude.{
  String, ℕ, zero, suc, ◌+◌, ◌≤◌, ◌<◌, ◌≡◌, refl, sym, ap, subst, ◌∙◌, ◌⊎◌, inl, inr, true, false,
  some, List, arith,
}
use mpi_operator.Prelude.Tests.{ltb, Bool-cases}
use mpi_operator.Prelude.Int.{pos}
use mpi_operator.Api.{ReplicaSpec, worker_spec}
use mpi_operator.Outcome.{Outcome, ok, err, panic}
use mpi_operator.Names.{worker_name}
use mpi_operator.Controller.World.{Env, State, Sync, Action, delete_pod, continue, ◌>>=◌}
use mpi_operator.Controller.Workers.{delete_one, delete_workers, delete_worker_pods}
use mpi_operator.Controller.Workers.Deletion.{
  IsCall, last, before, IsSpared, missing, finished, OneRound, spared, removed, answer-OneRound,
}

-- The job and the caches are as they were, and no call is forgotten.
record IsLater (s t : State) : Type 0 where
  same_job : t.job ≡ s.job
  same_cache : t.cache ≡ s.cache
  calls_stay : (a : Action) → IsCall a s.trace → IsCall a t.trace

same-IsLater : (s t : State) → t ≡ s → IsLater s t
same-IsLater s t e = record {
  same_job = ap (λ x. x.job) e;
  same_cache = ap (λ x. x.cache) e;
  calls_stay = λ a c. subst (λ x. IsCall a x.trace) (sym e) c;
}

-- The worker's pod needs no deletion, or its deletion has been called for.
abbrev pub IsHandled : State → List Action → String → Type 0
IsHandled s trace name = IsSpared s name ⊎ IsCall (delete_pod s.job.meta.namespace name) trace

round-IsLater : (s t : State) (name : String) → OneRound s name t → IsLater s t
round-IsLater s t name (spared h e) = same-IsLater s t e
round-IsLater s t name (removed e) = record {
  same_job = ap (λ x. x.job) e;
  same_cache = ap (λ x. x.cache) e;
  calls_stay = λ a c. subst (λ x. IsCall a x.trace) (sym e) (before c);
}

round-IsHandled : (s t : State) (name : String) → OneRound s name t → IsHandled s t.trace name
round-IsHandled s t name (spared h e) = inl h
round-IsHandled s t name (removed e) =
    inr (subst (λ x. IsCall (delete_pod s.job.meta.namespace name) x.trace) (sym e) last)

IsLater-trans : (s t u : State) → IsLater s t → IsLater t u → IsLater s u
IsLater-trans s t u a b = record {
  same_job = b.same_job ∙ a.same_job;
  same_cache = b.same_cache ∙ a.same_cache;
  calls_stay = λ x c. b.calls_stay x (a.calls_stay x c);
}

module _ (s t : State) (later : IsLater s t) (name : String) where
  same_answer : s.cache.pods s.job.meta.namespace name ≡ t.cache.pods t.job.meta.namespace name
  same_answer =
      ap (λ c. c.pods s.job.meta.namespace name) (sym later.same_cache)
      ∙ ap (λ j. t.cache.pods j.meta.namespace name) (sym later.same_job)

  IsSpared-before : IsSpared t name → IsSpared s name
  IsSpared-before (missing e p q) = missing e (same_answer ∙ p) q
  IsSpared-before (finished p e f g) =
      finished p (same_answer ∙ e)
        (ap (λ j. j.spec.run_policy.clean_pod_policy) (sym later.same_job) ∙ f) g

  IsHandled-before : (trace : List Action) → IsHandled t trace name → IsHandled s trace name
  IsHandled-before trace (inl h) = inl (IsSpared-before h)
  IsHandled-before trace (inr c) =
      inr (subst (λ j. IsCall (delete_pod j.meta.namespace name) trace) later.same_job c)

still-IsHandled :
    (s t u : State) (name : String)
    → IsLater t u
    → IsHandled s t.trace name
    → IsHandled s u.trace name
still-IsHandled s t u name later (inl h) = inl h
still-IsHandled s t u name later (inr c) = inr (later.calls_stay _ c)

none_between : (a i : ℕ) → a ≤ i → i < a + 0 → true ≡ false
none_between a i low high = ground arith

this_or_later : (a i : ℕ) → a ≤ i → (a ≡ i) ⊎ (suc a ≤ i)
this_or_later a i low = elim (Bool-cases (ltb a i)) [
  | inl below ↦ inr (ground arith)
  | inr not_below ↦ inl (ground arith)
]

bind_ok :
    {A B : Type 0} (m : Sync A) (f : A → Sync B) (s t : State) (b : B)
    → (m >>= f) s ≡ (ok b, t)
    → (a : A) × (u : State) × (m s ≡ (ok a, u)) × (f a u ≡ (ok b, t))
unfolding ◌>>=◌
bind_ok {A} {B} m f s t b h = go (m s) refl h
  where
    go :
        (x : Outcome A × State)
        → m s ≡ x
        → continue x.0 f x.1 ≡ (ok b, t)
        → (a : A) × (u : State) × (m s ≡ (ok a, u)) × (f a u ≡ (ok b, t))
    go (ok a, u) e p = (a, u, e, p)
    go (err y, u) e p = cc
    go (panic, u) e p = cc

module _ (env : Env) where
  one-OneRound :
      (i : ℕ) (s t : State) → delete_one env i s ≡ (ok tt, t) → OneRound s (worker_name s.job i) t
  unfolding delete_one
  one-OneRound i s t h = answer-OneRound env (worker_name s.job i) s t _ refl h

  rounds-IsHandled :
      (index rounds : ℕ) (s t : State)
      → delete_workers env index rounds s ≡ (ok tt, t)
      → IsLater s t
        × ((i : ℕ) → index ≤ i → i < index + rounds → IsHandled s t.trace (worker_name s.job i))
  unfolding delete_workers
  rounds-IsHandled index zero s t h =
      (same-IsLater s t (sym (ap (λ x. x.1) h)), λ i low high. cc (none_between index i low high))
  rounds-IsHandled index (suc rounds) s t h =
      let (_, u, first, rest) = bind_ok (delete_one env index) _ s t tt h in
      let one : OneRound s (worker_name s.job index) u = one-OneRound index s u first in
      let later : IsLater s u = round-IsLater s u _ one in
      let (later', handled) = rounds-IsHandled (suc index) rounds u t rest in
      (
        IsLater-trans s u t later later',
        λ i low high. elim (this_or_later index i low) [
          | inl this ↦
              subst (λ k. IsHandled s t.trace (worker_name s.job k)) this
                (still-IsHandled s u t (worker_name s.job index) later'
                  (round-IsHandled s u (worker_name s.job index) one))
          | inr after ↦ IsHandled-before s u later (worker_name s.job i) t.trace (
              subst (λ j. IsHandled u t.trace (worker_name j i)) later.same_job
                (handled i after (omega arith)))
        ],
      )

  -- Where `deleteWorkerPods` returns without an error, for a job with a number of workers, each worker's pod
  -- is handled: by the cache it is missing, or it neither runs nor will run and the policy is Running, or
  -- its deletion has been called for.
  pub delete_worker_pods-IsHandled :
      (r : ReplicaSpec) (n : ℕ) (s t : State)
      → worker_spec s.job ≡ some r
      → r.replicas ≡ some (pos n)
      → delete_worker_pods env s ≡ (ok tt, t)
      → (i : ℕ) → i < n
      → IsHandled s t.trace (worker_name s.job i)
  unfolding delete_worker_pods ◌>>=◌
  delete_worker_pods-IsHandled r n s t there replicas h i high =
      (rounds-IsHandled 0 n s t (rw replicas at (rw (delete_worker_pods, there) at h))).1 i
        (omega arith) (omega arith)
