-- ===== src/Controller/Keeps.antt =====
-- Invariants of a sync, and the absence of panics under assumptions: one rule for each way in which an
-- operation is built.
use mpi_operator.Prelude.{String, ◌≡◌, ◌≢◌, refl, Bool, true, false, Option, none, some}
use mpi_operator.Prelude.Tests.{if◌then◌else◌}
use mpi_operator.Outcome.{Error, Outcome, ok, err, panic, deref, Yields, ok-Yields}
use mpi_operator.Controller.World.{
  Answer, found, failed, to_outcome, State, Sync, continue, ◌>>=◌, pure, raise, lift, when,
  with_text,
}

-- The state that is left has the property `P`, and under the assumptions `N` there is no panic.
abbrev pub Ends : {A : Type 0} → Type 0 → (State → Type 0) → Outcome A × State → Type 0
Ends N P x = P x.1 × (N → x.0 ≢ panic)

-- `m` keeps `P`, whether it returns, fails or panics, and panics only if `N` does not hold.
pub record Keeps {A : Type 0} (N : Type 0) (P : State → Type 0) (m : Sync A) : Type 0 where
  pub preserved : (s : State) → P s → Ends N P (m s)

-- What `m` returns has the property `Q`, too.
pub record KeepsTo {A : Type 0} (N : Type 0) (P : State → Type 0) (Q : A → Type 0) (m : Sync A)
    : Type 0 where
  pub kept_to : (s : State) → P s → Ends N P (m s) × Yields Q (m s).0

pub ok_calm : {A : Type 0} (a : A) → ok a ≢ panic
ok_calm a e = cc

pub err_calm : {A : Type 0} (e : Error) → ◌≢◌ {A = Outcome A} (err e) panic
err_calm e p = cc

pub to_outcome_calm : {A : Type 0} (a : Answer A) → to_outcome a ≢ panic
to_outcome_calm (found a) e = cc
to_outcome_calm (failed x) e = cc

pub deref_calm : {A : Type 0} (o : Option A) (a : A) → o ≡ some a → deref o ≢ panic
deref_calm none a h e = cc
deref_calm (some b) a h e = cc

with_text_calm :
    {A N : Type 0} (text : String) (r : Outcome A) (s : State)
    → (N → r ≢ panic)
    → N
    → (with_text text (λ t. (r, t)) s).0 ≢ panic
with_text_calm text (ok a) s k n e = cc
with_text_calm text (err x) s k n e = cc
with_text_calm text panic s k n e = k n refl

module _ {N : Type 0} {P : State → Type 0} where
  module _ {A : Type 0} where
    pub Keeps-pure : (result : A) → Keeps N P (pure result)
    Keeps-pure result = record { preserved = λ state before. (before, λ n. ok_calm result) }

    pub Keeps-raise : (failing : Error) → Keeps N P (raise {A = A} failing)
    Keeps-raise failing = record { preserved = λ state before. (before, λ n. err_calm failing) }

    pub Keeps-lift : (outcome : Outcome A) → (N → outcome ≢ panic) → Keeps N P (lift outcome)
    Keeps-lift outcome calm = record { preserved = λ state before. (before, calm) }

    -- Both branches keep it.
    pub Keeps-if :
        (test : Bool) (chosen other : Sync A)
        → Keeps N P chosen
        → Keeps N P other
        → Keeps N P (if test then chosen else other)
    Keeps-if true chosen other left right = left
    Keeps-if false chosen other left right = right

    -- A branch may use the test.
    pub Keeps-if_tested :
        (test : Bool) (chosen other : Sync A)
        → (test ≡ true → Keeps N P chosen)
        → (test ≡ false → Keeps N P other)
        → Keeps N P (if test then chosen else other)
    Keeps-if_tested true chosen other left right = left refl
    Keeps-if_tested false chosen other left right = right refl

    pub Keeps-with_text :
        (m : Sync A) → Keeps N P m → (text : String) → Keeps N P (with_text text m)
    Keeps-with_text m k text = record {
      preserved = λ s h. let (p, calm) = k.preserved s h in (p, with_text_calm text (m s).0 s calm);
    }

  module _ {A B : Type 0} where
    pub Keeps-option :
        (o : Option B) (m : Sync A) (f : B → Sync A)
        → Keeps N P m
        → ((b : B) → Keeps N P (f b))
        → Keeps N P (elim o as (λ _. Sync A) [ none ↦ m | some b ↦ f b ])
    Keeps-option none m f h k = h
    Keeps-option (some b) m f h k = k b

  module _ {A B : Type 0} where
    continue_kept :
        (r : Outcome A) (f : A → Sync B) (s : State)
        → ((a : A) → r ≡ ok a → Keeps N P (f a))
        → P s
        → (N → r ≢ panic)
        → Ends N P (continue r f s)
    continue_kept (ok a) f s k h calm = (k a refl).preserved s h
    continue_kept (err e) f s k h calm = (h, λ n. err_calm e)
    continue_kept panic f s k h calm = (h, λ n p. calm n refl)

    pub Keeps-bind :
        (first : Sync A) (next : A → Sync B)
        → Keeps N P first
        → ((a : A) → Keeps N P (next a))
        → Keeps N P (first >>= next)
    unfolding ◌>>=◌
    Keeps-bind first next kept rest = record {
      preserved = λ s h.
          let (p, calm) = kept.preserved s h in
          continue_kept (first s).0 next (first s).1 (λ a e. rest a) p calm;
    }

  module _ {A : Type 0} {Q : A → Type 0} where
    pub KeepsTo-lift : (m : Outcome A) → (N → m ≢ panic) → Yields Q m → KeepsTo N P Q (lift m)
    KeepsTo-lift m calm y = record { kept_to = λ s h. ((h, calm), y) }

  module _ {A B : Type 0} {Q : A → Type 0} where
    pub KeepsTo-map :
        (m : Outcome B) (f : B → A)
        → (N → m ≢ panic)
        → ((b : B) → Q (f b))
        → KeepsTo N P Q (lift m >>= (λ b. pure (f b)))
    unfolding ◌>>=◌
    KeepsTo-map (ok b) f calm k = record {
      kept_to = λ s h. ((h, λ n. ok_calm (f b)), ok-Yields Q _ (k b));
    }
    KeepsTo-map (err x) f calm k = record {
      kept_to = λ s h. ((h, λ n. err_calm x), record { yielded = λ a e. cc });
    }
    KeepsTo-map panic f calm k = record {
      kept_to = λ s h. ((h, λ n p. calm n refl), record { yielded = λ a e. cc });
    }

    pub Keeps-bind_to :
        (first : Sync A) (next : A → Sync B)
        → KeepsTo N P Q first
        → ((a : A) → Q a → Keeps N P (next a))
        → Keeps N P (first >>= next)
    unfolding ◌>>=◌
    Keeps-bind_to first next kept rest = record {
      preserved = λ s h.
          let ((p, calm), y) = kept.kept_to s h in
          continue_kept (first s).0 next (first s).1 (λ a e. rest a (y.yielded a e)) p calm;
    }

  pub Keeps-when : (b : Bool) (m : Sync (Unit {0})) → Keeps N P m → Keeps N P (when b m)
  Keeps-when true m k = k
  Keeps-when false m k = Keeps-pure tt
