-- ===== src/Status/View.antt =====
-- What the conditions of a status say, without their order: for each type the condition that is found.
use mathlib.Core.Path.{fun_ext}
use mpi_operator.Prelude.{
  String, ◌≡◌, refl, ◌≢◌, inl, inr, ap, ◌∙◌, subst, Bool, false, ◌&&◌, ◌||◌, Option, none, some,
  List, [], ◌∷◌, ◌==◌, eq_iff, arith,
}
use mpi_operator.Prelude.Tests.{if◌then◌else◌, Bool-cases}
use mpi_operator.Api.{
  JobStatus, JobCondition, condition_false, job_running, job_restarting, job_failed, job_succeeded,
}
use mpi_operator.Status.{
  get_condition, is_dropped, is_demoted, demote, carry_transition, is_same, set_condition,
}
use mpi_operator.Status.Filter.{demote_option}
use mpi_operator.Status.Update.{get_condition-type, get_condition-set_self, set_condition_others}
use mpi_operator.Status.History.{set_conditions}

abbrev pub View : Type 0
View = String → Option JobCondition

abbrev pub view : JobStatus → View
view s t = get_condition s.conditions t

-- A job does not run and restart at once.
abbrev pub excludes : (new old : String) → Bool
excludes new old =
    (new == job_running && old == job_restarting) || (new == job_restarting && old == job_running)

-- A job that has ended does not run, and one that ends again has not failed before.
abbrev pub revokes : (new old : String) → Bool
revokes new old =
    (new == job_failed || new == job_succeeded) && (old == job_running || old == job_failed)

-- The status and the reason of a condition are those of another one.
abbrev pub says : Option JobCondition → JobCondition → Bool
says none c = false
says (some old) c = old.status == c.status && old.reason == c.reason

-- The time of the last transition stays where the status does.
abbrev pub succeed : Option JobCondition → JobCondition → JobCondition
succeed none c = c
succeed (some old) c =
    if old.status == c.status
    then record c { last_transition_time = old.last_transition_time }
    else c

abbrev pub revoke : Option JobCondition → Option JobCondition
revoke none = none
revoke (some old) = some (record old { status = condition_false })

-- What is to be said of each type once a condition is set.
abbrev pub assign : View → JobCondition → View
assign v c t =
    if says (v c.type) c
    then v t
    else if c.type == t
    then some (succeed (v c.type) c)
    else if excludes c.type t
    then none
    else if revokes c.type t
    then revoke (v t)
    else v t

abbrev pub assign_all : View → List JobCondition → View
assign_all v [] = v
assign_all v (c ∷ cs) = assign_all (assign v c) cs

says_lem : (o : Option JobCondition) (c : JobCondition) → is_same o c ≡ says o c
unfolding is_same
says_lem none c = refl
says_lem (some old) c = refl

succeed_lem : (o : Option JobCondition) (c : JobCondition) → carry_transition o c ≡ succeed o c
unfolding carry_transition
succeed_lem none c = refl
succeed_lem (some old) c = refl

is_dropped_other : (new old : String) → new ≢ old → is_dropped new old ≡ excludes new old
unfolding is_dropped
is_dropped_other new old ne = ground (arith, eq_iff old new)

demote_lem :
    (new t : String) (o : Option JobCondition)
    → ((x : JobCondition) → o ≡ some x → x.type ≡ t)
    → demote_option new o ≡ (if revokes new t then revoke o else o)
unfolding demote_option demote is_demoted
demote_lem new t none typed = ground arith
demote_lem new t (some x) typed = ground (arith, typed x refl)

view_other :
    (s : JobStatus) (c : JobCondition) (t : String)
    → c.type ≢ t
    → view (set_condition s c).0 t ≡ assign (view s) c t
view_other s c t ne =
    set_condition_others s c t ne
    ∙ ground (
      arith,
      says_lem (view s c.type) c,
      is_dropped_other c.type t ne,
      demote_lem c.type t (view s t) (get_condition-type s.conditions t),
      eq_iff c.type t,
    )

view_self :
    (s : JobStatus) (c : JobCondition)
    → view (set_condition s c).0 c.type ≡ assign (view s) c c.type
unfolding set_condition
view_self s c = ground (
  arith,
  says_lem (view s c.type) c,
  succeed_lem (view s c.type) c,
  get_condition-set_self s.conditions (view s c.type) c,
  eq_iff c.type c.type,
)

view-set_condition :
    (s : JobStatus) (c : JobCondition) → view (set_condition s c).0 ≡ assign (view s) c
view-set_condition s c = fun_ext λ t. elim (Bool-cases (c.type == t)) [
  | inl same ↦
      subst (λ k. view (set_condition s c).0 k ≡ assign (view s) c k) ((eq_iff c.type t).0 same)
        (view_self s c)
  | inr other ↦ view_other s c t (λ e. cc ((eq_iff c.type t).1 e, other))
]

-- Over the life of a job, any list of calls of setCondition does to what the conditions say, type by
-- type, what the assignments do: the condition that is set replaces the one of its type,
-- with the time of its transition if the status is the same; Running and Restarting remove one another;
-- Failed and Succeeded set Running and Failed to False; and all stays where the status and the reason
-- are not new.
pub view-set_conditions :
    (s : JobStatus) (cs : List JobCondition) → view (set_conditions s cs) ≡ assign_all (view s) cs
unfolding set_conditions
view-set_conditions s [] = refl
view-set_conditions s (c ∷ cs) =
    view-set_conditions (set_condition s c).0 cs
    ∙ ap (λ v. assign_all v cs) (view-set_condition s c)
