-- ===== src/Status/Filter.antt =====
-- What `filterOutCondition` leaves of each condition.
use mpi_operator.Prelude.{
  String, ◌≡◌, refl, true, Option, none, some, List, [], ◌∷◌, ◌++◌, arith, eq_iff,
}
use mpi_operator.Prelude.Tests.{if◌then◌else◌}
use mpi_operator.Api.{JobCondition}
use mpi_operator.Status.{get_condition, is_dropped, demote, filter_out_condition}

unfoldable pub demote_option : String → Option JobCondition → Option JobCondition
demote_option t none = none
demote_option t (some c) = some (demote t c)

pub type-demote : (t : String) (c : JobCondition) → (demote t c).type ≡ c.type
unfolding demote
type-demote t c = ground arith

-- After the filter, a condition is found of a type exactly if one was found before and its type is
-- not dropped, and then it is the old one, demoted where the new condition ends the job.
pub get_condition-filter_out_condition :
    (cs : List JobCondition) (t k : String)
    → get_condition (filter_out_condition cs t) k
      ≡ (if is_dropped t k then none else demote_option t (get_condition cs k))
unfolding get_condition filter_out_condition demote_option
get_condition-filter_out_condition [] t k = ground arith
get_condition-filter_out_condition (c ∷ cs) t k = ground (
  arith,
  get_condition-filter_out_condition cs t k,
  type-demote t c,
  eq_iff c.type k,
  eq_iff (demote t c).type k,
)

pub get_condition-append :
    (cs ds : List JobCondition) (k : String)
    → get_condition cs k ≡ none
    → get_condition (cs ++ ds) k ≡ get_condition ds k
unfolding get_condition
get_condition-append [] ds k h = refl
get_condition-append (c ∷ cs) ds k h = ground (arith, get_condition-append cs ds k)

get_condition-append_some :
    (cs ds : List JobCondition) (k : String) (c : JobCondition)
    → get_condition cs k ≡ some c
    → get_condition (cs ++ ds) k ≡ some c
unfolding get_condition
get_condition-append_some [] ds k c h = ground arith
get_condition-append_some (x ∷ cs) ds k c h = ground (arith, get_condition-append_some cs ds k c)

pub is_dropped_self : (t : String) → is_dropped t t ≡ true
unfolding is_dropped
is_dropped_self t = ground (arith, eq_iff t t)
