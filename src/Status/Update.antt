-- ===== src/Status/Update.antt =====
-- What `setCondition` makes of a status: the new condition, the others, the report of a change.
use mpi_operator.Prelude.{
  String, ◌≡◌, refl, ◌≢◌, ◌⊎◌, inl, inr, true, false, Option, none, some, List, [], ◌∷◌, ◌++◌,
  arith, ◌==◌, eq_iff, ap, sym, ◌∙◌, ◌&&◌, false≢true, and_false,
}
use mpi_operator.Prelude.Tests.{if◌then◌else◌, Bool-cases}
use mpi_operator.Api.{
  JobStatus, JobCondition, condition_true, condition_false, job_running, job_failed, job_succeeded,
}
use mpi_operator.Status.{
  get_condition, has_condition, is_dropped, is_demoted, demote, filter_out_condition,
  carry_transition, is_same, set_condition,
}
use mpi_operator.Status.Filter.{
  demote_option, get_condition-filter_out_condition, get_condition-append, is_dropped_self,
}

pub get_condition-type :
    (cs : List JobCondition) (t : String) (c : JobCondition)
    → get_condition cs t ≡ some c
    → c.type ≡ t
unfolding get_condition
get_condition-type [] t c h = ground arith
get_condition-type (x ∷ cs) t c h = ground (arith, get_condition-type cs t c, eq_iff x.type t)

pub carry_transition_fields :
    (o : Option JobCondition) (c : JobCondition)
    → ((carry_transition o c).type ≡ c.type)
      × ((carry_transition o c).status ≡ c.status)
      × ((carry_transition o c).reason ≡ c.reason)
unfolding carry_transition
carry_transition_fields none c = (refl, refl, refl)
carry_transition_fields (some cur) c = ground arith

-- The filtered list has no condition of the new type, so the appended one is found.
pub get_condition-set_self :
    (cs : List JobCondition) (o : Option JobCondition) (c : JobCondition)
    → get_condition (filter_out_condition cs c.type ++ carry_transition o c ∷ []) c.type
      ≡ some (carry_transition o c)
unfolding get_condition
get_condition-set_self cs o c = ground (
  arith,
  get_condition-filter_out_condition cs c.type c.type,
  is_dropped_self c.type,
  get_condition-append (filter_out_condition cs c.type) (carry_transition o c ∷ []) c.type,
  carry_transition_fields o c,
  eq_iff (carry_transition o c).type c.type,
)

get_condition-append_other :
    (cs : List JobCondition) (d : JobCondition) (k : String)
    → d.type ≢ k
    → get_condition (cs ++ d ∷ []) k ≡ get_condition cs k
unfolding get_condition
get_condition-append_other [] d k h = ground (arith, eq_iff d.type k)
get_condition-append_other (c ∷ cs) d k h = ground (arith, get_condition-append_other cs d k)

-- After `setCondition`, the condition that is found of the type that was set has the status and the
-- reason that were set, whether the list was changed or not.
set_condition_records :
    (s : JobStatus) (c : JobCondition)
    → (x : JobCondition) × (get_condition (set_condition s c).0.conditions c.type ≡ some x)
      × (x.status ≡ c.status)
      × (x.reason ≡ c.reason)
unfolding set_condition
set_condition_records s c = go (get_condition s.conditions c.type) refl
  where
    go :
        (o : Option JobCondition)
        → get_condition s.conditions c.type ≡ o
        → (x : JobCondition) × (get_condition (set_condition s c).0.conditions c.type ≡ some x)
          × (x.status ≡ c.status)
          × (x.reason ≡ c.reason)
    go none e = (
      carry_transition none c,
      ground (arith, get_condition-set_self s.conditions none c),
      refl,
      refl,
    )
    go (some cur) e = elim (Bool-cases (is_same (some cur) c)) [
      | inl same ↦ (
        cur,
        ground arith,
        ground (arith, eq_iff cur.status c.status),
        ground (arith, eq_iff cur.reason c.reason),
      )
      | inr new ↦ (
        carry_transition (some cur) c,
        ground (arith, get_condition-set_self s.conditions (some cur) c),
        (carry_transition_fields (some cur) c).1,
        (carry_transition_fields (some cur) c).2,
      )
    ]

-- A condition of another type is kept where nothing changes. Else it is dropped exactly for the pair
-- Running and Restarting, and a Running or Failed one is set to False where the job ends.
pub set_condition_others :
    (s : JobStatus) (c : JobCondition) (k : String)
    → c.type ≢ k
    → get_condition (set_condition s c).0.conditions k ≡ (
        if is_same (get_condition s.conditions c.type) c
        then get_condition s.conditions k
        else if is_dropped c.type k
        then none
        else demote_option c.type (get_condition s.conditions k))
unfolding set_condition
set_condition_others s c k ne =
    let current = get_condition s.conditions c.type in
    ground (
      arith,
      get_condition-append_other (filter_out_condition s.conditions c.type)
          (carry_transition current c) k,
      get_condition-filter_out_condition s.conditions c.type k,
      carry_transition_fields current c,
    )

set_condition_again :
    (r : JobStatus) (c x : JobCondition)
    → get_condition r.conditions c.type ≡ some x
    → x.status ≡ c.status
    → x.reason ≡ c.reason
    → set_condition r c ≡ (r, false)
unfolding set_condition
set_condition_again r c x f p q = ground (arith, eq_iff x.status c.status, eq_iff x.reason c.reason)

-- A second call with the same condition reports no change and leaves the status.
set_condition_idempotent :
    (s : JobStatus) (c : JobCondition)
    → set_condition (set_condition s c).0 c ≡ ((set_condition s c).0, false)
set_condition_idempotent s c =
    let (x, found, same_status, same_reason) = set_condition_records s c in
    set_condition_again (set_condition s c).0 c x found same_status same_reason

-- `demote`, on each side of its test.
demote_cases :
    (t : String) (c : JobCondition)
    → ((is_demoted t c.type ≡ true) × (demote t c ≡ record c { status = condition_false }))
      ⊎ ((is_demoted t c.type ≡ false) × (demote t c ≡ c))
unfolding demote
demote_cases t c = elim (Bool-cases (is_demoted t c.type)) [
  | inl e ↦ inl (e, rw e)
  | inr e ↦ inr (e, rw e)
]

false_is_not_true : (condition_false == condition_true) ≡ false
false_is_not_true = refl

demote_not_running :
    (t : String) (c : JobCondition)
    → is_demoted t job_running ≡ true
    → ((demote t c).type == job_running && (demote t c).status == condition_true) ≡ false
demote_not_running t c h = elim (demote_cases t c) [
  | inl (_, e) ↦ rw e (and_false (c.type == job_running))
  | inr (off, e) ↦ rw e (elim (Bool-cases (c.type == job_running)) [
    | inl is ↦ cc (off, h, ap (is_demoted t) ((eq_iff c.type job_running).0 is))
    | inr is_not ↦ rw is_not
  ])
]

has_condition-demoted :
    (t : String) (cs : List JobCondition)
    → is_demoted t job_running ≡ true
    → has_condition (filter_out_condition cs t) job_running ≡ false
unfolding has_condition filter_out_condition
has_condition-demoted t [] h = refl
has_condition-demoted t (c ∷ cs) h = elim (Bool-cases (is_dropped t c.type)) [
  | inl gone ↦ rw gone (has_condition-demoted t cs h)
  | inr kept ↦ rw (kept, demote_not_running t c h) (has_condition-demoted t cs h)
]

has_condition-append :
    (cs : List JobCondition) (d : JobCondition) (t : String)
    → has_condition cs t ≡ false
    → d.type ≢ t
    → has_condition (cs ++ d ∷ []) t ≡ false
unfolding has_condition
has_condition-append [] d t h ne = ground (arith, eq_iff d.type t)
has_condition-append (c ∷ cs) d t h ne = ground (arith, has_condition-append cs d t)

ends_running :
    (s : JobStatus) (c : JobCondition)
    → is_demoted c.type job_running ≡ true
    → c.type ≢ job_running
    → (set_condition s c).1 ≡ true
    → has_condition (set_condition s c).0.conditions job_running ≡ false
unfolding set_condition
ends_running s c d ne changed =
    let current = get_condition s.conditions c.type in
    ground (
      arith,
      has_condition-demoted c.type s.conditions d,
      has_condition-append (filter_out_condition s.conditions c.type) (carry_transition current c)
          job_running,
      carry_transition_fields current c,
    )

failed_is_not_running : job_failed ≢ job_running
failed_is_not_running p = false≢true ((eq_iff job_failed job_running).1 p)

succeeded_is_not_running : job_succeeded ≢ job_running
succeeded_is_not_running p = false≢true ((eq_iff job_succeeded job_running).1 p)

-- A change that ends a job (Failed or Succeeded) leaves no Running condition that is True.
set_condition_ends_running :
    (s : JobStatus) (c : JobCondition)
    → (c.type ≡ job_failed) ⊎ (c.type ≡ job_succeeded)
    → (set_condition s c).1 ≡ true
    → has_condition (set_condition s c).0.conditions job_running ≡ false
unfolding is_demoted
set_condition_ends_running s c (inl e) changed =
    ends_running s c (rw e) (λ p. failed_is_not_running (sym e ∙ p)) changed
set_condition_ends_running s c (inr e) changed =
    ends_running s c (rw e) (λ p. succeeded_is_not_running (sym e ∙ p)) changed
