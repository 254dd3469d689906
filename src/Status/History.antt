-- ===== src/Status/History.antt =====
-- Conditions over the life of a job: any list of calls of `setCondition`, from an empty status.
use mpi_operator.Prelude.{
  String, ◌≡◌, refl, ◌≢◌, ◌⊎◌, inl, inr, sym, ◌∙◌, true, false, none, some, List, [], ◌∷◌, ◌++◌,
  arith, ◌==◌, eq_iff, false≢true,
}
use mpi_operator.Prelude.Tests.{Bool-cases}
use mpi_operator.Api.{JobStatus, JobCondition, job_running, job_restarting}
use mpi_operator.Status.{
  get_condition, is_dropped, filter_out_condition, carry_transition, is_same, set_condition,
}
use mpi_operator.Status.Filter.{
  demote_option, type-demote, get_condition-filter_out_condition, is_dropped_self,
}
use mpi_operator.Status.Update.{carry_transition_fields, set_condition_others}

-- No two conditions have one type.
abbrev pub IsUnique : List JobCondition → Type 0
IsUnique [] = Unit
IsUnique (c ∷ cs) = (get_condition cs c.type ≡ none) × IsUnique cs

-- Running and Restarting do not stand side by side.
abbrev pub IsExclusive : List JobCondition → Type 0
IsExclusive cs = (get_condition cs job_running ≡ none) ⊎ (get_condition cs job_restarting ≡ none)

filter_keeps_none :
    (cs : List JobCondition) (t k : String)
    → get_condition cs k ≡ none
    → get_condition (filter_out_condition cs t) k ≡ none
unfolding demote_option
filter_keeps_none cs t k h = ground (arith, get_condition-filter_out_condition cs t k)

filter-IsUnique :
    (cs : List JobCondition) (t : String) → IsUnique cs → IsUnique (filter_out_condition cs t)
unfolding filter_out_condition
filter-IsUnique [] t h = tt
filter-IsUnique (c ∷ cs) t h = elim (Bool-cases (is_dropped t c.type)) [
  | inl gone ↦ rw gone (filter-IsUnique cs t h.1)
  | inr kept ↦
      rw kept (rw (type-demote t c) (filter_keeps_none cs t c.type h.0), filter-IsUnique cs t h.1)
]

get_condition-append_fresh :
    (cs : List JobCondition) (d : JobCondition) (k : String)
    → get_condition cs k ≡ none
    → d.type ≢ k
    → get_condition (cs ++ d ∷ []) k ≡ none
unfolding get_condition
get_condition-append_fresh [] d k h ne = ground (arith, eq_iff d.type k)
get_condition-append_fresh (c ∷ cs) d k h ne = ground (arith, get_condition-append_fresh cs d k)

found_first : (c : JobCondition) (cs : List JobCondition) → get_condition (c ∷ cs) c.type ≡ some c
unfolding get_condition
found_first c cs = rw ((eq_iff c.type c.type).1 refl)

get_condition-tail :
    (c : JobCondition) (cs : List JobCondition) (k : String)
    → get_condition (c ∷ cs) k ≡ none
    → (get_condition cs k ≡ none) × (c.type ≢ k)
unfolding get_condition
get_condition-tail c cs k h = ground (arith, eq_iff c.type k)

append-IsUnique :
    (cs : List JobCondition) (d : JobCondition)
    → IsUnique cs
    → get_condition cs d.type ≡ none
    → IsUnique (cs ++ d ∷ [])
unfolding get_condition
append-IsUnique [] d h fresh = (refl, tt)
append-IsUnique (c ∷ cs) d h fresh =
    let (rest, ne) = get_condition-tail c cs d.type fresh in
    (get_condition-append_fresh cs d c.type h.0 (λ e. ne (sym e)), append-IsUnique cs d h.1 rest)

set_condition-IsUnique :
    (s : JobStatus) (c : JobCondition)
    → IsUnique s.conditions
    → IsUnique (set_condition s c).0.conditions
unfolding set_condition
set_condition-IsUnique s c h =
    let current = get_condition s.conditions c.type in
    let d = carry_transition current c in
    let same_type : d.type ≡ c.type = (carry_transition_fields current c).0 in
    let gone : get_condition (filter_out_condition s.conditions c.type) c.type ≡ none =
      get_condition-filter_out_condition s.conditions c.type c.type ∙ rw (is_dropped_self c.type) in
    elim (Bool-cases (is_same current c)) [
      | inl same ↦ rw same h
      | inr new ↦ rw new (
          append-IsUnique (filter_out_condition s.conditions c.type) d
            (filter-IsUnique s.conditions c.type h) (rw same_type gone))
    ]

running_drops_restarting : is_dropped job_running job_restarting ≡ true
unfolding is_dropped
running_drops_restarting = refl

restarting_drops_running : is_dropped job_restarting job_running ≡ true
unfolding is_dropped
restarting_drops_running = refl

running_is_not_restarting : job_running ≢ job_restarting
running_is_not_restarting p = false≢true ((eq_iff job_running job_restarting).1 p)

-- A condition that was not there, of another type than the one that is set, is still not there.
still_none :
    (s : JobStatus) (c : JobCondition) (k : String)
    → c.type ≢ k
    → get_condition s.conditions k ≡ none
    → get_condition (set_condition s c).0.conditions k ≡ none
unfolding demote_option
still_none s c k ne h = ground (arith, set_condition_others s c k ne)

-- A change to a type that drops `k` leaves none of `k`.
dropped_none :
    (s : JobStatus) (c : JobCondition) (k : String)
    → c.type ≢ k
    → is_dropped c.type k ≡ true
    → is_same (get_condition s.conditions c.type) c ≡ false
    → get_condition (set_condition s c).0.conditions k ≡ none
dropped_none s c k ne d new = ground (arith, set_condition_others s c k ne)

same-Keeps :
    (s : JobStatus) (c : JobCondition)
    → is_same (get_condition s.conditions c.type) c ≡ true
    → (set_condition s c).0 ≡ s
unfolding set_condition
same-Keeps s c h = rw h

set_condition-IsExclusive :
    (s : JobStatus) (c : JobCondition)
    → IsExclusive s.conditions
    → IsExclusive (set_condition s c).0.conditions
set_condition-IsExclusive s c h =
    elim (Bool-cases (is_same (get_condition s.conditions c.type) c)) [
      | inl same ↦ rw (same-Keeps s c same) h
      | inr new ↦ elim (Bool-cases (c.type == job_running)) [
        | inl r ↦
            let e : c.type ≡ job_running = (eq_iff c.type job_running).0 r in
            inr (
              dropped_none s c job_restarting (λ p. running_is_not_restarting (sym e ∙ p))
                (rw e running_drops_restarting) new)
        | inr not_r ↦ elim (Bool-cases (c.type == job_restarting)) [
          | inl r ↦
              let e : c.type ≡ job_restarting = (eq_iff c.type job_restarting).0 r in
              inl (
                dropped_none s c job_running (λ p. running_is_not_restarting (sym (sym e ∙ p)))
                  (rw e restarting_drops_running) new)
          | inr not_s ↦ elim h [
            | inl none_running ↦ inl (
                still_none s c job_running
                  (λ p. false≢true (sym not_r ∙ (eq_iff c.type job_running).1 p)) none_running)
            | inr none_restarting ↦ inr (
                still_none s c job_restarting
                  (λ p. false≢true (sym not_s ∙ (eq_iff c.type job_restarting).1 p))
                  none_restarting)
          ]
        ]
      ]
    ]

-- The calls of `setCondition` over the life of a job, one after another.
unfoldable pub set_conditions : JobStatus → List JobCondition → JobStatus
set_conditions s [] = s
set_conditions s (c ∷ cs) = set_conditions (set_condition s c).0 cs

-- From conditions of distinct types, of which Running and Restarting are not both there, no list of
-- calls of `setCondition` ever leaves two conditions of
-- one type, or Running beside Restarting.
pub set_conditions_invariant :
    (s : JobStatus) (cs : List JobCondition)
    → IsUnique s.conditions
    → IsExclusive s.conditions
    → IsUnique (set_conditions s cs).conditions × IsExclusive (set_conditions s cs).conditions
unfolding set_conditions
set_conditions_invariant s [] u x = (u, x)
set_conditions_invariant s (c ∷ cs) u x =
    set_conditions_invariant (set_condition s c).0 cs (set_condition-IsUnique s c u)
      (set_condition-IsExclusive s c x)
