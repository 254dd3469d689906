-- ===== src/Status.antt =====
-- The conditions of a GroupJob's status (pkg/controller/mpi_job_controller_status.go). A function that
-- mutates the job returns the new one. `metav1.Now()` is the argument `now`.
pub mod Filter
pub mod Update
pub mod View
pub mod History
use mpi_operator.Prelude.{
  ℕ, String, ◌≡◌, Bool, true, false, ◌&&◌, ◌||◌, Option, none, some, List, [], ◌∷◌, ◌++◌, ◌==◌,
}
use mpi_operator.Prelude.Tests.{if◌then◌else◌}
use mpi_operator.Prelude.Int.{pos}
use mpi_operator.Prelude.Assoc.{Assoc, insert}
use mpi_operator.Api.{
  Time, GroupJob, JobStatus, JobCondition, ReplicaStatus, condition_true, condition_false,
  job_running, job_restarting, job_succeeded, job_failed,
}

abbrev pub zero_replica_status : ReplicaStatus
zero_replica_status = record { active = pos 0; succeeded = pos 0; failed = pos 0 }

-- The map of replica statuses, made if it is nil.
abbrev pub statuses_or_empty : Option (Assoc ReplicaStatus) → Assoc ReplicaStatus
statuses_or_empty none = []
statuses_or_empty (some m) = m

abbrev pub set_status : JobStatus → String → ReplicaStatus → JobStatus
set_status s rtype r = record s {
  replica_statuses = some (insert rtype r (statuses_or_empty s.replica_statuses));
}

unfoldable pub initialize_statuses : String → GroupJob → GroupJob
initialize_statuses rtype j = record j { status = set_status j.status rtype zero_replica_status }

unfoldable pub new_condition : Time → (type status reason message : String) → JobCondition
new_condition now type status reason message = record {
  type = type;
  status = status;
  reason = reason;
  message = message;
  last_update_time = now;
  last_transition_time = now;
}

unfoldable pub get_condition : List JobCondition → String → Option JobCondition
get_condition [] t = none
get_condition (c ∷ cs) t = if c.type == t then some c else get_condition cs t

pub has_condition : List JobCondition → String → Bool
has_condition [] t = false
has_condition (c ∷ cs) t = c.type == t && c.status == condition_true || has_condition cs t

is_succeeded : JobStatus → Bool
is_succeeded s = has_condition s.conditions job_succeeded

is_failed : JobStatus → Bool
is_failed s = has_condition s.conditions job_failed

pub is_finished : JobStatus → Bool
unfolding is_succeeded is_failed
is_finished s = is_succeeded s || is_failed s

-- The tests of the loop's `continue`s: an old condition of type `old` goes when `t` is set.
pub is_dropped : (t old : String) → Bool
is_dropped t old =
    t == job_restarting && old == job_running
    || (t == job_running && old == job_restarting || old == t)

-- The last test of the loop: a finished job is no longer running, and a new end replaces a failure.
pub is_demoted : (t old : String) → Bool
is_demoted t old =
    (t == job_failed || t == job_succeeded) && (old == job_running || old == job_failed)

pub demote : String → JobCondition → JobCondition
unfolding is_demoted
demote t c = if is_demoted t c.type then record c { status = condition_false } else c

pub filter_out_condition : List JobCondition → String → List JobCondition
filter_out_condition [] t = []
filter_out_condition (c ∷ cs) t =
    let rest = filter_out_condition cs t in if is_dropped t c.type then rest else demote t c ∷ rest

-- The condition that is appended: it keeps the time of its transition if the status is the old one.
pub carry_transition : Option JobCondition → JobCondition → JobCondition
carry_transition none c = c
carry_transition (some cur) c =
    if cur.status == c.status
    then record c { last_transition_time = cur.last_transition_time }
    else c

-- `currentCond != nil` with the same status and the same reason
unfoldable pub is_same : Option JobCondition → JobCondition → Bool
is_same none c = false
is_same (some cur) c = cur.status == c.status && cur.reason == c.reason

unfoldable pub set_condition : JobStatus → JobCondition → JobStatus × Bool
unfolding is_same carry_transition
set_condition s c =
    let current = get_condition s.conditions c.type in
    if is_same current c then (s, false) else (
      record s {
        conditions = filter_out_condition s.conditions c.type ++ carry_transition current c ∷ [];
      },
      true,
    )

unfoldable pub update_conditions :
    Time → (type status reason message : String) → GroupJob → GroupJob × Bool
update_conditions now type status reason message j =
    let (s, changed) = set_condition j.status (new_condition now type status reason message) in
    (record j { status = s }, changed)
