-- ===== src/Controller/Status.antt =====
-- updateGroupJobStatus and what it calls.
pub mod Counts
use Prim.Native.String.{len, slice}
use mpi_operator.Prelude.{
  String, ℕ, zero, suc, ◌+◌, ◌-◌, Bool, true, false, ◌&&◌, ◌||◌, not, Option, none, some, List, [],
  ◌∷◌, ◌==◌,
}
use mpi_operator.Prelude.Tests.{if◌then◌else◌, ltb, leb, nat_eq, length, filter_by, is_nil, ◌⧺◌}
use mpi_operator.Prelude.Int.{ℤ, pos, ◌+ℤ◌, wrap32, eqb_ℤ}
use mpi_operator.Prelude.Assoc.{Assoc, lookup}
use mpi_operator.Prelude.Decimal.{itoa}
use mpi_operator.Api.{
  GroupJob, JobStatus, JobCondition, ReplicaStatus, Pod, PodPhase, pod_pending, pod_running,
  pod_succeeded, pod_failed, pod_unknown, Job, ObjectCondition, Time, condition_true,
  condition_false, batch_job_complete, batch_job_failed, backoff_limit_exceeded,
  event_message_limit, job_suspended, job_running, job_succeeded, job_failed, suspended_reason,
  resumed_reason, succeeded_reason, failed_reason, evicted_reason, running_reason,
  replica_type_launcher, replica_type_worker,
}
use mpi_operator.Outcome.{wrap, Outcome, ok, err, panic, deref}
use mpi_operator.Names.{is_group_job_suspended}
use mpi_operator.Status.{
  initialize_statuses, set_status, statuses_or_empty, get_condition, update_conditions,
}
use mpi_operator.Controller.World.{
  Answer, found, failed, Env, State, Sync, Action, update_status, event, normal, warning,
  count_succeeded, count_failed, set_job_info, ◌>>=◌, ◌>>◌, pure, raise, crash, lift, gets, perform,
  emit, modify_job, when,
}
use mpi_operator.Controller.Resources.{is_pod_running, is_pod_failed}

pub get_job_condition : List ObjectCondition → String → Option ObjectCondition
get_job_condition [] t = none
get_job_condition (c ∷ cs) t = if c.type == t then some c else get_job_condition cs t

-- `c != nil && c.Status == ConditionTrue`
abbrev pub is_true : Option ObjectCondition → Bool
is_true none = false
is_true (some c) = c.status == condition_true

pub is_job_succeeded : Job → Bool
is_job_succeeded l = is_true (get_job_condition l.conditions batch_job_complete)

unfoldable pub is_job_failed : Job → Bool
is_job_failed l = is_true (get_job_condition l.conditions batch_job_failed)

pub is_job_finished : Job → Bool
unfolding is_job_succeeded is_job_failed
is_job_finished l = is_job_succeeded l || is_job_failed l

-- A message is cut after a number of bytes; where that is inside of a character, Go leaves a part of it.
pub truncate_message : String → String
truncate_message message =
    if leb (len message) event_message_limit
    then message
    else slice message 0 (event_message_limit - 3) ⧺ "..."

pub count_running_pods : List Pod → ℕ
count_running_pods [] = 0
count_running_pods (p ∷ ps) =
    let rest = count_running_pods ps in if is_pod_running p then suc rest else rest

-- The failed pod with the latest creation time, the first of those.
last_failed_pod : Option Pod → List Pod → Option Pod
last_failed_pod last [] = last
last_failed_pod last (p ∷ ps) =
    last_failed_pod
      (if is_pod_failed p && (elim last [
        | none ↦ true
        | some q ↦ ltb q.meta.creation_timestamp p.meta.creation_timestamp
      ])
        then some p
        else last)
      ps

-- The counts of the loop over the workers.
pub record Tally : Type 0 where
  pub status : ReplicaStatus
  pub running : ℕ
  pub evict : ℕ

abbrev pub increment : ℤ → ℤ
increment z = wrap32 (z +ℤ pos 1)

pub tally_pod : Tally → Pod → PodPhase → Tally
tally_pod t p pod_failed = record t {
  status = record t.status { failed = increment t.status.failed };
  evict = if p.reason == "Evicted" then t.evict + 1 else t.evict;
}
tally_pod t p pod_succeeded = record t {
  status = record t.status { succeeded = increment t.status.succeeded };
}
tally_pod t p pod_running = record t {
  status = record t.status { active = increment t.status.active };
  running = t.running + 1;
}
tally_pod t p _ = t

pub tally_workers : Tally → List Pod → Tally
unfolding tally_pod
tally_workers t [] = t
tally_workers t (p ∷ ps) = tally_workers (tally_pod t p p.phase) ps

-- `reflect.DeepEqual` on statuses.
same_condition : JobCondition → JobCondition → Bool
same_condition a b =
    a.type == b.type
    && (a.status == b.status
        && (a.reason == b.reason
            && (a.message == b.message
                && (nat_eq a.last_update_time b.last_update_time
                    && nat_eq a.last_transition_time b.last_transition_time))))

same_conditions : List JobCondition → List JobCondition → Bool
unfolding same_condition
same_conditions [] [] = true
same_conditions (a ∷ as') (b ∷ bs) = same_condition a b && same_conditions as' bs
same_conditions _ _ = false

same_replica_status : ReplicaStatus → ReplicaStatus → Bool
same_replica_status a b =
    eqb_ℤ a.active b.active && (eqb_ℤ a.succeeded b.succeeded && eqb_ℤ a.failed b.failed)

within : Assoc ReplicaStatus → Assoc ReplicaStatus → Bool
unfolding same_replica_status
within [] b = true
within ((k, v) ∷ a) b =
    (elim (lookup k b) [ none ↦ false | some w ↦ same_replica_status v w ]) && within a b

same_replica_statuses : Option (Assoc ReplicaStatus) → Option (Assoc ReplicaStatus) → Bool
unfolding within
same_replica_statuses none none = true
same_replica_statuses (some a) (some b) = within a b && within b a
same_replica_statuses _ _ = false

same_time : Option Time → Option Time → Bool
same_time none none = true
same_time (some a) (some b) = nat_eq a b
same_time _ _ = false

pub same_status : JobStatus → JobStatus → Bool
unfolding same_conditions same_replica_statuses same_time
same_status a b =
    same_conditions a.conditions b.conditions
    && (same_replica_statuses a.replica_statuses b.replica_statuses
        && (same_time a.start_time b.start_time && same_time a.completion_time b.completion_time))

-- The event of a failed launcher: its reason and message, with those of the last failed pod.
abbrev failed_texts : (reason message : String) → Option Pod → String × String
failed_texts reason message none = (reason, message)
failed_texts reason message (some p) =
    (reason ⧺ "/" ⧺ p.reason, truncate_message (message ⧺ ": " ⧺ p.message))

abbrev or_text : String → String → String
or_text s d = if s == "" then d else s

abbrev pub full_name : GroupJob → String
full_name j = j.meta.namespace ⧺ "/" ⧺ j.meta.name

pub failed_reason_message : GroupJob → ObjectCondition → List Pod → String × String
unfolding last_failed_pod truncate_message
failed_reason_message j c launcher_pods =
    let reason = or_text c.reason failed_reason in
    let message = or_text c.message ("GroupJob " ⧺ full_name j ⧺ " has failed") in
    if reason == backoff_limit_exceeded
    then failed_texts reason message (last_failed_pod none launcher_pods)
    else (reason, message)
