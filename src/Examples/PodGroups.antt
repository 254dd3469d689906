-- ===== src/Examples/PodGroups.antt =====
-- The PodGroup of a small job, with an API server and a cache for it.
use mpi_operator.Prelude.{◌≡◌, refl, none, some, [], ◌∷◌}
use mpi_operator.Prelude.Int.{ℤ, pos, eqb_ℤ}
use mpi_operator.Api.{GroupJob, PodGroup, PodGroupSpec, volcano_spec, scheduler_plugins_spec}
use mpi_operator.Outcome.{ok}
use mpi_operator.PodGroup.Control.{
  volcano, new_pod_group, calculate_min_available, calculate_pg_min_resources,
}
use mpi_operator.Prelude.Assoc.{lookup}
use mpi_operator.Controller.World.{State, Env, found, update_pod_group}
use mpi_operator.Controller.PodGroups.{get_pod_group, respecified, get_or_create_pod_groups}
use mpi_operator.Controller.PodGroups.Update.{update_pod_group_once}
use mpi_operator.Examples.Jobs.{pi_job, run_policy, plain_meta}
use mpi_operator.Examples.Setup.{env, empty_cache, machinery}

abbrev member_count : PodGroupSpec → ℤ
member_count (volcano_spec v) = v.min_member
member_count (scheduler_plugins_spec p) = p.min_member

abbrev gang_env : Env
gang_env = record env {
  gang = some volcano;
  specs_equal = λ a b. eqb_ℤ (member_count a) (member_count b);
}

-- A job that asks for no member at least.
abbrev gang_job : GroupJob
gang_job = record pi_job {
  spec = record pi_job.spec {
    run_policy = record run_policy {
      scheduling_policy = some (record {
        min_available = some (pos 0);
        queue = "";
        min_resources = none;
        priority_class = "";
        schedule_timeout_seconds = none;
      });
    };
  };
}

abbrev pod_group_of : ℤ → PodGroup
pod_group_of z = record {
  meta = record (plain_meta "pi") {
    kind = "PodGroup";
    uid = "";
    owner_references = machinery.new_controller_ref gang_job.meta ∷ [];
  };
  spec =
      volcano_spec
        (record { min_member = z; queue = ""; priority_class_name = ""; min_resources = none });
}

abbrev gang_state : State
gang_state = record {
  job = gang_job;
  cache = record empty_cache { pod_groups = λ namespace name. found (pod_group_of (pos 5)) };
  trace = [];
}

-- It is there with five members at least.
update_pod_group_once_example :
    ((get_or_create_pod_groups gang_env volcano gang_state).1.trace
      ≡ update_pod_group (respecified (pod_group_of (pos 5)) (pod_group_of (pos 0))) ∷ [])
    × (get_pod_group "default" "pi" (get_or_create_pod_groups gang_env volcano gang_state).1
        ≡ found (respecified (pod_group_of (pos 5)) (pod_group_of (pos 0))))
    × (get_or_create_pod_groups gang_env volcano
          (get_or_create_pod_groups gang_env volcano gang_state).1
        ≡ (
          ok (respecified (pod_group_of (pos 5)) (pod_group_of (pos 0))),
          (get_or_create_pod_groups gang_env volcano gang_state).1,
        ))
unfolding new_pod_group calculate_min_available calculate_pg_min_resources lookup
update_pod_group_once_example =
    update_pod_group_once gang_env volcano (pod_group_of (pos 5)) (pod_group_of (pos 0)) gang_state
      refl refl refl refl refl
