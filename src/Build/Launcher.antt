-- ===== src/Build/Launcher.antt =====
-- newLauncherJob, newLauncherPodTemplate.
use mpi_operator.Prelude.{
  String, Bool, true, false, not, Option, none, some, List, [], ◌∷◌, ◌++◌, ◌==◌,
}
use mpi_operator.Prelude.Tests.{if◌then◌else◌, ◌⧺◌}
use mpi_operator.Prelude.Int.{ℤ, pos}
use mpi_operator.Prelude.Assoc.{insert}
use mpi_operator.Prelude.Decimal.{itoa}
use mpi_operator.Api.{
  GroupJob, PodSpec, PodTemplateSpec, EnvVar, config_map_volume, KeyToPath, launcher_spec,
  replica_index_label, launcher_role, config_suffix, hostfile_name, discover_hosts_script_name,
  open_mpi, intel, mpich,
}
use mpi_operator.Api.Kube
use mpi_operator.Machinery.{Machinery}
use mpi_operator.Outcome.{Outcome, ok, ◌>>=◌, deref}
use mpi_operator.Names.{launcher_name, run_launcher_as_worker, is_group_job_suspended}
use mpi_operator.PodGroup.Control.{GangScheduler}
use mpi_operator.Build.Config.{owned_meta, app_label}
use mpi_operator.Build.Template.{
  with_main_container, set_restart_policy, setup_ssh_on_pod, set_host, with_default_labels,
  decorate,
}

abbrev env_var : String → String → EnvVar
env_var name value = record { name = name; value = value }

abbrev hostfile_path : String
hostfile_path = "/etc/mpi/hostfile"

abbrev ompi_env_vars : List EnvVar
ompi_env_vars =
    env_var "OMPI_MCA_orte_keep_fqdn_hostnames" "true"
    ∷ env_var "OMPI_MCA_orte_default_hostfile" hostfile_path
    ∷ env_var "OMPI_MCA_plm_rsh_args" "-o ConnectionAttempts=10"
    ∷ []

abbrev intel_env_vars : List EnvVar
intel_env_vars =
    env_var "I_MPI_HYDRA_HOST_FILE" hostfile_path
    ∷ env_var "I_MPI_HYDRA_BOOTSTRAP_EXEC_EXTRA_ARGS" "-o ConnectionAttempts=10"
    ∷ []

abbrev mpich_env_vars : List EnvVar
mpich_env_vars =
    env_var "HYDRA_HOST_FILE" hostfile_path
    ∷ env_var "HYDRA_LAUNCH_EXTRA_ARGS" "-o ConnectionAttempts=10"
    ∷ []

abbrev nvidia_disable_env_vars : List EnvVar
nvidia_disable_env_vars =
    env_var "NVIDIA_VISIBLE_DEVICES" "" ∷ env_var "NVIDIA_DRIVER_CAPABILITIES" "" ∷ []

-- The modes 0444 and 0555 are 292 and 365.
abbrev config_volume_items : List KeyToPath
config_volume_items =
    record { key = hostfile_name; path = hostfile_name; mode = some (pos 292) }
    ∷ record {
      key = discover_hosts_script_name;
      path = discover_hosts_script_name;
      mode = some (pos 365);
    }
    ∷ []

-- The variables of the `switch` on the implementation.
implementation_env : String → String → List EnvVar
implementation_env implementation slots =
    if implementation == open_mpi
    then ompi_env_vars ++ env_var "OMPI_MCA_orte_set_default_slots" slots ∷ []
    else if implementation == intel
    then intel_env_vars ++ env_var "I_MPI_PERHOST" slots ∷ []
    else if implementation == mpich
    then mpich_env_vars
    else []

launcher_env : GroupJob → ℤ → List EnvVar
unfolding implementation_env
launcher_env j slots =
    env_var "K_MPI_JOB_ROLE" launcher_role
    ∷ (implementation_env j.spec.mpi_implementation (itoa slots)
        ++ (if run_launcher_as_worker j then [] else nvidia_disable_env_vars))

unfoldable pub launcher_labels : GroupJob → PodTemplateSpec → PodTemplateSpec
launcher_labels j t =
    if run_launcher_as_worker j
    then record t { labels = insert replica_index_label "0" t.labels }
    else t

-- The volume of the ConfigMap, and its mount in the first container.
unfoldable pub mount_config : GroupJob → PodSpec → Outcome PodSpec
mount_config j s =
    with_main_container
      (λ c. record c {
        volume_mounts =
            c.volume_mounts ++ record { name = "mpi-job-config"; mount_path = "/etc/mpi" } ∷ [];
      })
      (record s {
        volumes =
            s.volumes
            ++ config_map_volume "mpi-job-config" (j.meta.name ⧺ config_suffix) config_volume_items
              ∷ [];
      })

unfoldable pub new_launcher_pod_template :
    Machinery → Option GangScheduler → GroupJob → Outcome PodTemplateSpec
unfolding launcher_labels launcher_env mount_config
new_launcher_pod_template m g j = deref (launcher_spec j) >>= λ r.
    let t = launcher_labels j (decorate m g j (with_default_labels j launcher_role r.template)) in
    deref j.spec.slots_per_worker >>= λ slots.
    with_main_container (λ c. record c { env = c.env ++ launcher_env j slots })
      (set_host j (launcher_name j) t.spec)
    >>= λ s. setup_ssh_on_pod s j >>= λ s'. mount_config j (set_restart_policy s' r) >>= λ s''.
        ok (record t { owner_references = m.new_controller_ref j.meta ∷ []; spec = s'' })

-- The test of the warning that the template's restart policy is overridden.
pub overrides_restart_policy : GroupJob → Bool
overrides_restart_policy j = elim (launcher_spec j) [
  | none ↦ false
  | some r ↦ not (r.template.spec.restart_policy == "")
]

unfoldable pub new_launcher_job : Machinery → Option GangScheduler → GroupJob → Outcome Kube.Job
unfolding new_launcher_pod_template
new_launcher_job m g j = new_launcher_pod_template m g j >>= λ t. ok (record {
  meta = owned_meta m j (launcher_name j) (app_label m j);
  ttl_seconds_after_finished = j.spec.run_policy.ttl_seconds_after_finished;
  active_deadline_seconds = j.spec.run_policy.active_deadline_seconds;
  backoff_limit = j.spec.run_policy.backoff_limit;
  suspend = if is_group_job_suspended j then some true else none;
  selector = [];
  template = t;
  conditions = [];
  failed = pos 0;
  completion_time = none;
})
