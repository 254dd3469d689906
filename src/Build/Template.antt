-- ===== src/Build/Template.antt =====
-- newWorker, setupSSHOnPod, setRestartPolicy, and the parts that newLauncherPodTemplate shares.
use mpi_operator.Prelude.{String, ℕ, ◌&&◌, Option, none, some, List, [], ◌∷◌, ◌++◌, ◌==◌}
use mpi_operator.Prelude.Tests.{if◌then◌else◌, is_empty, ◌⧺◌}
use mpi_operator.Prelude.Int.{ℤ, pos}
use mpi_operator.Prelude.Assoc.{insert, insert_all}
use mpi_operator.Api.{
  GroupJob, ReplicaSpec, PodSpec, PodTemplateSpec, Container, EnvVar, secret_volume, KeyToPath, Pod,
  pod_pending, worker_spec, replica_index_label, worker_role, root_ssh_path, ssh_auth_secret_suffix,
  ssh_auth_private_key, restart_policy_exit_code, restart_policy_never,
  dns_cluster_first_with_host_net,
}
use mpi_operator.Machinery.{Machinery}
use mpi_operator.Outcome.{Outcome, ok, panic, ◌>>=◌, deref}
use mpi_operator.Names.{worker_name, worker_replica_index_label, default_labels}
use mpi_operator.PodGroup.Control.{GangScheduler, decorate_pod_template_spec}
use mpi_operator.Build.Config.{owned_meta}

abbrev ssh_volume_items : List KeyToPath
ssh_volume_items =
    record { key = ssh_auth_private_key; path = "id_rsa"; mode = none }
    ∷ record { key = "ssh-publickey"; path = "id_rsa.pub"; mode = none }
    ∷ record { key = "ssh-publickey"; path = "authorized_keys"; mode = none }
    ∷ []

abbrev worker_env_vars : List EnvVar
worker_env_vars = record { name = "K_MPI_JOB_ROLE"; value = worker_role } ∷ []

-- A change of `Containers[0]`, which panics where there is no container.
unfoldable pub with_main_container : (Container → Container) → PodSpec → Outcome PodSpec
with_main_container f s = elim s.containers [
  | [] ↦ panic
  | c ∷ cs ↦ ok (record s { containers = f c ∷ cs })
]

unfoldable pub set_restart_policy : PodSpec → ReplicaSpec → PodSpec
set_restart_policy s r = record s {
  restart_policy =
      if r.restart_policy == restart_policy_exit_code
      then restart_policy_never
      else r.restart_policy;
}

-- 0600 is 384.
ssh_mode : GroupJob → Option ℤ
ssh_mode j = if j.spec.ssh_auth_mount_path == root_ssh_path then some (pos 384) else none

unfoldable pub setup_ssh_on_pod : PodSpec → GroupJob → Outcome PodSpec
unfolding ssh_mode with_main_container
setup_ssh_on_pod s j =
    with_main_container
      (λ c. record c {
        volume_mounts =
            c.volume_mounts
            ++ record { name = "ssh-auth"; mount_path = j.spec.ssh_auth_mount_path } ∷ [];
      })
      (record s {
        volumes =
            s.volumes
            ++ secret_volume "ssh-auth" (j.meta.name ⧺ ssh_auth_secret_suffix) (ssh_mode j)
                ssh_volume_items
              ∷ [];
      })

-- The host name and the DNS policy that both kinds of pod get.
unfoldable pub set_host : GroupJob → String → PodSpec → PodSpec
set_host j name s = record s {
  hostname = name;
  subdomain = j.meta.name;
  dns_policy = if s.host_network then dns_cluster_first_with_host_net else s.dns_policy;
}

abbrev append_search : Option (List String) → String → Option (List String)
append_search none s = some (s ∷ [])
append_search (some l) s = some (l ++ s ∷ [])

unfoldable pub set_search : GroupJob → PodSpec → PodSpec
set_search j s = record s {
  dns_searches =
      append_search s.dns_searches (j.meta.name ⧺ "." ⧺ j.meta.namespace ⧺ ".svc.cluster.local");
}

-- The command of a worker that names none, and its environment.
worker_container : Container → Container
worker_container c = record c {
  command =
      if is_empty c.command && is_empty c.args then "/usr/sbin/sshd" ∷ "-De" ∷ [] else c.command;
  env = c.env ++ worker_env_vars;
}

unfoldable pub with_default_labels : GroupJob → String → PodTemplateSpec → PodTemplateSpec
with_default_labels j role t = record t {
  labels = insert_all (default_labels j.meta.name role) t.labels;
}

unfoldable pub decorate :
    Machinery → Option GangScheduler → GroupJob → PodTemplateSpec → PodTemplateSpec
decorate m none j t = t
decorate m (some g) j t = decorate_pod_template_spec m g t j.meta.name

-- The labels of a worker: those of the template, the defaults, the index.
unfoldable pub worker_labels : GroupJob → ℕ → PodTemplateSpec → PodTemplateSpec
unfolding with_default_labels
worker_labels j index t =
    let t' = with_default_labels j worker_role t in
    record t' { labels = insert replica_index_label (worker_replica_index_label j index) t'.labels }

unfoldable pub new_worker : Machinery → Option GangScheduler → GroupJob → ℕ → Outcome Pod
unfolding worker_labels set_host set_search set_restart_policy with_main_container worker_container
    setup_ssh_on_pod decorate
new_worker m g j index = deref (worker_spec j) >>= λ r.
    let t = worker_labels j index r.template in
    let s = set_restart_policy (set_search j (set_host j (worker_name j index) t.spec)) r in
    with_main_container worker_container s >>= λ s'. setup_ssh_on_pod s' j >>= λ s''.
    let t' = decorate m g j (record t { spec = s'' }) in
    ok (record {
      meta = record (owned_meta m j (worker_name j index) t'.labels) {
        annotations = t'.annotations;
      };
      spec = t'.spec;
      phase = pod_pending;
      conditions = [];
      reason = "";
      message = "";
    })
