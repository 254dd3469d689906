-- ===== src/Build/Config.antt =====
-- newConfigMap, updateDiscoverHostsInConfigMap, newJobService, newSSHAuthSecret.
use mpi_operator.Prelude.{String, ℕ, zero, suc, ◌||◌, none, List, [], ◌∷◌, ◌==◌}
use text.Mathlib.Text.{is_lt}
use Prim.Native.String.{compare}
use mpi_operator.Prelude.Tests.{if◌then◌else◌, deref_or, ◌⧺◌}
use mpi_operator.Prelude.Int.{ℤ, pos, to_ℕ}
use mpi_operator.Prelude.Assoc.{Assoc, insert}
use mpi_operator.Prelude.Decimal.{itoa}
use mpi_operator.Api.{
  GroupJob, ObjectMeta, Pod, ConfigMap, Service, Secret, config_suffix, hostfile_name,
  discover_hosts_script_name, ssh_auth_secret_suffix, open_mpi, intel, mpich, operator_name,
  operator_name_label, job_name_label, ssh_auth_private_key, secret_type_ssh_auth, cluster_ip_none,
}
use mpi_operator.Machinery.{Machinery}
use mpi_operator.Names.{worker_name, launcher_name, run_launcher_as_worker}

-- The domain name of a pod of the job, by its host name.
host_of : GroupJob → (name namespace : String) → String
host_of j name namespace = name ⧺ "." ⧺ j.meta.name ⧺ "." ⧺ namespace ⧺ ".svc"

-- The body of the `switch` on the implementation: one line of the hostfile, or nothing.
host_line : GroupJob → ℤ → String → String
unfolding host_of
host_line j slots name =
    if j.spec.mpi_implementation == open_mpi
    then host_of j name j.meta.namespace ⧺ " slots=" ⧺ itoa slots ⧺ "\n"
    else if j.spec.mpi_implementation == intel || j.spec.mpi_implementation == mpich
    then host_of j name j.meta.namespace ⧺ ":" ⧺ itoa slots ⧺ "\n"
    else ""

-- `for i := index; …`, for a number of rounds.
worker_lines : GroupJob → ℤ → (index rounds : ℕ) → String
worker_lines j slots index zero = ""
worker_lines j slots index (suc rounds) =
    host_line j slots (worker_name j index) ⧺ worker_lines j slots (suc index) rounds

pub hostfile : GroupJob → ℤ → String
unfolding host_line worker_lines
hostfile j worker_replicas =
    let slots = deref_or j.spec.slots_per_worker (pos 1) in
    (if run_launcher_as_worker j then host_line j slots (launcher_name j) else "")
    ⧺ worker_lines j slots 0 (to_ℕ worker_replicas)

module _ (m : Machinery) where
  -- The metadata of an object of the job: its name, the label "app" and the owner.
  abbrev pub owned_meta : GroupJob → String → Assoc String → ObjectMeta
  owned_meta j name labels = record {
    kind = "";
    name = name;
    namespace = j.meta.namespace;
    uid = "";
    labels = labels;
    annotations = [];
    owner_references = m.new_controller_ref j.meta ∷ [];
    creation_timestamp = 0;
    deletion_timestamp = none;
  }

  abbrev pub app_label : GroupJob → Assoc String
  app_label j = ("app", j.meta.name) ∷ []

  unfoldable pub new_config_map : GroupJob → ℤ → ConfigMap
  unfolding hostfile
  new_config_map j worker_replicas = record {
    meta = owned_meta j (j.meta.name ⧺ config_suffix) (app_label j);
    content = (hostfile_name, hostfile j worker_replicas) ∷ [];
  }

  unfoldable pub new_job_service : GroupJob → Service
  new_job_service j = record {
    meta = owned_meta j j.meta.name (app_label j);
    cluster_ip = cluster_ip_none;
    selector = (operator_name_label, operator_name) ∷ (job_name_label, j.meta.name) ∷ [];
  }

  -- The keys come from crypto/ecdsa and golang.org/x/crypto/ssh: a private key and the public one.
  unfoldable pub new_ssh_auth_secret : GroupJob → (private_pem public_key : String) → Secret
  new_ssh_auth_secret j private_pem public_key = record {
    meta = owned_meta j (j.meta.name ⧺ ssh_auth_secret_suffix) (app_label j);
    type = secret_type_ssh_auth;
    content = (ssh_auth_private_key, private_pem) ∷ ("ssh-publickey", public_key) ∷ [];
  }

-- `sort.Slice` by the pods' names, which are distinct in a namespace.
place_pod : Pod → List Pod → List Pod
place_pod p [] = p ∷ []
place_pod p (x ∷ xs) =
    if is_lt (compare p.meta.name x.meta.name) then p ∷ x ∷ xs else x ∷ place_pod p xs

sort_pods : List Pod → List Pod
unfolding place_pod
sort_pods [] = []
sort_pods (p ∷ ps) = place_pod p (sort_pods ps)

echo_lines : GroupJob → List Pod → String
echo_lines j [] = ""
echo_lines j (p ∷ ps) = ("echo " ⧺ host_of j p.meta.name p.meta.namespace ⧺ "\n") ⧺ echo_lines j ps

pub discover_hosts : GroupJob → List Pod → String
unfolding echo_lines host_of
discover_hosts j running_pods =
    "#!/bin/sh\n"
    ⧺ (if run_launcher_as_worker j
        then "echo " ⧺ host_of j (launcher_name j) j.meta.namespace ⧺ "\n"
        else "")
    ⧺ echo_lines j running_pods

unfoldable pub update_discover_hosts : ConfigMap → GroupJob → List Pod → ConfigMap
unfolding sort_pods discover_hosts
update_discover_hosts cm j running_pods = record cm {
  content =
      insert discover_hosts_script_name (discover_hosts j (sort_pods running_pods)) cm.content;
}
