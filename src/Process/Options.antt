-- ===== src/Process/Options.antt =====
-- The options of the process (cmd/group-operator/app/options/options.go).
use mpi_operator.Prelude.{String, Bool, false}
use mpi_operator.Prelude.Int.{ℤ, pos}

pub record ServerOption : Type 0 where
  pub kubeconfig : String
  pub master_url : String
  pub threadiness : ℤ
  pub monitoring_port : ℤ
  pub print_version : Bool
  pub gang_scheduling_name : String
  pub namespace : String
  pub lock_namespace : String
  pub qps : ℤ
  pub burst : ℤ
  pub controller_rate_limit : ℤ
  pub controller_burst : ℤ

-- `AddFlags`: what the options are where no flag is given, by the value of KUBEFLOW_NAMESPACE.
unfoldable pub default_options : (kubeflow_namespace : String) → ServerOption
default_options kubeflow_namespace = record {
  kubeconfig = "";
  master_url = "";
  threadiness = pos 2;
  monitoring_port = pos 0;
  print_version = false;
  gang_scheduling_name = "";
  namespace = kubeflow_namespace;
  lock_namespace = "group-operator";
  qps = pos 5;
  burst = pos 10;
  controller_rate_limit = pos 10;
  controller_burst = pos 100;
}
