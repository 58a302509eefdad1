-- ===== src/Samples.antt =====
-- Data that the tests of several parts share.
use cke.Prelude.{String, Bool, false, List, [], none}
use cke.Params.{ServiceParams}
use cke.Cluster.{Node, RebootConfig, RepairConfig, Options, Cluster}

abbrev pub host : String → Bool → Node
host address cp = record {
  address = address;
  hostname = "";
  user = "cke";
  control_plane = cp;
  annotations = [];
  labels = [];
  taints = [];
}

abbrev pub no_params : ServiceParams
no_params = record { extra_arguments = []; extra_binds = []; extra_envvar = [] }

abbrev pub no_options : Options
no_options = record {
  etcd = no_params;
  rivers = no_params;
  etcd_rivers = no_params;
  api_server = no_params;
  controller_manager = no_params;
  scheduler = no_params;
  proxy = no_params;
  proxy_disable = false;
  kubelet = no_params;
  kubelet_in_place_update = false;
}

abbrev pub no_reboot : RebootConfig
no_reboot = record {
  reboot_command = [];
  boot_check_command = [];
  max_concurrent_reboots = none;
  eviction_timeout_seconds = none;
  command_timeout_seconds = none;
  command_retries = none;
  command_interval = none;
  evict_retries = none;
  evict_interval = none;
}

abbrev pub no_repair : RepairConfig
no_repair = record {
  repair_procedures = [];
  max_concurrent_repairs = none;
  evict_retries = none;
  evict_interval = none;
  eviction_timeout_seconds = none;
}

abbrev pub plain : List Node → Cluster
plain nodes = record {
  name = "plain";
  nodes = nodes;
  taint_cp = false;
  cp_tolerations = [];
  service_subnet = "10.1.0.0/16";
  dns_servers = [];
  dns_service = "";
  reboot = no_reboot;
  repair = no_repair;
  options = no_options;
  trusted_rest_mappings = [];
}
