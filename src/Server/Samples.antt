-- ===== src/Server/Samples.antt =====
-- A small cluster with one control plane node and one worker, its settled status, and arguments of
-- DecideOps.
mod Decisions
mod Objects
mod Members
use cke.Prelude.{String, Bool, true, false, List, [], ◌∷◌, none, some, str_eq}
use cke.Cluster.{Node, Cluster, Constraints}
use cke.Samples.{host, no_params, no_reboot, plain}
use cke.Reboot.Decide.{RebootQueueStatus}
use cke.Repair.Ops.{RepairQueueStatus}
use cke.Server.{
  ServiceStatus, ComponentStatus, NodeStatus, KubeNode, KubernetesClusterStatus, ClusterStatus,
  NodeFilter,
}
use cke.Server.EndpointOps.Decide.{EndpointParams, expected_endpoints, expected_slice}
use cke.Server.Services.{Desired}
use cke.Server.Decide.{Inputs}

abbrev pub api : Node
api = host "10.0.0.1" true

abbrev pub worker : Node
worker = host "10.0.0.4" false

abbrev pub cluster : Cluster
cluster = record (plain (api ∷ worker ∷ [])) {
  reboot = record no_reboot { reboot_command = "reboot" ∷ []; boot_check_command = "check" ∷ [] };
}

abbrev service : Bool → String → ServiceStatus
service running image = record {
  running = running;
  image = image;
  built_in_params = no_params;
  extra_params = no_params;
}

abbrev component : Bool → ComponentStatus
component running = record { service = service running "kubernetes"; is_healthy = running }

abbrev pub status_of : Bool → Bool → NodeStatus
status_of reached control_plane = record {
  ssh_connected = reached;
  etcd = record {
    service = service control_plane "etcd";
    has_data = control_plane;
    is_added_member = control_plane;
  };
  rivers = service true "tools";
  etcd_rivers = service control_plane "tools";
  api_server = component control_plane;
  controller_manager = component control_plane;
  scheduler = component control_plane;
  proxy = component true;
  kubelet = component true;
}

abbrev kube_node : String → List (String × String) → KubeNode
kube_node name labels = record {
  name = name;
  conditions = ("Ready", "True") ∷ [];
  labels = labels;
  annotations = [];
  unschedulable = false;
  taints = [];
}

abbrev pub master_endpoints : EndpointParams
master_endpoints = record {
  namespace = "default";
  name = "kubernetes";
  ready_ips = "10.0.0.1" ∷ [];
  not_ready_ips = [];
  port = 6443;
  port_name = "https";
  service_name = "kubernetes";
}

abbrev etcd_endpoints : EndpointParams
etcd_endpoints = record {
  namespace = "kube-system";
  name = "cke-etcd";
  ready_ips = "10.0.0.1" ∷ [];
  not_ready_ips = [];
  port = 2379;
  port_name = "";
  service_name = "cke-etcd";
}

abbrev kubernetes : KubernetesClusterStatus
kubernetes = record {
  is_control_plane_ready = true;
  nodes =
      kube_node "10.0.0.1" (("cke.cybozu.com/master", "true") ∷ []) ∷ kube_node "10.0.0.4" [] ∷ [];
  dns_service = none;
  cluster_dns_config = some "corefile";
  cluster_dns_ip = "10.1.0.10";
  node_dns_config = some "unbound";
  resource_statuses = [];
  master_endpoints = some (expected_endpoints master_endpoints);
  master_endpoint_slice = some (expected_slice master_endpoints);
  etcd_service =
      some (record { ports = 2379 ∷ []; service_type = "ClusterIP"; cluster_ip = "None" });
  etcd_endpoints = some (expected_endpoints etcd_endpoints);
  etcd_endpoint_slice = some (expected_slice etcd_endpoints);
}

abbrev no_repairs : RepairQueueStatus
no_repairs = record {
  enabled = true;
  entries = [];
  repair_completed = λ _. false;
  drain_completed = λ _. false;
}

abbrev pub no_reboots : RebootQueueStatus
no_reboots = record {
  enabled = true;
  entries = [];
  next_candidates = [];
  drain_completed = [];
  drain_timedout = [];
  reboot_dequeued = [];
  reboot_cancelled = [];
}

abbrev pub status : ClusterStatus
status = record {
  config_version = "2";
  node_statuses = λ a. status_of true (str_eq a "10.0.0.1");
  etcd = record {
    is_healthy = true;
    members = ("10.0.0.1", record { name = "10.0.0.1"; id = 7 }) ∷ [];
    in_sync_members = ("10.0.0.1", true) ∷ [];
  };
  kubernetes = kubernetes;
  repair_queue = no_repairs;
  reboot_queue = no_reboots;
}

abbrev pub settled : NodeFilter
settled = record { cluster = cluster; status = status }

abbrev pub desired : Desired
desired = record {
  tools_image = "tools";
  etcd_image = "etcd";
  kubernetes_image = "kubernetes";
  rivers = no_params;
  etcd_rivers = no_params;
  etcd = λ _. no_params;
  api_server = λ _. no_params;
  controller_manager = no_params;
  scheduler = no_params;
  kubelet = λ _. no_params;
  proxy = no_params;
  scheduler_config_current = λ _. true;
  kubelet_config_current = λ _. true;
  proxy_config_current = λ _. true;
}

abbrev pub constraints : Constraints
constraints = record {
  control_plane_count = 1;
  minimum_workers_rate = 80;
  reboot_maximum_unreachable = 0;
  maximum_repairs = 10;
  repair_rebooting_seconds = 300;
}

abbrev pub inputs : Inputs
inputs = record {
  desired = desired;
  texts = record { corefile = λ _. "corefile"; unbound = λ _ _. "unbound" };
  static_resources = [];
  resources = [];
  constraints = constraints;
  max_concurrent_updates = 10;
  now = 61_000_000_000;
}
