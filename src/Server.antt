-- ===== src/Server.antt =====
-- status.go and the start of server/node_filter.go: the state of the cluster that the decisions read,
-- and the filters by reachability. The status of the nodes is a function of their address: there is
-- one for every node of the cluster.
pub mod EndpointOps
pub mod Services
pub mod Operations
pub mod Every
pub mod Components
pub mod Maintenance
pub mod Decide
pub mod Control
pub mod NodeAttrs
pub mod Etcd
pub mod RebootOps
pub mod Nodes
mod Samples
use cke.Prelude.{
  ℕ, String, Bool, true, false, not, ◌&&◌, List, [], ◌∷◌, Option, none, some, any, keep_if, str_eq,
  if◌then◌else◌,
}
use cke.Cluster.{Node, Cluster, Taint}
use cke.Repair.Ops.{RepairQueueStatus}
use cke.Params.{ServiceParams}
use cke.Reboot.Decide.{RebootQueueStatus}

pub record ServiceStatus : Type 0 where
  pub running : Bool
  pub image : String
  pub built_in_params : ServiceParams
  pub extra_params : ServiceParams

pub record EtcdStatus : Type 0 where
  pub service : ServiceStatus
  pub has_data : Bool
  pub is_added_member : Bool

-- The status of a component that also reports its health.
pub record ComponentStatus : Type 0 where
  pub service : ServiceStatus
  pub is_healthy : Bool

-- The running configurations of the scheduler, the proxy and the kubelet are third-party types: the
-- filters take their comparison as an argument.
pub record NodeStatus : Type 0 where
  pub ssh_connected : Bool
  pub etcd : EtcdStatus
  pub rivers : ServiceStatus
  pub etcd_rivers : ServiceStatus
  pub api_server : ComponentStatus
  pub controller_manager : ComponentStatus
  pub scheduler : ComponentStatus
  pub proxy : ComponentStatus
  pub kubelet : ComponentStatus

-- The two fields of etcdserverpb.Member that are read.
pub record Member : Type 0 where
  pub name : String
  pub id : ℕ

-- Maps as association lists. The order is that in which Go ranges over the map.
pub record EtcdClusterStatus : Type 0 where
  pub is_healthy : Bool
  pub members : List (String × Member)
  pub in_sync_members : List (String × Bool)

-- corev1.Node, as far as it is read.
pub record KubeNode : Type 0 where
  pub name : String
  -- The type and the status of each condition.
  pub conditions : List (String × String)
  pub labels : List (String × String)
  pub annotations : List (String × String)
  pub unschedulable : Bool
  pub taints : List Taint

-- One subset of corev1.Endpoints: its addresses by their IP, and the numbers of its ports.
pub record EndpointSubset : Type 0 where
  pub addresses : List String
  pub not_ready_addresses : List String
  pub ports : List ℕ

pub record Endpoints : Type 0 where
  pub labels : List (String × String)
  pub subsets : List EndpointSubset

pub record Endpoint : Type 0 where
  pub addresses : List String
  pub ready : Option Bool

pub record EndpointPort : Type 0 where
  pub name : Option String
  pub port : Option ℕ

pub record EndpointSlice : Type 0 where
  pub labels : List (String × String)
  pub address_type : String
  pub endpoints : List Endpoint
  pub ports : List EndpointPort

pub record EtcdService : Type 0 where
  pub ports : List ℕ
  pub service_type : String
  pub cluster_ip : String

pub record ResourceStatus : Type 0 where
  pub annotations : List (String × String)
  pub has_been_ssa : Bool

-- Of a Service its cluster IP, of a ConfigMap the text under its one key are kept.
pub record KubernetesClusterStatus : Type 0 where
  pub is_control_plane_ready : Bool
  pub nodes : List KubeNode
  pub dns_service : Option String
  pub cluster_dns_config : Option String
  pub cluster_dns_ip : String
  pub node_dns_config : Option String
  pub resource_statuses : List (String × ResourceStatus)
  pub master_endpoints : Option Endpoints
  pub master_endpoint_slice : Option EndpointSlice
  pub etcd_service : Option EtcdService
  pub etcd_endpoints : Option Endpoints
  pub etcd_endpoint_slice : Option EndpointSlice

pub record ClusterStatus : Type 0 where
  pub config_version : String
  pub node_statuses : String → NodeStatus
  pub etcd : EtcdClusterStatus
  pub kubernetes : KubernetesClusterStatus
  pub repair_queue : RepairQueueStatus
  pub reboot_queue : RebootQueueStatus

-- NodeFilter: the cluster and its status. Its maps are computed from these.
pub record NodeFilter : Type 0 where
  pub cluster : Cluster
  pub status : ClusterStatus

abbrev pub node_status : NodeFilter → Node → NodeStatus
node_status nf n = nf.status.node_statuses n.address

abbrev pub all_nodes : NodeFilter → List Node
all_nodes nf = nf.cluster.nodes

unfoldable pub control_plane_nodes : NodeFilter → List Node
control_plane_nodes nf = keep_if (λ n. n.control_plane) nf.cluster.nodes

-- A later node of the same address replaces an earlier one in `nodeMap`.
last_of : String → List Node → Option Node → Option Node
last_of address [] found = found
last_of address (n ∷ ns) found =
    last_of address ns (if str_eq n.address address then some n else found)

unfoldable pub find_node : NodeFilter → String → Option Node
unfolding last_of
find_node nf address = last_of address nf.cluster.nodes none

unfoldable pub ssh_connected : NodeFilter → List Node → List Node
ssh_connected nf targets = keep_if (λ n. (node_status nf n).ssh_connected) targets

unfoldable pub ssh_not_connected : NodeFilter → List Node → List Node
ssh_not_connected nf targets = keep_if (λ n. not (node_status nf n).ssh_connected) targets

first_healthy : NodeFilter → List Node → Option Node
first_healthy nf [] = none
first_healthy nf (n ∷ ns) =
    if (node_status nf n).api_server.is_healthy then some n else first_healthy nf ns

unfoldable pub healthy_api_server : NodeFilter → Option Node
unfolding first_healthy control_plane_nodes
healthy_api_server nf = first_healthy nf (control_plane_nodes nf)
