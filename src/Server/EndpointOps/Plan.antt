-- ===== src/Server/EndpointOps/Plan.antt =====
-- masterEndpointOps and etcdEndpointOps of server/strategy.go.
pub mod Ready
use cke.Prelude.{
  String, Bool, not, ◌||◌, List, [], ◌∷◌, ◌++◌, map, any, keep_if, str_eq, if◌then◌else◌,
}
use cke.Cluster.{Node}
use cke.Reboot.Decide.{reboot_processing}
use cke.Server.{NodeFilter, control_plane_nodes, node_status}
use cke.Server.EndpointOps.Decide.{
  EndpointParams, EndpointOp, decide_ep_eps_ops, decide_etcd_service_ops, op_list,
}

module _ (nf : NodeFilter) where
  unfoldable pub api_server_healthy : List Node → List Node
  api_server_healthy targets = keep_if (λ n. (node_status nf n).api_server.is_healthy) targets

  unfoldable pub api_server_unhealthy : List Node → List Node
  api_server_unhealthy targets = keep_if (λ n. not (node_status nf n).api_server.is_healthy) targets

module _ (nf : NodeFilter) (marked : List String) where
  abbrev pub is_excluded : Node → Bool
  is_excluded n =
      reboot_processing nf.status.reboot_queue n.address || any (str_eq n.address) marked

  -- The loop that puts each node into one of the two lists.
  split_ready : List Node → List String × List String
  split_ready [] = ([], [])
  split_ready (n ∷ ns) =
      let (ready, not_ready) = split_ready ns in
      if is_excluded n then (ready, n.address ∷ not_ready) else (n.address ∷ ready, not_ready)

  unfoldable pub master_endpoint_params : EndpointParams
  unfolding split_ready api_server_healthy api_server_unhealthy
  master_endpoint_params =
      let (ready, not_ready) = split_ready (api_server_healthy nf (control_plane_nodes nf)) in
      record {
        namespace = "default";
        name = "kubernetes";
        ready_ips = ready;
        not_ready_ips =
            not_ready ++ map (λ n. n.address) (api_server_unhealthy nf (control_plane_nodes nf));
        port = 6443;
        port_name = "https";
        service_name = "kubernetes";
      }

  unfoldable pub master_endpoint_ops : List EndpointOp
  unfolding decide_ep_eps_ops master_endpoint_params
  master_endpoint_ops =
      decide_ep_eps_ops master_endpoint_params nf.status.kubernetes.master_endpoints
        nf.status.kubernetes.master_endpoint_slice

  unfoldable pub etcd_endpoint_params : EndpointParams
  unfolding split_ready
  etcd_endpoint_params =
      let (ready, not_ready) = split_ready (control_plane_nodes nf) in
      record {
        namespace = "kube-system";
        name = "cke-etcd";
        ready_ips = ready;
        not_ready_ips = not_ready;
        port = 2379;
        port_name = "";
        service_name = "cke-etcd";
      }

  unfoldable pub etcd_endpoint_ops : List EndpointOp
  unfolding decide_ep_eps_ops etcd_endpoint_params decide_etcd_service_ops
  etcd_endpoint_ops =
      op_list (decide_etcd_service_ops nf.status.kubernetes.etcd_service)
      ++ decide_ep_eps_ops etcd_endpoint_params nf.status.kubernetes.etcd_endpoints
          nf.status.kubernetes.etcd_endpoint_slice
