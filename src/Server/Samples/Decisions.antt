-- ===== src/Server/Samples/Decisions.antt =====
-- A run of DecideOps on the settled cluster and on one with an API server to replace.
use cke.Prelude.{ap, sym, subst, true, false, Memᴰ, map, ◌++◌, ◌≡◌, refl, [], ◌∷◌}
use cke.Params.{equal, compare_strings, compare_mounts, compare_string_map}
use cke.Cluster.{nodename}
use cke.Reboot.Decide.{reboot_processing, reboot_next_candidates}
use cke.Repair.Ops.{repair_ops, is_api_server, rebooting_api_servers, run_entries, sort_entries}
use cke.Server.{
  node_status, control_plane_nodes, find_node, ssh_connected, ssh_not_connected, healthy_api_server,
}
use cke.Server.Components.{rivers_ops, k8s_ops, api_server_ops, api_servers_to_fix}
use cke.Server.Decide.{Inputs, decide_ops, config_version}
use cke.Server.Decide.Serving.{completed-NodeServes}
use cke.Server.Components.Settled.{AllUp}
use cke.Server.Components.Serving.{NodeServes}
use cke.Server.EndpointOps.Decide.{
  decide_ep_eps_ops, decide_ep_op, decide_eps_op, endpoints_current, expected_slice, slice_current,
  decide_etcd_service_ops,
}
use cke.Server.EndpointOps.Plan.{
  api_server_healthy, api_server_unhealthy, master_endpoint_ops, master_endpoint_params,
  etcd_endpoint_ops, etcd_endpoint_params,
}
use cke.Server.Etcd.{
  etcd_non_cluster_members, etcd_non_cp_members, etcd_unstarted_members, etcd_unmarked_members,
  etcd_new_members, etcd_outdated_members, etcd_maint_op, etcd_is_good, etcd_bootstrapped,
  etcd_stopped, in_cluster, etcd_equal_params,
}
use cke.Server.Maintenance.{
  k8s_maint_ops, clean_ops, reboot_uncordon_op, is_ready, decide_resource_ops,
  decide_cluster_dns_ops, decide_node_dns_ops, desired_dns_servers, cordoned_nodes,
}
use cke.Server.NodeAttrs.{outdated_attrs_nodes, node_is_outdated, is_internal}
use cke.Server.Operations.{phase_completed, phase_k8s_start, api_server_restart, endpoint}
use cke.Server.RebootOps.{reboot_ops}
use cke.Server.Samples.{api, settled, inputs, desired}
use cke.Server.Services.{
  rivers_stopped, rivers_outdated, etcd_rivers_stopped, etcd_rivers_outdated, api_server_stopped,
  api_server_outdated, configured_outdated, controller_manager_outdated, controller_manager_stopped,
  kubelet_outdated, kubelet_runtime_changed, kubelet_stopped, kubelet_unrecognized, params_outdated,
  proxy_outdated, proxy_running_unexpectedly, proxy_stopped, registered_nodes, scheduler_outdated,
  scheduler_stopped, service_outdated, non_cluster_nodes,
}

-- What the runs compute with.
program : Unit {0}
unfolding decide_ops rivers_ops k8s_ops api_server_ops api_servers_to_fix k8s_maint_ops clean_ops
    reboot_uncordon_op is_ready decide_resource_ops decide_cluster_dns_ops decide_node_dns_ops
    desired_dns_servers cordoned_nodes outdated_attrs_nodes node_is_outdated is_internal reboot_ops
    rivers_stopped rivers_outdated etcd_rivers_stopped etcd_rivers_outdated api_server_stopped
    api_server_outdated configured_outdated controller_manager_outdated controller_manager_stopped
    kubelet_outdated kubelet_runtime_changed kubelet_stopped kubelet_unrecognized params_outdated
    proxy_outdated proxy_running_unexpectedly proxy_stopped registered_nodes scheduler_outdated
    scheduler_stopped service_outdated non_cluster_nodes etcd_maint_op etcd_is_good
    etcd_non_cluster_members etcd_non_cp_members etcd_unstarted_members etcd_unmarked_members
    etcd_new_members etcd_outdated_members etcd_bootstrapped etcd_stopped in_cluster
    etcd_equal_params api_server_healthy api_server_unhealthy master_endpoint_ops
    master_endpoint_params etcd_endpoint_ops etcd_endpoint_params decide_ep_eps_ops decide_ep_op
    decide_eps_op endpoints_current expected_slice slice_current decide_etcd_service_ops
    control_plane_nodes find_node ssh_connected ssh_not_connected healthy_api_server repair_ops
    run_entries sort_entries is_api_server rebooting_api_servers reboot_processing
    reboot_next_candidates nodename equal compare_strings compare_mounts compare_string_map
program = tt

settled_ops : decide_ops inputs settled ≡ ([], phase_completed)
unfolding program
settled_ops = refl

settled-AllUp : AllUp inputs.desired settled
settled-AllUp n (Memᴰ.head e) c =
    subst
      (λ k.
        ((node_status settled k).ssh_connected ≡ true)
        × ((node_status settled k).api_server.is_healthy ≡ true))
      (sym e) (refl, refl)
settled-AllUp n (Memᴰ.tail (Memᴰ.head e)) c =
    let c' : false ≡ true = subst (λ k. k.control_plane ≡ true) e c in cc
settled-AllUp n (Memᴰ.tail (Memᴰ.tail m)) c = elim m [ ]

completed-NodeServes_example :
    (settled.status.config_version ≡ config_version)
    × (settled.status.etcd.is_healthy ≡ true)
    × NodeServes inputs.desired settled api
completed-NodeServes_example =
    completed-NodeServes inputs settled api settled-AllUp (ap (λ r. r.1) settled_ops)
      (Memᴰ.head refl) refl

-- Another image is wanted.
abbrev upgraded : Inputs
upgraded = record inputs { desired = record desired { kubernetes_image = "newer" } }

replace_ops : decide_ops upgraded settled ≡ (
  map endpoint (master_endpoint_ops settled (api.address ∷ []))
      ++ (api_server_restart (api ∷ []) ∷ []),
  phase_k8s_start,
)
unfolding program
replace_ops = refl
