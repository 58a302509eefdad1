-- ===== src/Server/Components.antt =====
-- riversOps, apiserverOps and k8sOps of server/strategy.go.
pub mod OneByOne
pub mod Runs
pub mod Settled
pub mod Serving
use cke.Prelude.{
  ℕ, ◌<◌, String, Bool, true, false, not, ◌||◌, List, [], ◌∷◌, ◌++◌, map, Option, none, some, ltb,
  length, if◌then◌else◌,
}
use cke.Cluster.{Node}
use cke.Reboot.Decide.{reboot_next_candidates}
use cke.Server.{
  NodeFilter, all_nodes, control_plane_nodes, ssh_connected, ssh_not_connected, healthy_api_server,
}
use cke.Server.EndpointOps.Plan.{api_server_unhealthy, master_endpoint_ops}
use cke.Server.Operations.{
  Operation, rivers_boot, rivers_restart, etcd_rivers_boot, etcd_rivers_restart, endpoint,
  api_server_restart, controller_manager_boot, controller_manager_restart, scheduler_boot,
  scheduler_restart, kubelet_boot, kubelet_restart, proxy_boot, proxy_restart, proxy_stop, if_some,
  if_some_most,
}
use cke.Server.Services.{
  Desired, rivers_stopped, rivers_outdated, etcd_rivers_stopped, etcd_rivers_outdated,
  api_server_stopped, api_server_outdated, controller_manager_stopped, controller_manager_outdated,
  scheduler_stopped, scheduler_outdated, kubelet_stopped, kubelet_outdated, kubelet_unrecognized,
  registered_nodes, proxy_stopped, proxy_outdated, proxy_running_unexpectedly, options,
}

module _ (d : Desired) (nf : NodeFilter) where
  abbrev pub cps : List Node
  cps = control_plane_nodes nf

  unfoldable pub rivers_ops : ℕ → List Operation
  rivers_ops max =
      if_some_most max (ssh_connected nf (rivers_stopped d nf (all_nodes nf))) rivers_boot
      ++ (if_some_most max (ssh_connected nf (rivers_outdated d nf (all_nodes nf))) rivers_restart
          ++ (if_some_most max (ssh_connected nf (etcd_rivers_stopped d nf cps)) etcd_rivers_boot
              ++ if_some_most max (ssh_connected nf (etcd_rivers_outdated d nf cps))
                  etcd_rivers_restart))

  -- The nodes whose API server is started or replaced at once.
  unfoldable pub api_servers_to_fix : List Node
  api_servers_to_fix =
      ssh_connected nf (api_server_stopped d nf cps)
      ++ ssh_connected nf (api_server_outdated d nf (api_server_unhealthy nf cps))

  abbrev is_some_node : Option Node → Bool
  is_some_node none = false
  is_some_node (some n) = true

  abbrev pub endpoint_updates : List String → List Operation
  endpoint_updates marked = map endpoint (master_endpoint_ops nf marked)

  abbrev pub endpoint_updates_if_healthy : List Operation
  endpoint_updates_if_healthy =
      if is_some_node (healthy_api_server nf) then endpoint_updates [] else []

  abbrev pub not_all_healthy : Bool
  not_all_healthy =
      ltb 0 (length (ssh_not_connected nf cps)) || ltb 0 (length (api_server_unhealthy nf cps))

  -- "Updating kube-apiservers one by one", and what follows it.
  update_one : List Node → List Operation × Bool
  update_one [] = (endpoint_updates (reboot_next_candidates nf.status.reboot_queue), false)
  update_one (target ∷ ns) =
      (endpoint_updates (target.address ∷ []) ++ api_server_restart (target ∷ []) ∷ [], true)

  -- The operations, and whether the other ones are skipped.
  from_fix : List Node → List Operation × Bool
  unfolding update_one
  from_fix (n ∷ ns) = (endpoint_updates_if_healthy ++ api_server_restart (n ∷ ns) ∷ [], true)
  from_fix [] =
      if not_all_healthy
      then (endpoint_updates_if_healthy, true)
      else update_one (ssh_connected nf (api_server_outdated d nf cps))

  unfoldable pub api_server_ops : List Operation × Bool
  unfolding from_fix api_servers_to_fix
  api_server_ops = from_fix api_servers_to_fix

  abbrev in_place : List Node → List Node
  in_place ns = if nf.cluster.options.kubelet_in_place_update then ns else []

  abbrev boot_kubelets : List Node → Operation
  boot_kubelets ns = kubelet_boot ns (registered_nodes d nf ns)

  pub control_plane_ops : List Operation
  control_plane_ops =
      if_some (ssh_connected nf (controller_manager_stopped d nf cps)) controller_manager_boot
      ++ (if_some (ssh_connected nf (controller_manager_outdated d nf cps))
            controller_manager_restart
          ++ (if_some (ssh_connected nf (scheduler_stopped d nf cps)) scheduler_boot
              ++ if_some (ssh_connected nf (scheduler_outdated d nf cps)) scheduler_restart))

  pub node_ops : ℕ → List Operation
  node_ops max =
      if_some_most max (ssh_connected nf (kubelet_unrecognized d nf (all_nodes nf))) kubelet_restart
      ++ (if_some_most max (ssh_connected nf (kubelet_stopped d nf (all_nodes nf))) boot_kubelets
          ++ (if_some_most max (in_place (ssh_connected nf (kubelet_outdated d nf (all_nodes nf))))
                kubelet_restart
              ++ (if_some_most max (ssh_connected nf (proxy_stopped d nf (all_nodes nf))) proxy_boot
                  ++ (if_some_most max (ssh_connected nf (proxy_outdated d nf (all_nodes nf)))
                        proxy_restart
                      ++ if_some_most max
                          (ssh_connected nf (proxy_running_unexpectedly d nf (all_nodes nf)))
                          proxy_stop))))

  unfoldable pub k8s_ops : ℕ → List Operation
  unfolding api_server_ops control_plane_ops node_ops
  k8s_ops max =
      let (ops, skip_other_ops) = api_server_ops in
      if skip_other_ops then ops else ops ++ (control_plane_ops ++ node_ops max)
