-- ===== src/Server/Services.antt =====
-- The filters of server/node_filter.go by the state of the services of a node. The parameters and
-- configurations that the packages under op/ generate, the names of the images and the comparison
-- of third-party configurations are arguments.
use text.Mathlib.Text.{starts_with}
use cke.Prelude.{
  String, Bool, true, false, not, ◌&&◌, List, [], ◌∷◌, any, keep_if, str_eq, Option, none, some,
  if◌then◌else◌,
}
use cke.Cluster.{Node, nodename, Options}
use cke.Params.{ServiceParams, equal}
use cke.Server.{NodeFilter, NodeStatus, ServiceStatus, KubeNode, node_status, find_node}

-- What the generators of parameters and configurations return for the cluster.
pub record Desired : Type 0 where
  pub tools_image : String
  pub etcd_image : String
  pub kubernetes_image : String
  pub rivers : ServiceParams
  pub etcd_rivers : ServiceParams
  pub etcd : Node → ServiceParams
  pub api_server : Node → ServiceParams
  pub controller_manager : ServiceParams
  pub scheduler : ServiceParams
  pub kubelet : Node → ServiceParams
  pub proxy : ServiceParams
  -- equality.Semantic.DeepEqual of the current and the running configuration.
  pub scheduler_config_current : Node → Bool
  pub kubelet_config_current : Node → Bool
  pub proxy_config_current : Node → Bool

-- The cases of the `switch` that the components share, but for the stopped service.
unfoldable pub params_outdated : String → ServiceParams → ServiceParams → ServiceStatus → Bool
params_outdated image built_in extra st =
    if not (str_eq image st.image)
    then true
    else if not (equal built_in st.built_in_params)
    then true
    else not (equal extra st.extra_params)

unfoldable pub service_outdated : String → ServiceParams → ServiceParams → ServiceStatus → Bool
unfolding params_outdated
service_outdated image built_in extra st =
    if not st.running then false else params_outdated image built_in extra st

-- A component that has a configuration of its own.
unfoldable pub configured_outdated :
    String → ServiceParams → ServiceParams → Bool → ServiceStatus → Bool
unfolding params_outdated
configured_outdated image built_in extra config_current st =
    if not st.running
    then false
    else if params_outdated image built_in extra st
    then true
    else not config_current

-- The first argument with the prefix, or the empty text.
runtime_endpoint : List String → String
runtime_endpoint [] = ""
runtime_endpoint (arg ∷ args) =
    if starts_with arg "--container-runtime-endpoint=" then arg else runtime_endpoint args

unfoldable pub kubelet_runtime_changed : ServiceParams → ServiceParams → Bool
unfolding runtime_endpoint
kubelet_runtime_changed running current =
    not
      (str_eq (runtime_endpoint running.extra_arguments) (runtime_endpoint current.extra_arguments))

module _ (d : Desired) (nf : NodeFilter) where
  abbrev pub options : Options
  options = nf.cluster.options

  abbrev status : Node → NodeStatus
  status n = node_status nf n

  unfoldable pub rivers_stopped : List Node → List Node
  rivers_stopped targets = keep_if (λ n. not (status n).rivers.running) targets

  unfoldable pub rivers_outdated : List Node → List Node
  unfolding service_outdated
  rivers_outdated targets =
      keep_if (λ n. service_outdated d.tools_image d.rivers options.rivers (status n).rivers)
        targets

  unfoldable pub etcd_rivers_stopped : List Node → List Node
  etcd_rivers_stopped targets = keep_if (λ n. not (status n).etcd_rivers.running) targets

  unfoldable pub etcd_rivers_outdated : List Node → List Node
  unfolding service_outdated
  etcd_rivers_outdated targets =
      keep_if
        (λ n.
          service_outdated d.tools_image d.etcd_rivers options.etcd_rivers (status n).etcd_rivers)
        targets

  unfoldable pub api_server_stopped : List Node → List Node
  api_server_stopped targets = keep_if (λ n. not (status n).api_server.service.running) targets

  abbrev pub api_server_is_outdated : Node → Bool
  api_server_is_outdated n =
      service_outdated d.kubernetes_image (d.api_server n) options.api_server
        (status n).api_server.service

  unfoldable pub api_server_outdated : List Node → List Node
  api_server_outdated targets = keep_if api_server_is_outdated targets

  unfoldable pub controller_manager_stopped : List Node → List Node
  controller_manager_stopped targets =
      keep_if (λ n. not (status n).controller_manager.service.running) targets

  unfoldable pub controller_manager_outdated : List Node → List Node
  unfolding service_outdated
  controller_manager_outdated targets =
      keep_if
        (λ n.
          service_outdated d.kubernetes_image d.controller_manager options.controller_manager
            (status n).controller_manager.service)
        targets

  unfoldable pub scheduler_stopped : List Node → List Node
  scheduler_stopped targets = keep_if (λ n. not (status n).scheduler.service.running) targets

  unfoldable pub scheduler_outdated : List Node → List Node
  unfolding configured_outdated
  scheduler_outdated targets =
      keep_if
        (λ n.
          configured_outdated d.kubernetes_image d.scheduler options.scheduler
            (d.scheduler_config_current n) (status n).scheduler.service)
        targets

  unfoldable pub kubelet_stopped : List Node → List Node
  kubelet_stopped targets = keep_if (λ n. not (status n).kubelet.service.running) targets

  -- A kubelet whose container runtime has changed is left alone.
  abbrev pub kubelet_is_outdated : Node → Bool
  kubelet_is_outdated n =
      if not (status n).kubelet.service.running
      then false
      else if kubelet_runtime_changed (status n).kubelet.service.built_in_params (d.kubelet n)
      then false
      else configured_outdated d.kubernetes_image (d.kubelet n) options.kubelet
          (d.kubelet_config_current n) (status n).kubelet.service

  unfoldable pub kubelet_outdated : List Node → List Node
  kubelet_outdated targets = keep_if kubelet_is_outdated targets

  abbrev pub exists_node_resource : String → Bool
  exists_node_resource name = any (λ (k : KubeNode). str_eq k.name name) nf.status.kubernetes.nodes

  unfoldable pub kubelet_unrecognized : List Node → List Node
  kubelet_unrecognized targets =
      keep_if (λ n. (status n).kubelet.service.running && not (exists_node_resource (nodename n)))
        targets

  unfoldable pub registered_nodes : List Node → List Node
  registered_nodes targets = keep_if (λ n. exists_node_resource (nodename n)) targets

  unfoldable pub proxy_stopped : List Node → List Node
  proxy_stopped targets =
      if options.proxy_disable
      then []
      else keep_if (λ n. not (status n).proxy.service.running) targets

  unfoldable pub proxy_running_unexpectedly : List Node → List Node
  proxy_running_unexpectedly targets =
      if not options.proxy_disable
      then []
      else keep_if (λ n. (status n).proxy.service.running) targets

  unfoldable pub proxy_outdated : List Node → List Node
  unfolding configured_outdated
  proxy_outdated targets =
      if options.proxy_disable
      then []
      else keep_if
          (λ n.
            configured_outdated d.kubernetes_image d.proxy options.proxy (d.proxy_config_current n)
              (status n).proxy.service)
          targets

module _ (nf : NodeFilter) where
  -- The address of the last node of the cluster with that hostname.
  address_of : String → List Node → Option String
  address_of name [] = none
  address_of name (n ∷ ns) = elim (address_of name ns) [
    | some a ↦ some a
    | none ↦ if not (str_eq n.hostname "") && str_eq n.hostname name then some n.address else none
  ]

  abbrev or_name : String → Option String → String
  or_name name none = name
  or_name name (some a) = a

  abbrev is_node : Option Node → Bool
  is_node none = false
  is_node (some n) = true

  unfoldable pub non_cluster_nodes : List KubeNode
  unfolding address_of
  non_cluster_nodes =
      keep_if
        (λ (k : KubeNode).
          not (is_node (find_node nf (or_name k.name (address_of k.name nf.cluster.nodes)))))
        nf.status.kubernetes.nodes
