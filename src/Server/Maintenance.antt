-- ===== src/Server/Maintenance.antt =====
-- k8sMaintOps, the DNS and resource decisions, cleanOps and rebootUncordonOp of server/strategy.go,
-- with IsReady of status.go and NeedUpdate of resource.go. The texts of the DNS configurations are
-- arguments: templates filled with the cluster domain.
pub mod Kinds
use cke.Prelude.{
  ◌/◌, String, Bool, true, false, not, ◌&&◌, ◌||◌, List, [], ◌∷◌, ◌++◌, map, Option, none, some,
  any, keep_if, count_if, str_eq, ltb, ◌==◌, length, if◌then◌else◌,
}
use cke.Cluster.{Node}
use cke.Params.{find_key, is_value}
use cke.Reboot.Decide.{reboot_processing, reboot_next_candidates}
use cke.Repair.{
  RepairQueueEntry, RepairStepStatus, waiting, draining, watching, processing, status_eq,
  is_in_cluster,
}
use cke.Server.{
  NodeFilter, KubeNode, KubernetesClusterStatus, ResourceStatus, node_status, healthy_api_server,
}
use cke.Server.EndpointOps.Plan.{etcd_endpoint_ops}
use cke.Server.Etcd.{etcd_is_good}
use cke.Server.NodeAttrs.{outdated_attrs_nodes, cke_annotation_reboot}
use cke.Server.Operations.{
  Operation, ResourceDefinition, endpoint, kube_wait, resource_apply, cluster_dns_create,
  cluster_dns_update, node_dns_create, node_dns_update, node_update, node_remove, api_server_stop,
  controller_manager_stop, scheduler_stop, etcd_stop, etcd_rivers_stop, uncordon, if_some,
}
use cke.Server.Services.{non_cluster_nodes}

-- IsReady: more than half of the nodes of the cluster are ready.
abbrev is_node_ready : KubeNode → Bool
is_node_ready n = any (λ (t, s). str_eq t "Ready" && str_eq s "True") n.conditions

unfoldable pub is_ready : NodeFilter → Bool
is_ready nf =
    if not nf.status.kubernetes.is_control_plane_ready
    then false
    else if length nf.cluster.nodes == 0
    then false
    else ltb (length nf.cluster.nodes / 2) (count_if is_node_ready nf.status.kubernetes.nodes)

abbrev pub annotation_revision : String
annotation_revision = "cke.cybozu.com/revision"

abbrev pub annotation_image : String
annotation_image = "cke.cybozu.com/image"

unfoldable pub need_update : ResourceDefinition → ResourceStatus → Bool
need_update r status =
    if not (is_value (find_key annotation_revision status.annotations) r.revision)
    then true
    else if str_eq r.image ""
    then false
    else not (is_value (find_key annotation_image status.annotations) r.image)

find_status : String → List (String × ResourceStatus) → Option ResourceStatus
find_status k [] = none
find_status k ((j, s) ∷ m) = if str_eq j k then some s else find_status k m

-- A missing status is the zero value, which has not been applied by the server side.
apply_if_needed : ResourceDefinition → Option ResourceStatus → List Operation
unfolding need_update
apply_if_needed r none = resource_apply r true ∷ []
apply_if_needed r (some status) =
    if need_update r status then resource_apply r (not status.has_been_ssa) ∷ [] else []

resource_op : KubernetesClusterStatus → Bool → ResourceDefinition → List Operation
unfolding apply_if_needed find_status
resource_op ks ready r =
    if str_eq r.kind "Deployment" && not ready
    then []
    else apply_if_needed r (find_status r.key ks.resource_statuses)

-- One of the two equal loops.
resource_ops : KubernetesClusterStatus → Bool → List ResourceDefinition → List Operation
unfolding resource_op
resource_ops ks ready [] = []
resource_ops ks ready (r ∷ rs) = resource_op ks ready r ++ resource_ops ks ready rs

unfoldable pub decide_resource_ops :
    KubernetesClusterStatus
    → Bool
    → List ResourceDefinition
    → List ResourceDefinition
    → List Operation
unfolding resource_ops
decide_resource_ops ks ready static_resources resources =
    resource_ops ks ready static_resources ++ resource_ops ks ready resources

-- The texts of the two DNS configurations: of the DNS servers, and of the cluster IP too.
pub record DnsTexts : Type 0 where
  pub corefile : List String → String
  pub unbound : String → List String → String

-- The cluster IP of the DNS service replaces the servers of the configuration.
unfoldable pub desired_dns_servers : List String → Option String → List String
desired_dns_servers servers none = servers
desired_dns_servers servers (some ip) =
    if str_eq ip "" || str_eq ip "None" then servers else ip ∷ []

abbrev config_ops : Option String → String → Operation → (String → Operation) → List Operation
config_ops none expected create update = create ∷ []
config_ops (some actual) expected create update =
    if str_eq actual expected then [] else update expected ∷ []

unfoldable pub decide_cluster_dns_ops : DnsTexts → NodeFilter → List Operation
unfolding desired_dns_servers
decide_cluster_dns_ops texts nf =
    let ks = nf.status.kubernetes in
    config_ops ks.cluster_dns_config
      (texts.corefile (desired_dns_servers nf.cluster.dns_servers ks.dns_service))
      cluster_dns_create cluster_dns_update

unfoldable pub decide_node_dns_ops : DnsTexts → NodeFilter → List Operation
unfolding desired_dns_servers
decide_node_dns_ops texts nf =
    let ks = nf.status.kubernetes in
    if str_eq ks.cluster_dns_ip ""
    then []
    else config_ops ks.node_dns_config
        (texts.unbound ks.cluster_dns_ip
          (desired_dns_servers nf.cluster.dns_servers ks.dns_service))
        node_dns_create node_dns_update

unfoldable pub k8s_maint_ops :
    DnsTexts → List ResourceDefinition → List ResourceDefinition → NodeFilter → List Operation
unfolding is_ready
k8s_maint_ops texts static_resources resources nf =
    if not nf.status.kubernetes.is_control_plane_ready
    then kube_wait (healthy_api_server nf) ∷ []
    else decide_resource_ops nf.status.kubernetes (is_ready nf) static_resources resources
      ++ (decide_cluster_dns_ops texts nf
          ++ (decide_node_dns_ops texts nf
              ++ (map endpoint
                    (etcd_endpoint_ops nf (reboot_next_candidates nf.status.reboot_queue))
                  ++ (if_some (outdated_attrs_nodes nf) node_update
                      ++ if_some (non_cluster_nodes nf) node_remove))))

-- The five loops of cleanOps are one over the nodes with five lists.
module _ (nf : NodeFilter) where
  abbrev pub to_clean : Node → Bool
  to_clean n = not (not (node_status nf n).ssh_connected || n.control_plane)

  abbrev pub cleaned : (Node → Bool) → List Node
  cleaned runs = keep_if (λ n. to_clean n && runs n) nf.cluster.nodes

  unfoldable pub clean_ops : List Operation
  clean_ops =
      if_some (cleaned (λ n. (node_status nf n).api_server.service.running)) api_server_stop
      ++ (if_some (cleaned (λ n. (node_status nf n).controller_manager.service.running))
            controller_manager_stop
          ++ (if_some (cleaned (λ n. (node_status nf n).scheduler.service.running)) scheduler_stop
              ++ (if_some
                    (cleaned (λ n. (node_status nf n).etcd.service.running && etcd_is_good nf))
                    etcd_stop
                  ++ if_some (cleaned (λ n. (node_status nf n).etcd_rivers.running))
                      etcd_rivers_stop)))

  unfoldable pub cordoned_nodes : List KubeNode
  cordoned_nodes =
      keep_if
        (λ n. n.unschedulable && is_value (find_key cke_annotation_reboot n.annotations) "true")
        nf.status.kubernetes.nodes

-- repairProcessing
abbrev drained_or_watched : RepairStepStatus → Bool
drained_or_watched waiting = false
drained_or_watched draining = true
drained_or_watched watching = true

abbrev pub works_on : String → RepairQueueEntry → Bool
works_on nodename entry =
    is_in_cluster entry
    && (str_eq entry.nodename nodename
        && (status_eq entry.status processing && drained_or_watched entry.step_status))

unfoldable pub repair_processing : List RepairQueueEntry → String → Bool
repair_processing entries nodename = any (works_on nodename) entries

module _ (nf : NodeFilter) where
  abbrev pub in_maintenance : KubeNode → Bool
  in_maintenance n =
      reboot_processing nf.status.reboot_queue n.name
      || repair_processing nf.status.repair_queue.entries n.name

  unfoldable pub reboot_uncordon_op : List Operation
  reboot_uncordon_op =
      if_some (map (λ n. n.name) (keep_if (λ n. not (in_maintenance n)) (cordoned_nodes nf)))
        uncordon
