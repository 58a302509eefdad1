-- ===== src/Server/Maintenance/Kinds.antt =====
-- What the maintenance of Kubernetes, the cleaning and the uncordoning may do.
use cke.Prelude.{
  String, ◌≡◌, refl, Bool, true, false, not, ◌&&◌, List, [], ◌∷◌, map, Option, none, some,
  if◌then◌else◌, All, All-mem, mem-keep_if, keep_if, arith, str_eq,
}
use cke.Cluster.{Node}
use cke.Reboot.Decide.{reboot_processing}
use cke.Server.{NodeFilter, KubeNode, KubernetesClusterStatus, ResourceStatus, node_status}
use cke.Server.Every.{Every, none_left, one_more, Every-append, Every-map, Every-if_some}
use cke.Server.Etcd.{etcd_is_good}
use cke.Server.Operations.{
  Operation, ResourceDefinition, endpoint, kube_wait, resource_apply, cluster_dns_create,
  cluster_dns_update, node_dns_create, node_dns_update, node_update, node_remove, api_server_stop,
  controller_manager_stop, scheduler_stop, etcd_stop, etcd_rivers_stop, uncordon,
}
use cke.Server.Maintenance.{
  DnsTexts, k8s_maint_ops, decide_resource_ops, resource_ops, resource_op, apply_if_needed,
  need_update, find_status, decide_cluster_dns_ops, decide_node_dns_ops, config_ops, to_clean,
  cleaned, clean_ops, cordoned_nodes, repair_processing, in_maintenance, reboot_uncordon_op,
}

abbrev pub is_maintenance : Operation → Bool
is_maintenance (kube_wait _) = true
is_maintenance (resource_apply _ _) = true
is_maintenance cluster_dns_create = true
is_maintenance (cluster_dns_update _) = true
is_maintenance node_dns_create = true
is_maintenance (node_dns_update _) = true
is_maintenance (endpoint _) = true
is_maintenance (node_update _) = true
is_maintenance (node_remove _) = true
is_maintenance _ = false

abbrev pub Maintains : Operation → Type 0
Maintains op = is_maintenance op ≡ true

apply_if_needed-Maintains :
    (r : ResourceDefinition) (o : Option ResourceStatus) → Every Maintains (apply_if_needed r o)
unfolding apply_if_needed
apply_if_needed-Maintains r none = one_more refl none_left
apply_if_needed-Maintains r (some s) = by_test (need_update r s)
  where
    by_test :
        (b : Bool) → Every Maintains (if b then resource_apply r (not s.has_been_ssa) ∷ [] else [])
    by_test true = one_more refl none_left
    by_test false = none_left

resource_op-Maintains :
    (ks : KubernetesClusterStatus) (ready : Bool) (r : ResourceDefinition)
    → Every Maintains (resource_op ks ready r)
unfolding resource_op
resource_op-Maintains ks ready r = by_test (str_eq r.kind "Deployment" && not ready)
  where
    found : Option ResourceStatus
    found = find_status r.key ks.resource_statuses

    by_test : (b : Bool) → Every Maintains (if b then [] else apply_if_needed r found)
    by_test true = none_left
    by_test false = apply_if_needed-Maintains r found

resource_ops-Maintains :
    (ks : KubernetesClusterStatus) (ready : Bool) (rs : List ResourceDefinition)
    → Every Maintains (resource_ops ks ready rs)
unfolding resource_ops
resource_ops-Maintains ks ready [] = none_left
resource_ops-Maintains ks ready (r ∷ rs) =
    Every-append (resource_op-Maintains ks ready r) (resource_ops-Maintains ks ready rs)

config_ops-Maintains :
    (o : Option String) (expected : String) (create : Operation) (update : String → Operation)
    → Maintains create
    → ((s : String) → Maintains (update s))
    → Every Maintains (config_ops o expected create update)
config_ops-Maintains none expected create update h k = one_more h none_left
config_ops-Maintains (some actual) expected create update h k = by_test (str_eq actual expected)
  where
    by_test : (b : Bool) → Every Maintains (if b then [] else update expected ∷ [])
    by_test true = none_left
    by_test false = one_more (k expected) none_left

node_dns-Maintains :
    (texts : DnsTexts) (nf : NodeFilter) → Every Maintains (decide_node_dns_ops texts nf)
unfolding decide_node_dns_ops
node_dns-Maintains texts nf = by_test (str_eq nf.status.kubernetes.cluster_dns_ip "") _ (
    config_ops-Maintains nf.status.kubernetes.node_dns_config _ node_dns_create node_dns_update refl
      (λ s. refl))
  where
    by_test :
        (b : Bool) (ops : List Operation)
        → Every Maintains ops
        → Every Maintains (if b then [] else ops)
    by_test true ops h = none_left
    by_test false ops h = h

cluster_dns-Maintains :
    (texts : DnsTexts) (nf : NodeFilter) → Every Maintains (decide_cluster_dns_ops texts nf)
unfolding decide_cluster_dns_ops
cluster_dns-Maintains texts nf =
    config_ops-Maintains nf.status.kubernetes.cluster_dns_config _ cluster_dns_create
      cluster_dns_update refl (λ s. refl)

pub k8s_maint_ops-Maintains :
    (texts : DnsTexts) (static_resources resources : List ResourceDefinition) (nf : NodeFilter)
    → Every Maintains (k8s_maint_ops texts static_resources resources nf)
unfolding k8s_maint_ops decide_resource_ops
k8s_maint_ops-Maintains texts static_resources resources nf =
    by_test nf.status.kubernetes.is_control_plane_ready _ _ (one_more refl none_left) (
      Every-append
        (Every-append (resource_ops-Maintains nf.status.kubernetes _ static_resources)
          (resource_ops-Maintains nf.status.kubernetes _ resources))
        (Every-append (cluster_dns-Maintains texts nf) (
          Every-append (node_dns-Maintains texts nf) (
            Every-append (Every-map endpoint _ (λ o. refl)) (
              Every-append (Every-if_some _ node_update refl)
                (Every-if_some _ node_remove refl))))))
  where
    by_test :
        (b : Bool) (wait ops : List Operation)
        → Every Maintains wait
        → Every Maintains ops
        → Every Maintains (if not b then wait else ops)
    by_test true wait ops h k = k
    by_test false wait ops h k = h

module _ (nf : NodeFilter) where
  -- A reachable node that is no control plane node.
  abbrev pub Surplus : Node → Type 0
  Surplus n = (n.control_plane ≡ false) × ((node_status nf n).ssh_connected ≡ true)

  abbrev pub Cleans : Operation → Type 0
  Cleans (api_server_stop ns) = All Surplus ns
  Cleans (controller_manager_stop ns) = All Surplus ns
  Cleans (scheduler_stop ns) = All Surplus ns
  Cleans (etcd_rivers_stop ns) = All Surplus ns
  Cleans (etcd_stop ns) = All (λ n. Surplus n × (etcd_is_good nf ≡ true)) ns
  Cleans _ = ⊥

  cleaned-Surplus : (runs : Node → Bool) → All Surplus (cleaned nf runs)
  cleaned-Surplus runs = All-mem Surplus _ (λ n i.
      let (listed, t) = mem-keep_if (λ m. to_clean nf m && runs m) nf.cluster.nodes i in
      (ground arith, ground arith))

  cleaned-good :
      (runs : Node → Bool)
      → All
          (λ n. Surplus n × (etcd_is_good nf ≡ true))
          (cleaned nf (λ n. runs n && etcd_is_good nf))
  cleaned-good runs =
      All-mem (λ n. Surplus n × (etcd_is_good nf ≡ true)) _
        (λ n i.
          let (listed, t) =
            mem-keep_if (λ m. to_clean nf m && (runs m && etcd_is_good nf)) nf.cluster.nodes i in
          ((ground arith, ground arith), ground arith))

  pub clean_ops-Cleans : Every Cleans (clean_ops nf)
  unfolding clean_ops
  clean_ops-Cleans = Every-append (Every-if_some _ api_server_stop (cleaned-Surplus _)) (
      Every-append (Every-if_some _ controller_manager_stop (cleaned-Surplus _)) (
        Every-append (Every-if_some _ scheduler_stop (cleaned-Surplus _)) (
          Every-append
            (Every-if_some _ etcd_stop
              (cleaned-good (λ n. (node_status nf n).etcd.service.running)))
            (Every-if_some _ etcd_rivers_stop (cleaned-Surplus _)))))

  abbrev pub Idle : String → Type 0
  Idle name =
      (reboot_processing nf.status.reboot_queue name ≡ false)
      × (repair_processing nf.status.repair_queue.entries name ≡ false)

  abbrev pub Uncordons : Operation → Type 0
  Uncordons (uncordon names) = All Idle names
  Uncordons _ = ⊥

  names-Idle :
      (ks : List KubeNode)
      → All Idle (map (λ n. n.name) (keep_if (λ n. not (in_maintenance nf n)) ks))
  names-Idle [] = tt
  names-Idle (k ∷ ks) = ground (arith, names-Idle ks)

  pub reboot_uncordon_op-Uncordons : Every Uncordons (reboot_uncordon_op nf)
  unfolding reboot_uncordon_op
  reboot_uncordon_op-Uncordons = Every-if_some _ uncordon (names-Idle (cordoned_nodes nf))
