-- ===== src/Server/Operations.antt =====
-- The operations that server/strategy.go decides, and phase.go. An operation is kept with the nodes
-- and objects that it is about; the configuration of the cluster, which most take too, is the same
-- for all of them and left out.
use cke.Prelude.{ℕ, String, List, [], ◌∷◌, Option, Bool, take}
use cke.Cluster.{Node}
use cke.Repair.Ops.{RepairOp}
use cke.Server.{KubeNode}
use cke.Server.EndpointOps.Decide.{EndpointOp}
use cke.Server.Etcd.{EtcdOp}
use cke.Server.RebootOps.{RebootOp}

-- ResourceDefinition. Its revision is the text that strconv.FormatInt gives for it.
pub record ResourceDefinition : Type 0 where
  pub key : String
  pub kind : String
  pub revision : String
  pub image : String

pub data Operation : Type 0 where
  upgrade : String → List Node → Operation
  rivers_boot : List Node → Operation
  rivers_restart : List Node → Operation
  etcd_rivers_boot : List Node → Operation
  etcd_rivers_restart : List Node → Operation
  etcd_boot : List Node → Operation
  etcd_start : List Node → Operation
  etcd_wait_cluster : List Node → Operation
  etcd_maint : EtcdOp → Operation
  endpoint : EndpointOp → Operation
  api_server_restart : List Node → Operation
  controller_manager_boot : List Node → Operation
  controller_manager_restart : List Node → Operation
  scheduler_boot : List Node → Operation
  scheduler_restart : List Node → Operation
  kubelet_boot : List Node → List Node → Operation
  kubelet_restart : List Node → Operation
  proxy_boot : List Node → Operation
  proxy_restart : List Node → Operation
  proxy_stop : List Node → Operation
  kube_wait : Option Node → Operation
  resource_apply : ResourceDefinition → Bool → Operation
  cluster_dns_create : Operation
  cluster_dns_update : String → Operation
  node_dns_create : Operation
  node_dns_update : String → Operation
  node_update : List KubeNode → Operation
  node_remove : List KubeNode → Operation
  api_server_stop : List Node → Operation
  controller_manager_stop : List Node → Operation
  scheduler_stop : List Node → Operation
  etcd_stop : List Node → Operation
  etcd_rivers_stop : List Node → Operation
  uncordon : List String → Operation
  repair : RepairOp → Operation
  reboot : RebootOp → Operation

-- OperationPhase
pub data Phase : Type 0 where
  phase_upgrade_aborted phase_upgrade phase_rivers phase_etcd_boot_aborted : Phase
  phase_etcd_boot phase_etcd_start phase_etcd_wait phase_k8s_start : Phase
  phase_etcd_maintain phase_k8s_maintain phase_stop_cp phase_repair_machines : Phase
  phase_uncordon_nodes phase_reboot_nodes phase_completed : Phase

-- `if nodes := ...; len(nodes) > 0 { ops = append(ops, f(nodes)) }`
abbrev pub if_some {ℓ} : {A : Type ℓ} → List A → (List A → Operation) → List Operation
if_some [] f = []
if_some (x ∷ xs) f = f (x ∷ xs) ∷ []

-- The same, for `nodes[:min(len(nodes), max)]`.
abbrev pub if_some_most : ℕ → List Node → (List Node → Operation) → List Operation
if_some_most max [] f = []
if_some_most max (n ∷ ns) f = f (take max (n ∷ ns)) ∷ []
