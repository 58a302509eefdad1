-- ===== src/Server/Decide.antt =====
-- DecideOps of server/strategy.go: the phases in their order.
pub mod Guards
pub mod Completed
pub mod Serving
pub mod Names
use cke.Prelude.{
  ℕ, String, Bool, true, false, not, List, [], ◌∷◌, Option, none, some, map, length, ltb, str_eq,
  if◌then◌else◌,
}
use cke.Cluster.{Node, nodename, Constraints, Time}
use cke.Repair.Ops.{RepairOp, repair_ops}
use cke.Reboot.Decide.{reboot_processing}
use cke.Server.{NodeFilter, control_plane_nodes, ssh_connected, ssh_not_connected}
use cke.Server.Components.{rivers_ops, k8s_ops}
use cke.Server.Etcd.{
  EtcdOp, etcd_bootstrapped, etcd_stopped, etcd_is_good, etcd_is_good_for_repair, etcd_maint_op,
}
use cke.Server.Maintenance.{DnsTexts, k8s_maint_ops, clean_ops, reboot_uncordon_op}
use cke.Server.Operations.{
  Operation, ResourceDefinition, Phase, upgrade, etcd_boot, etcd_start, etcd_wait_cluster,
  etcd_maint, repair, reboot, phase_upgrade_aborted, phase_upgrade, phase_rivers,
  phase_etcd_boot_aborted, phase_etcd_boot, phase_etcd_start, phase_etcd_wait, phase_k8s_start,
  phase_etcd_maintain, phase_k8s_maintain, phase_stop_cp, phase_repair_machines,
  phase_uncordon_nodes, phase_reboot_nodes, phase_completed,
}
use cke.Server.RebootOps.{reboot_ops}
use cke.Server.Services.{Desired}

abbrev pub config_version : String
config_version = "2"

abbrev pub Decision : Type 0
Decision = List Operation × Phase

-- `if ops := ...; len(ops) > 0 { return ops, phase }`, and what follows.
abbrev pub or_next : List Operation → Phase → Decision → Decision
or_next [] phase next = next
or_next (o ∷ ops) phase next = (o ∷ ops, phase)

abbrev pub start_op : List Node → List Operation
start_op [] = []
start_op (n ∷ ns) = etcd_start (n ∷ ns) ∷ []

abbrev pub maint_ops : Option EtcdOp → List Operation
maint_ops none = []
maint_ops (some o) = etcd_maint o ∷ []

-- The arguments of DecideOps besides the cluster and its status, the generated parameters and texts,
-- and the time.
pub record Inputs : Type 0 where
  pub desired : Desired
  pub texts : DnsTexts
  pub static_resources : List ResourceDefinition
  pub resources : List ResourceDefinition
  pub constraints : Constraints
  pub max_concurrent_updates : ℕ
  pub now : Time

module _ (i : Inputs) (nf : NodeFilter) where
  abbrev pub cps : List Node
  cps = control_plane_nodes nf

  abbrev pub some_cp_unreachable : Bool
  some_cp_unreachable = ltb 0 (length (ssh_not_connected nf cps))

  abbrev pub repairs : List RepairOp × Bool
  repairs =
      repair_ops nf.cluster nf.status.repair_queue cps (reboot_processing nf.status.reboot_queue)
        i.now

  abbrev pub reboots : List Operation
  reboots = map reboot (reboot_ops nf.cluster i.constraints nf)

  guard_reboots : List Operation → Decision
  guard_reboots [] = ([], phase_completed)
  guard_reboots (o ∷ ops) =
      if not (etcd_is_good nf) then ([], phase_reboot_nodes) else (o ∷ ops, phase_reboot_nodes)

  -- 10 and 11: repairs, then reboots.
  decide_queues : Decision
  unfolding guard_reboots
  decide_queues =
      if repairs.1
      then if not (etcd_is_good_for_repair nf i.constraints.control_plane_count)
        then ([], phase_repair_machines)
        else (map repair repairs.0, phase_repair_machines)
      else guard_reboots reboots

  -- 7 to 9: what needs a working Kubernetes.
  decide_maintenance : Decision
  unfolding decide_queues
  decide_maintenance =
      or_next (k8s_maint_ops i.texts i.static_resources i.resources nf) phase_k8s_maintain (
        or_next (clean_ops nf) phase_stop_cp
          (or_next (reboot_uncordon_op nf) phase_uncordon_nodes decide_queues))

  -- 6: etcd, only while all control plane nodes are reachable.
  decide_etcd : Decision
  unfolding decide_maintenance
  decide_etcd =
      if some_cp_unreachable
      then decide_maintenance
      else or_next
          (maint_ops (etcd_maint_op i.desired.etcd nf.cluster.options.etcd i.desired.etcd_image nf))
          phase_etcd_maintain decide_maintenance

  -- 3 to 5: etcd runs and answers, then the components of Kubernetes.
  decide_services : Decision
  unfolding decide_etcd
  decide_services = or_next (start_op (ssh_connected nf (etcd_stopped nf cps))) phase_etcd_start (
      if not nf.status.etcd.is_healthy
      then (etcd_wait_cluster cps ∷ [], phase_etcd_wait)
      else or_next (k8s_ops i.desired nf i.max_concurrent_updates) phase_k8s_start decide_etcd)

  -- 1 and 2: the rivers, and the first start of etcd.
  decide_start : Decision
  unfolding decide_services
  decide_start = or_next (rivers_ops i.desired nf i.max_concurrent_updates) phase_rivers (
      if etcd_bootstrapped nf
      then decide_services
      else if some_cp_unreachable
      then ([], phase_etcd_boot_aborted)
      else (etcd_boot cps ∷ [], phase_etcd_boot))

  unfoldable pub decide_ops : Decision
  unfolding decide_start
  decide_ops =
      if str_eq nf.status.config_version config_version
      then decide_start
      else if some_cp_unreachable
      then ([], phase_upgrade_aborted)
      else (upgrade nf.status.config_version cps ∷ [], phase_upgrade)
