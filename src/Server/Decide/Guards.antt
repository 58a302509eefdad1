-- ===== src/Server/Decide/Guards.antt =====
-- Under which conditions DecideOps returns an operation.
use cke.Prelude.{◌≡◌, true, false, All}
use cke.Repair.Ops.{RepairOp}
use cke.Repair.Ops.Steps.{IsJustified}
use cke.Server.{NodeFilter, node_status, ssh_connected}
use cke.Server.Components.OneByOne.{OneByOne}
use cke.Server.Every.{Every}
use cke.Server.Etcd.{EtcdOp, etcd_bootstrapped, etcd_is_good, etcd_is_good_for_repair}
use cke.Server.Etcd.Maint.{Grounds}
use cke.Server.Maintenance.Kinds.{Surplus, Idle}
use cke.Server.Operations.{
  Operation, upgrade, etcd_boot, etcd_start, etcd_wait_cluster, etcd_maint, api_server_restart,
  uncordon, api_server_stop, controller_manager_stop, scheduler_stop, etcd_stop, etcd_rivers_stop,
  repair, reboot,
}
use cke.Server.RebootOps.{RebootOp}
use cke.Server.RebootOps.Starting
use cke.Server.Decide.{Inputs, Decision, some_cp_unreachable, repairs}

module _ (i : Inputs) (nf : NodeFilter) where
  abbrev pub Reachable : Type 0
  Reachable = some_cp_unreachable i nf ≡ false

  -- Every repair operation has its grounds.
  abbrev pub RepairGuard : RepairOp → Type 0
  RepairGuard o =
      (etcd_is_good_for_repair nf i.constraints.control_plane_count ≡ true)
      × IsJustified nf.cluster nf.status.repair_queue i.now o

  abbrev pub RebootGuard : RebootOp → Type 0
  RebootGuard o =
      (etcd_is_good nf ≡ true)
      × ((repairs i nf).1 ≡ false)
      × Starting.Grounds nf.cluster i.constraints nf o

  abbrev pub EtcdGuard : EtcdOp → Type 0
  EtcdGuard o =
      Reachable
      × (nf.status.etcd.is_healthy ≡ true)
      × Grounds nf i.desired.etcd nf.cluster.options.etcd i.desired.etcd_image o

  -- The guard of each operation. The others are on components or on Kubernetes objects.
  abbrev pub Guard : Operation → Type 0
  Guard (upgrade v ns) = Reachable
  Guard (etcd_boot ns) = Reachable × (etcd_bootstrapped nf ≡ false)
  Guard (etcd_start ns) = All (λ n. (node_status nf n).ssh_connected ≡ true) ns
  Guard (etcd_wait_cluster ns) = nf.status.etcd.is_healthy ≡ false
  Guard (etcd_maint o) = EtcdGuard o
  Guard (api_server_restart ns) = OneByOne i.desired nf ns
  Guard (api_server_stop ns) = All (Surplus nf) ns
  Guard (controller_manager_stop ns) = All (Surplus nf) ns
  Guard (scheduler_stop ns) = All (Surplus nf) ns
  Guard (etcd_rivers_stop ns) = All (Surplus nf) ns
  Guard (etcd_stop ns) = All (λ n. Surplus nf n × (etcd_is_good nf ≡ true)) ns
  Guard (uncordon names) = All (Idle nf) names
  Guard (repair o) = RepairGuard o
  Guard (reboot o) = RebootGuard o
  Guard op = Unit {0}

  abbrev Guarded : Decision → Type 0
  Guarded r = Every Guard r.0
