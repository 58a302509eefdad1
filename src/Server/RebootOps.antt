-- ===== src/Server/RebootOps.antt =====
-- rebootOps of server/strategy.go.
pub mod Starting
pub mod Run
use cke.Prelude.{Bool, not, List, [], ◌∷◌, ◌++◌, Option, ltb, ◌==◌, length, keep_if, if◌then◌else◌}
use cke.Cluster.{Node, Cluster, Constraints}
use cke.Reboot.{RebootQueueEntry}
use cke.Reboot.Decide.{RebootQueueStatus, reboot_processing}
use cke.Server.{NodeFilter, all_nodes, ssh_not_connected, healthy_api_server}

-- The operations, without the reboot configuration that four of them also take.
pub data RebootOp : Type 0 where
  reboot_cancel : List RebootQueueEntry → RebootOp
  reboot_dequeue : List RebootQueueEntry → RebootOp
  reboot_delete_daemon_set_pod : Option Node → List RebootQueueEntry → RebootOp
  reboot_reboot : Option Node → List RebootQueueEntry → RebootOp
  reboot_drain_start : Option Node → List RebootQueueEntry → RebootOp
  reboot_drain_timeout : List RebootQueueEntry → RebootOp

-- `if len(entries) > 0 { ops = append(ops, ...) }`
abbrev pub if_any : List RebootQueueEntry → List RebootOp → List RebootOp
if_any [] ops = []
if_any (e ∷ es) ops = ops

module _ (c : Cluster) (constraints : Constraints) (nf : NodeFilter) where
  abbrev pub queue : RebootQueueStatus
  queue = nf.status.reboot_queue

  -- The nodes that are not under the reboot process.
  unfoldable pub ssh_check_nodes : List Node
  ssh_check_nodes = keep_if (λ n. not (reboot_processing queue n.address)) (all_nodes nf)

  abbrev pub too_many_unreachable : Bool
  too_many_unreachable =
      ltb constraints.reboot_maximum_unreachable (length (ssh_not_connected nf ssh_check_nodes))

  drain_start_ops : List RebootOp
  drain_start_ops =
      if too_many_unreachable
      then []
      else reboot_drain_start (healthy_api_server nf) queue.next_candidates ∷ []

  closing_ops : List RebootOp
  closing_ops =
      if_any queue.reboot_cancelled (reboot_cancel queue.reboot_cancelled ∷ [])
      ++ if_any queue.reboot_dequeued (reboot_dequeue queue.reboot_dequeued ∷ [])

  progress_ops : List RebootOp
  unfolding drain_start_ops
  progress_ops =
      if_any queue.drain_completed (
        reboot_delete_daemon_set_pod (healthy_api_server nf) queue.drain_completed
        ∷ reboot_reboot (healthy_api_server nf) queue.drain_completed
        ∷ [])
      ++ (if_any queue.next_candidates drain_start_ops
          ++ if_any queue.drain_timedout (reboot_drain_timeout queue.drain_timedout ∷ []))

  -- The early returns between the two halves.
  unfoldable pub reboot_ops : List RebootOp
  unfolding closing_ops progress_ops
  reboot_ops =
      if ltb 0 (length closing_ops)
      then closing_ops
      else if not queue.enabled
      then []
      else if length queue.entries == 0
      then []
      else if length c.reboot.reboot_command == 0
      then []
      else if length c.reboot.boot_check_command == 0
      then []
      else progress_ops
