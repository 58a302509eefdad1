-- ===== src/Server/Decide/Names.antt =====
-- The names under which reboots and repairs are looked up.
use cke.Prelude.{String, ◌≡◌, ◌≢◌, false, List, [], ◌∷◌, All}
use cke.Cluster.{Node, nodename}
use cke.Reboot.{RebootQueueEntry}
use cke.Reboot.Decide.{RebootQueueStatus, reboot_processing}
use cke.Reboot.Decide.Queue.{reboot_processing_unlisted}
use cke.Repair.Ops.{repair_ops}
use cke.Repair.Ops.Names.{repair_ops_blind}
use cke.Server.{NodeFilter}
use cke.Server.Decide.{Inputs, cps, repairs}

-- The name is that of no entry.
abbrev pub Unlisted : RebootQueueStatus → String → Type 0
Unlisted q name = All (λ (e : RebootQueueEntry). e.node ≢ name) q.entries

-- Repairs are decided as if nothing were rebooted, wherever the node name of no control plane node
-- is the address of an entry of the reboot queue, whatever the entries are about.
pub repairs_blind :
    (i : Inputs) (nf : NodeFilter)
    → All (λ n. Unlisted nf.status.reboot_queue (nodename n)) (cps i nf)
    → repairs i nf ≡ repair_ops nf.cluster nf.status.repair_queue (cps i nf) (λ _. false) i.now
repairs_blind i nf h =
    repair_ops_blind nf.cluster nf.status.repair_queue (cps i nf)
      (reboot_processing nf.status.reboot_queue) i.now (all_idle (cps i nf) h)
  where
    all_idle :
        (ns : List Node)
        → All (λ n. Unlisted nf.status.reboot_queue (nodename n)) ns
        → All (λ n. reboot_processing nf.status.reboot_queue (nodename n) ≡ false) ns
    all_idle [] k = tt
    all_idle (n ∷ ns) k = (reboot_processing_unlisted _ _ k.0, all_idle ns k.1)
