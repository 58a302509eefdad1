-- ===== src/Server/RebootOps/Run.antt =====
-- The commands of the operations of rebootOps, and what a round stores.
use cke.Prelude.{
  ◌≡◌, refl, sym, subst, String, Bool, true, List, [], ◌∷◌, Option, some, All, All-at, All-mem,
  Memᴰ, arith,
}
use cke.Cluster.{Cluster, Constraints, RebootConfig, Time}
use cke.Reboot.{RebootQueueEntry, queued, draining, status_eq, dedup_reboot_queue_entries}
use cke.Reboot.BackOff.{back_off_entry}
use cke.Reboot.Commands.{
  Answers, Ran, drain_start, drain_timeout, reboot_all, dequeue, delete_daemon_set_pods,
}
use cke.Reboot.Commands.Stored.{
  Course, here, further, drain, boot, retreat, identity, identity-Course, drain_start-Kept,
  drain_timeout-Kept, reboot_all-Kept,
}
use cke.Reboot.Decide.{get_reboot_queue_status}
use cke.Reboot.Decide.Choose.{IsAllowed, choose-IsAllowed}
use cke.Reboot.Decide.Queue.{status_candidates, status_drains}
use cke.Server.{NodeFilter}
use cke.Server.RebootOps.{
  RebootOp, reboot_cancel, reboot_dequeue, reboot_delete_daemon_set_pod, reboot_reboot,
  reboot_drain_start, reboot_drain_timeout, queue, reboot_ops,
}
use cke.Server.RebootOps.Starting.{Grounds, reboot_ops-Grounds}

-- The one command of an operation, run.
unfoldable pub run : RebootConfig → Answers → RebootOp → Ran
run config x (reboot_cancel es) = dequeue config x es
run config x (reboot_dequeue es) = dequeue config x es
run config x (reboot_delete_daemon_set_pod _ es) = delete_daemon_set_pods config x es
run config x (reboot_reboot _ es) = reboot_all config x es
run config x (reboot_drain_start _ es) = drain_start config x es
run config x (reboot_drain_timeout es) = drain_timeout config x es

-- The entry follows from one of the list.
abbrev pub Follows : List RebootQueueEntry → RebootQueueEntry → Type 0
Follows es w = (e : RebootQueueEntry) × Memᴰ e es × Course e w × (identity w ≡ identity e)

abbrev Queued : List RebootQueueEntry → RebootQueueEntry → Type 0
Queued es e = Memᴰ e es × (status_eq e.status queued ≡ true)

abbrev Drains : List RebootQueueEntry → RebootQueueEntry → Type 0
Drains es e = Memᴰ e es × (status_eq e.status draining ≡ true)

dequeue_none :
    (config : RebootConfig) (x : Answers) (es : List RebootQueueEntry)
    → (dequeue config x es).written ≡ []
unfolding dequeue
dequeue_none config x [] = refl
dequeue_none config x (e ∷ es) = ground (arith, dequeue_none config x es)

module _ (config : RebootConfig) (x : Answers) (listed : List RebootQueueEntry) where
  follows : {e w : RebootQueueEntry} → Memᴰ e listed → Course e w → Follows listed w
  follows {e} m course = (e, m, course, identity-Course course)

  drained-Follows :
      (es : List RebootQueueEntry)
      → All (Queued listed) es
      → All (Follows listed) (drain_start config x es).written
  unfolding back_off_entry
  drained-Follows es h = drain_start-Kept config x (Follows listed) es (
      All-mem _ es (λ e m.
        let (i, q) = All-at (Queued listed) es h m in
        let first = further here (drain q) in
        (follows i first, follows i (further first (retreat refl)))))

  booted-Follows :
      (es : List RebootQueueEntry)
      → All (Drains listed) es
      → All (Follows listed) (reboot_all config x es).written
  booted-Follows es h = reboot_all-Kept config x (Follows listed) es (
      All-mem _ es
        (λ e m. let (i, d) = All-at (Drains listed) es h m in follows i (further here (boot d))))

  late-Follows :
      (es : List RebootQueueEntry)
      → All (Drains listed) es
      → All (Follows listed) (drain_timeout config x es).written
  unfolding back_off_entry
  late-Follows es h = drain_timeout-Kept config x (Follows listed) es (
      All-mem _ es
        (λ e m. let (i, d) = All-at (Drains listed) es h m in follows i (further here (retreat d))))

module _ (c : Cluster) (constraints : Constraints) (nf : NodeFilter) where
  -- Each entry that the commands of a round store, whatever the outside answers, follows from an
  -- entry of the queue as it was read by the moves of its life: a queued entry starts to drain, and a
  -- draining one is rebooted or goes back to the queue. Its index and its node are those that were
  -- read.
  pub reboot_ops-run :
      (x : Answers) (api_servers pods_deleted : String → Bool)
      (volumes_in_use : String → Option Bool) (reboot_completed : RebootQueueEntry → Bool)
      (now : Time) (disabled : Bool) (stored : List RebootQueueEntry) (op : RebootOp)
      (w : RebootQueueEntry)
      → get_reboot_queue_status c api_servers pods_deleted volumes_in_use reboot_completed now
          disabled stored
        ≡ some (queue c constraints nf)
      → Memᴰ op (reboot_ops c constraints nf)
      → Memᴰ w (run c.reboot x op).written
      → Follows (dedup_reboot_queue_entries stored) w
  unfolding run delete_daemon_set_pods
  reboot_ops-run x api_servers pods_deleted volumes_in_use reboot_completed now disabled stored op w
        read decided wrote =
      All-at (Follows (dedup_reboot_queue_entries stored)) _
        (stores op
          (All-at (Grounds c constraints nf) _ (reboot_ops-Grounds c constraints nf) decided))
        wrote
    where
      drains :
          All (Drains (dedup_reboot_queue_entries stored)) (queue c constraints nf).drain_completed
          × All (Drains (dedup_reboot_queue_entries stored)) (queue c constraints nf).drain_timedout
      drains =
          status_drains c api_servers pods_deleted volumes_in_use reboot_completed now disabled
            stored (queue c constraints nf) read

      candidates :
          All (Queued (dedup_reboot_queue_entries stored)) (queue c constraints nf).next_candidates
      candidates =
          let same =
            status_candidates c api_servers pods_deleted volumes_in_use reboot_completed now
              disabled stored (queue c constraints nf) read in
          rw same.1 (
            All-mem (Queued (dedup_reboot_queue_entries stored)) _ (λ e m.
              let a =
                All-at (λ e. IsAllowed api_servers c now e (dedup_reboot_queue_entries stored)) _
                  (choose-IsAllowed api_servers c now (dedup_reboot_queue_entries stored)).1 m in
              (a.listed, let d = a.drainable in ground arith)))

      stores :
          (o : RebootOp)
          → Grounds c constraints nf o
          → All (Follows (dedup_reboot_queue_entries stored)) (run c.reboot x o).written
      stores (reboot_cancel es) g =
          subst (All (Follows (dedup_reboot_queue_entries stored)))
            (sym (dequeue_none c.reboot x es)) tt
      stores (reboot_dequeue es) g =
          subst (All (Follows (dedup_reboot_queue_entries stored)))
            (sym (dequeue_none c.reboot x es)) tt
      stores (reboot_delete_daemon_set_pod _ es) g = ground arith
      stores (reboot_reboot _ es) g =
          booted-Follows c.reboot x (dedup_reboot_queue_entries stored) es
            (subst (All (Drains (dedup_reboot_queue_entries stored))) (sym g.1) drains.0)
      stores (reboot_drain_start _ es) g =
          drained-Follows c.reboot x (dedup_reboot_queue_entries stored) es
            (subst (All (Queued (dedup_reboot_queue_entries stored))) (sym g.2) candidates)
      stores (reboot_drain_timeout es) g =
          late-Follows c.reboot x (dedup_reboot_queue_entries stored) es
            (subst (All (Drains (dedup_reboot_queue_entries stored))) (sym g.1) drains.1)
