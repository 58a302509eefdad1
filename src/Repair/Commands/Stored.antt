-- ===== src/Repair/Commands/Stored.antt =====
-- What the commands of an operation store.
use cke.Prelude.{◌≡◌, refl, Bool, true, false, All, arith}
use cke.Cluster.{Cluster, RepairStep}
use cke.Repair.{RepairQueueEntry, draining, has_finished, finished_status}
use cke.Repair.Ops.{
  RepairOp, repair_dequeue, repair_finish, repair_execute, repair_drain_start, repair_drain_timeout,
}
use cke.Repair.Lifecycle.{Course, further, start, give_up, perform, close, Starts}
use cke.Repair.Commands.{
  Answers, Ran, run, store, finish, final_status, repair_drain_back_off, draining_entry,
  watching_entry, drain, start_drain, execute,
}

module _ (c : Cluster) (x : Answers) (e : RepairQueueEntry) where
  abbrev Kept : Ran → Type 0
  Kept r = All (Course c e) r.written

  store-Kept :
      (f : RepairQueueEntry) (next : Ran) → Course c e f → Kept next → Kept (store c x f next)
  unfolding store
  store-Kept f next p k = ground (arith)

  final_status-finished :
      (f : RepairQueueEntry) (success : Bool) → finished_status (final_status c x f success) ≡ true
  unfolding final_status
  final_status-finished f success = ground arith

  finish-Kept :
      (f : RepairQueueEntry) (success : Bool)
      → Course c e f
      → has_finished f ≡ false
      → Kept (finish c x f success)
  unfolding finish
  finish-Kept f success p h =
      store-Kept _ _ (further p (close h _ (final_status-finished f success))) tt

  back_off-Kept :
      (f : RepairQueueEntry)
      → Course c e f
      → has_finished f ≡ false
      → f.step_status ≡ draining
      → Kept (repair_drain_back_off c x f)
  unfolding repair_drain_back_off
  back_off-Kept f p h d = store-Kept _ _ (further p (give_up h d)) tt

  drain-Kept :
      (f : RepairQueueEntry)
      → Course c e (draining_entry c x f)
      → Kept (drain c x (draining_entry c x f))
  unfolding drain
  drain-Kept f p = ground (arith, back_off-Kept (draining_entry c x f) p refl refl)

  start_drain-Kept :
      (f : RepairQueueEntry) → Course c e (draining_entry c x f) → Kept (start_drain c x f)
  unfolding start_drain
  start_drain-Kept f p =
      ground (arith, back_off-Kept (draining_entry c x f) p refl refl, drain-Kept f p)

  execute-Kept :
      (f : RepairQueueEntry) (step : RepairStep)
      → Course c e (watching_entry c x f)
      → Kept (execute c x f step)
  unfolding execute
  execute-Kept f step p =
      store-Kept _ _ p (ground (arith, finish-Kept (watching_entry c x f) false p refl))

  -- Whatever the outside answers, the command of an operation stores only entries that the life of
  -- the entry leads to.
  pub run-Course : (op : RepairOp) → Starts c e op → All (Course c e) (run c x op).written
  unfolding run
  run-Course (repair_dequeue f) p = ground arith
  run-Course (repair_finish f success) (p, h) = finish-Kept f success p h
  run-Course (repair_execute f step) (p, h, found, drained) =
      execute-Kept f step (further p (perform h found drained))
  run-Course (repair_drain_start f) (p, h, w, (step, found, needs)) =
      start_drain-Kept f (further p (start h w found needs))
  run-Course (repair_drain_timeout f) (p, h, d) = back_off-Kept f p h d
