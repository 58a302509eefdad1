-- ===== src/Repair/Lifecycle.antt =====
-- The life of an entry of the repair queue, as a relation.
pub mod Invariant
use cke.Prelude.{◌⊎◌, ℕ, ◌+◌, ◌≡◌, Bool, true, false, ◌&&◌}
use cke.Cluster.{Cluster, RepairStep, Time}
use cke.Repair.{
  RepairStatus, processing, waiting, draining, watching, RepairQueueEntry, ok, has_finished,
  finished_status, is_in_cluster, get_current_repair_step,
}
use cke.Repair.Ops.{
  RepairOp, repair_dequeue, repair_finish, repair_execute, repair_drain_start, repair_drain_timeout,
}

abbrev pub advanced : RepairQueueEntry → RepairQueueEntry
advanced e = record e { step = e.step + 1; step_status = waiting }

-- A change of an entry. The step that is drained for or executed is the current one.
pub data Move (c : Cluster) : RepairQueueEntry → RepairQueueEntry → Type 0 where
  advance :
      {e : RepairQueueEntry} {step : RepairStep}
      → has_finished e ≡ false
      → e.step_status ≡ watching
      → get_current_repair_step c e ≡ ok step
      → Move c e (advanced e)
  start :
      {e : RepairQueueEntry} {step : RepairStep} {t : Time}
      → has_finished e ≡ false
      → e.step_status ≡ waiting
      → get_current_repair_step c e ≡ ok step
      → (step.need_drain && is_in_cluster e) ≡ true
      → Move c e
          (record e { status = processing; step_status = draining; last_transition_time = t })
  give_up :
      {e : RepairQueueEntry} {t expire : Time}
      → has_finished e ≡ false
      → e.step_status ≡ draining
      → Move c e (record e {
        status = processing;
        step_status = waiting;
        last_transition_time = t;
        drain_backoff_count = e.drain_backoff_count + 1;
        drain_backoff_expire = expire;
      })
  perform :
      {e : RepairQueueEntry} {step : RepairStep} {t : Time}
      → has_finished e ≡ false
      → get_current_repair_step c e ≡ ok step
      → ((step.need_drain && is_in_cluster e) ≡ false) ⊎ (e.step_status ≡ draining)
      → Move c e
          (record e { status = processing; step_status = watching; last_transition_time = t })
  close :
      {e : RepairQueueEntry} {t : Time}
      → has_finished e ≡ false
      → (s : RepairStatus) → finished_status s ≡ true
      → Move c e (record e { status = s; last_transition_time = t })

-- Several changes.
pub data Course (c : Cluster) : RepairQueueEntry → RepairQueueEntry → Type 0 where
  here : {e : RepairQueueEntry} → Course c e e
  further : {e f g : RepairQueueEntry} → Course c e f → Move c f g → Course c e g

module _ (c : Cluster) (e : RepairQueueEntry) where
  -- An operation is decided about an entry, as it is then in memory, for which its command stands.
  abbrev pub Starts : RepairOp → Type 0
  Starts (repair_dequeue f) = Course c e f
  Starts (repair_finish f success) = Course c e f × (has_finished f ≡ false)
  Starts (repair_execute f step) =
      Course c e f
      × (has_finished f ≡ false)
      × (get_current_repair_step c f ≡ ok step)
      × (((step.need_drain && is_in_cluster f) ≡ false) ⊎ (f.step_status ≡ draining))
  Starts (repair_drain_start f) =
      Course c e f
      × (has_finished f ≡ false)
      × (f.step_status ≡ waiting)
      × ((step : RepairStep) × (get_current_repair_step c f ≡ ok step)
          × ((step.need_drain && is_in_cluster f) ≡ true))
  Starts (repair_drain_timeout f) =
      Course c e f × (has_finished f ≡ false) × (f.step_status ≡ draining)
