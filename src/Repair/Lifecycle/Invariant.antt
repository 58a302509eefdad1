-- ===== src/Repair/Lifecycle/Invariant.antt =====
-- What holds of every entry that its life leads to.
use cke.Prelude.{ℕ, zero, suc, ◌<◌, ◌≤◌, ◌≡◌, true, ◌&&◌, List, [], ◌∷◌, arith, length, get_elem?}
use cke.Cluster.{Cluster, RepairStep, RepairOperation}
use cke.Repair.{
  queued, waiting, draining, RepairQueueEntry, ok, is_in_cluster, get_matching_repair_operation,
  get_current_repair_step, step_at,
}
use cke.Repair.Lifecycle.{Move, advance, start, give_up, perform, close, Course, here, further}

steps_left :
    (steps : List RepairStep) (i : ℕ) {step : RepairStep}
    → step_at (get_elem? steps i) ≡ ok step
    → i < length steps
unfolding step_at
steps_left [] i h = ground arith
steps_left (s ∷ steps) zero h = omega arith
steps_left (s ∷ steps) (suc i) h = omega (arith, steps_left steps i h)

module _ (c : Cluster) where
  -- A queued entry has not begun. A draining one is of a node of the cluster, and its current step
  -- wants the drain. The current step is one of the operation, or all of them are over.
  pub record IsWellFormed (e : RepairQueueEntry) : Type 0 where
    pub fresh :
        e.status ≡ queued → (e.step ≡ 0) × (e.step_status ≡ waiting) × (e.drain_backoff_count ≡ 0)
    pub drains :
        e.step_status ≡ draining
        → (step : RepairStep) × (get_current_repair_step c e ≡ ok step)
          × ((step.need_drain && is_in_cluster e) ≡ true)
    pub bounded :
        (op : RepairOperation)
        → get_matching_repair_operation c e ≡ ok op
        → e.step ≤ length op.repair_steps

  current_bounded :
      (e : RepairQueueEntry) {step : RepairStep} (op : RepairOperation)
      → get_current_repair_step c e ≡ ok step
      → get_matching_repair_operation c e ≡ ok op
      → e.step < length op.repair_steps
  unfolding get_current_repair_step
  current_bounded e {step} op found matched =
      steps_left op.repair_steps e.step {step = step} (rw matched at found)

  Move-IsWellFormed : (e f : RepairQueueEntry) → Move c e f → IsWellFormed e → IsWellFormed f
  unfolding get_current_repair_step get_matching_repair_operation
  Move-IsWellFormed e f (advance h w found) p = record {
    fresh = λ q. ground (arith, p.fresh);
    drains = λ d. ground arith;
    bounded = λ op matched. let left = current_bounded e op found matched in omega arith;
  }
  Move-IsWellFormed e f (start {step = step} h w found needs) p = record {
    fresh = λ q. ground arith;
    drains = λ d. (step, found, needs);
    bounded = p.bounded;
  }
  Move-IsWellFormed e f (give_up h d) p = record {
    fresh = λ q. ground arith;
    drains = λ k. ground arith;
    bounded = p.bounded;
  }
  Move-IsWellFormed e f (perform h found d) p = record {
    fresh = λ q. ground arith;
    drains = λ k. ground arith;
    bounded = p.bounded;
  }
  Move-IsWellFormed e f (close h s final) p = record {
    fresh = λ q. ground arith;
    drains = p.drains;
    bounded = p.bounded;
  }

  pub Course-IsWellFormed :
      {e f : RepairQueueEntry} → Course c e f → IsWellFormed e → IsWellFormed f
  Course-IsWellFormed here p = p
  Course-IsWellFormed (further path move) p =
      Move-IsWellFormed _ _ move (Course-IsWellFormed path p)
