-- ===== src/Repair/Ops/Steps.antt =====
-- Why repairOps does what it does: the grounds of each operation.
use cke.Prelude.{
  ℕ, ◌+◌, ◌*◌, ◌<◌, String, ◌≡◌, refl, ◌⊎◌, inl, inr, Bool, true, false, ◌&&◌, List, [], ◌∷◌, ◌++◌,
  Option, none, some, All, All-append, arith,
}
use cke.Cluster.{Node, Cluster, RepairStep, Time, second}
use cke.Repair.{
  Result-cases, RepairQueueEntry, RepairStepStatus, waiting, draining, watching, RepairError,
  step_out_of_range, ok, err, is_in_cluster, get_current_repair_step,
}
use cke.Repair.Ops.Sorting.{closing, sort_entries-ops}
use cke.Repair.Ops.{
  to_list, is_api_server, rebooting_api_servers, sort_entries, sorted_entries, no_entries, RepairOp,
  repair_dequeue, repair_finish, repair_execute, repair_drain_start, repair_drain_timeout,
  RepairQueueStatus, StepResult, repair_eviction_timeout_seconds, run_waiting, step_watching,
  step_draining, step_waiting, step_failed, run_step, next_step, run_entries, repair_ops,
  by_step_status,
}

-- The address of the machine that an operation is about.
abbrev pub target : RepairOp → String
target (repair_dequeue e) = e.address
target (repair_finish e _) = e.address
target (repair_execute e _) = e.address
target (repair_drain_start e) = e.address
target (repair_drain_timeout e) = e.address

module _ (c : Cluster) (rqs : RepairQueueStatus) (now : Time) where
  abbrev pub IsJustified : RepairOp → Type 0
  IsJustified (repair_dequeue e) = e.deleted ≡ true
  IsJustified (repair_finish e true) = (e.deleted ≡ false) × (rqs.repair_completed e.address ≡ true)
  IsJustified (repair_finish e false) = get_current_repair_step c e ≡ err step_out_of_range
  IsJustified (repair_execute e step) =
      (rqs.enabled ≡ true)
      × (get_current_repair_step c e ≡ ok step)
      × (((step.need_drain && is_in_cluster e) ≡ false) ⊎ (rqs.drain_completed e.address ≡ true))
  IsJustified (repair_drain_start e) =
      (rqs.enabled ≡ true)
      × ((step : RepairStep) × (get_current_repair_step c e ≡ ok step)
          × (step.need_drain ≡ true)
          × (is_in_cluster e ≡ true))
  IsJustified (repair_drain_timeout e) =
      (e.step_status ≡ draining)
      × ((rqs.enabled ≡ false)
          ⊎ (e.last_transition_time + repair_eviction_timeout_seconds c * second < now))

  -- An operation of the second loop is justified and is about the machine of its entry.
  abbrev pub OpFor : String → Option RepairOp → Type 0
  OpFor address none = Unit
  OpFor address (some op) = IsJustified op × (target op ≡ address)

  abbrev For : RepairQueueEntry → StepResult → Type 0
  For e r = OpFor e.address r.op

  step_waiting-For :
      (e : RepairQueueEntry) (step : RepairStep)
      → get_current_repair_step c e ≡ ok step
      → For e (step_waiting c rqs now e step)
  unfolding step_waiting
  step_waiting-For e step found = ground arith

  step_failed-For :
      (e : RepairQueueEntry) (x : RepairError)
      → get_current_repair_step c e ≡ err x
      → For e (step_failed c rqs now e x)
  unfolding step_failed
  step_failed-For e step_out_of_range found = (found, refl)
  step_failed-For e _ found = tt

  step_draining-For :
      (e : RepairQueueEntry) (step : RepairStep)
      → get_current_repair_step c e ≡ ok step
      → e.step_status ≡ draining
      → For e (step_draining c rqs now e step)
  unfolding step_draining
  step_draining-For e step found drains = ground arith

  run_waiting-For : (e : RepairQueueEntry) → For e (run_waiting c rqs now e)
  unfolding run_waiting
  run_waiting-For e = elim (Result-cases (get_current_repair_step c e)) [
    | inl (step, found) ↦ rw (found, run_waiting) (step_waiting-For e step found)
    | inr (x, found) ↦ rw (found, run_waiting) (step_failed-For e x found)
  ]

  step_watching-For :
      (e : RepairQueueEntry) (step : RepairStep) → For e (step_watching c rqs now e step)
  unfolding step_watching
  step_watching-For e step = ground (arith, run_waiting-For (next_step c rqs now e))

  by_step_status-For :
      (e : RepairQueueEntry) (s : RepairStepStatus) (step : RepairStep)
      → get_current_repair_step c e ≡ ok step
      → e.step_status ≡ s
      → For e (by_step_status c rqs now s e step)
  unfolding by_step_status
  by_step_status-For e waiting step found at = step_waiting-For e step found
  by_step_status-For e draining step found at = step_draining-For e step found at
  by_step_status-For e watching step found at = step_watching-For e step

  pub run_step-For : (e : RepairQueueEntry) → For e (run_step c rqs now e)
  unfolding run_step
  run_step-For e = elim (Result-cases (get_current_repair_step c e)) [
    | inl (step, found) ↦ rw (found, run_step) (by_step_status-For e e.step_status step found refl)
    | inr (x, found) ↦ rw (found, run_step) (step_failed-For e x found)
  ]

  closing-IsJustified :
      (es : List RepairQueueEntry) → All IsJustified (closing rqs.repair_completed es)
  closing-IsJustified [] = tt
  closing-IsJustified (e ∷ es) = ground (arith, closing-IsJustified es)

  cons-IsJustified :
      (address : String) (op : Option RepairOp) (ops : List RepairOp)
      → OpFor address op
      → All IsJustified ops
      → All IsJustified (to_list op ++ ops)
  cons-IsJustified address none ops h hs = hs
  cons-IsJustified address (some op) ops h hs = (h.0, hs)

  run_entries-IsJustified :
      (api_servers : String → Bool) (rebooting : List String) (es : List RepairQueueEntry)
      (api_count count : ℕ)
      → All IsJustified (run_entries c rqs now api_servers rebooting es api_count count).0
  unfolding run_entries
  run_entries-IsJustified api_servers rebooting [] api_count count = tt
  run_entries-IsJustified api_servers rebooting (e ∷ es) api_count count =
      let go = run_entries c rqs now api_servers rebooting es in
      let this = run_step c rqs now e in
      ground (
        arith,
        run_entries-IsJustified api_servers rebooting es api_count count,
        cons-IsJustified e.address this.op (go (api_count + 1) (count + 1)).0 (run_step-For e)
            (run_entries-IsJustified api_servers rebooting es (api_count + 1) (count + 1)),
        cons-IsJustified e.address this.op (go api_count (count + 1)).0 (run_step-For e)
            (run_entries-IsJustified api_servers rebooting es api_count (count + 1)),
      )

-- Every operation that repairOps returns has its grounds. A dequeued entry is being deleted. An entry
-- is finished as a success if its machine is healthy, and as a failure if its steps are over.
-- A repair command is executed only while the queue is enabled, for the current step of the entry,
-- and, if the step needs a drain of a node of the cluster, after the drain has completed. A drain
-- starts only while the queue is enabled, and where the current step needs it. A drain is given up
-- only if it is going on, and the queue is disabled or the eviction timeout is over.
pub repair_ops-IsJustified :
    (c : Cluster) (rqs : RepairQueueStatus) (control_planes : List Node)
    (is_rebooting : String → Bool) (now : Time)
    → All (IsJustified c rqs now) (repair_ops c rqs control_planes is_rebooting now).0
unfolding repair_ops
repair_ops-IsJustified c rqs control_planes is_rebooting now =
    let api_servers = is_api_server control_planes in
    let rebooting = rebooting_api_servers is_rebooting control_planes in
    let sorted = sort_entries api_servers rqs.repair_completed now rqs.entries no_entries in
    All-append (IsJustified c rqs now) sorted.ops _
      (rw (sort_entries-ops api_servers rqs.repair_completed now rqs.entries no_entries)
        (closing-IsJustified c rqs now rqs.entries))
      (run_entries-IsJustified c rqs now api_servers rebooting (sorted_entries sorted) 0 0)
