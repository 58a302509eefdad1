-- ===== src/Repair/Ops/Twice.antt =====
-- Two entries of one machine.
use cke.Prelude.{◌≤◌, String, ◌≡◌, Bool, true, false, ◌&&◌, List, [], ◌∷◌, arith, some}
use cke.Cluster.{Node, Cluster, RepairStep, Time}
use cke.Repair.{RepairQueueEntry, queued, waiting, ok, is_in_cluster, get_current_repair_step}
use cke.Repair.Ops.{
  repair_execute, RepairQueueStatus, repair_ops, is_api_server, rebooting_api_servers,
  max_concurrent_repairs, run_step, Sorted, no_entries, run_entries, sort_entries,
}

module _ (c : Cluster) (rqs : RepairQueueStatus) (control_planes : List Node) where
  -- A queued entry of a machine that is no API server, whose current step needs no drain.
  pub record IsReady (e : RepairQueueEntry) (step : RepairStep) : Type 0 where
    pub in_queue : e.status ≡ queued
    pub waits : e.step_status ≡ waiting
    pub kept : e.deleted ≡ false
    pub unhealthy : rqs.repair_completed e.address ≡ false
    pub other : is_api_server control_planes e.address ≡ false
    pub found : get_current_repair_step c e ≡ ok step
    pub no_drain : (step.need_drain && is_in_cluster e) ≡ false

  run_step-IsReady :
      (now : Time) {e : RepairQueueEntry} {step : RepairStep}
      → IsReady e step
      → rqs.enabled ≡ true
      → run_step c rqs now e ≡ record { op = some (repair_execute e step); phase_repair = true }
  unfolding run_step
  run_step-IsReady now ready enabled = rw (ready.found, run_step) (ground arith)

  abbrev two : RepairQueueEntry → RepairQueueEntry → Sorted
  two e f = record no_entries { queued_other = e ∷ f ∷ [] }

  module _ (now : Time) {e f : RepairQueueEntry} {s t : RepairStep} (re : IsReady e s)
      (rf : IsReady f t) where
    sort_two :
        sort_entries (is_api_server control_planes) rqs.repair_completed now (e ∷ f ∷ []) no_entries
        ≡ two e f
    unfolding sort_entries
    sort_two = ground arith

    run_two :
        (rebooting : List String)
        → rqs.enabled ≡ true
        → 2 ≤ max_concurrent_repairs c
        → run_entries c rqs now (is_api_server control_planes) rebooting (e ∷ f ∷ []) 0 0
          ≡ (repair_execute e s ∷ repair_execute f t ∷ [], true)
    unfolding run_entries
    run_two rebooting enabled room =
        ground (arith, run_step-IsReady now re enabled, run_step-IsReady now rf enabled)

-- Where the queue is enabled, two concurrent repairs are allowed, and the queue has exactly two
-- entries, both of one machine that is no API server and unhealthy, both queued, waiting and not
-- being deleted, with a current step that needs no drain: both are executed in one round.
pub repair_ops-repeats :
    (c : Cluster) (rqs : RepairQueueStatus) (control_planes : List Node)
    (is_rebooting : String → Bool) (now : Time) (e f : RepairQueueEntry) (s t : RepairStep)
    → rqs.entries ≡ e ∷ f ∷ []
    → f.address ≡ e.address
    → IsReady c rqs control_planes e s
    → IsReady c rqs control_planes f t
    → rqs.enabled ≡ true
    → 2 ≤ max_concurrent_repairs c
    → repair_ops c rqs control_planes is_rebooting now
      ≡ (repair_execute e s ∷ repair_execute f t ∷ [], true)
unfolding repair_ops
repair_ops-repeats c rqs control_planes is_rebooting now e f s t entries same re rf enabled room =
    simp (
      entries,
      sort_two c rqs control_planes now re rf,
      run_two c rqs control_planes now re rf (rebooting_api_servers is_rebooting control_planes)
          enabled room,
    )
