-- ===== src/Repair/Ops.antt =====
-- repairOps of server/strategy.go: which repairs go on, and with what operation.
pub mod Sorting
pub mod Steps
pub mod Decided
pub mod Limits
mod Samples
pub mod Twice
pub mod Names
use cke.Prelude.{
  ◌+◌, ◌*◌, ◌||◌, leb, ◌==◌, length, any, or_default, str_eq, if◌then◌else◌, not, ◌&&◌, ltb, ℕ,
  String, Bool, true, false, List, [], ◌∷◌, ◌++◌, Option, none, some,
}
use cke.Cluster.{
  Node, nodename, default_max_concurrent_repairs, Cluster, RepairStep, Time, second,
  default_repair_eviction_timeout_seconds,
}
use cke.Repair.{
  RepairStatus, queued, processing, RepairStepStatus, waiting, draining, watching, RepairQueueEntry,
  RepairError, step_out_of_range, ok, err, is_in_cluster, has_finished, get_current_repair_step,
}

-- The operations that repairOps returns, with the entry as it then is. The cluster, which each
-- of them also takes, is the same for all and left out.
pub data RepairOp : Type 0 where
  repair_dequeue : RepairQueueEntry → RepairOp
  repair_finish : RepairQueueEntry → Bool → RepairOp
  repair_execute : RepairQueueEntry → RepairStep → RepairOp
  repair_drain_start : RepairQueueEntry → RepairOp
  repair_drain_timeout : RepairQueueEntry → RepairOp

-- RepairQueueStatus. The two maps are read by address, a missing key as false.
pub record RepairQueueStatus : Type 0 where
  pub enabled : Bool
  pub entries : List RepairQueueEntry
  pub repair_completed : String → Bool
  pub drain_completed : String → Bool

-- The variables of the first loop.
pub record Sorted : Type 0 where
  pub ops : List RepairOp
  pub processing_api : List RepairQueueEntry
  pub processing_other : List RepairQueueEntry
  pub queued_api : List RepairQueueEntry
  pub queued_other : List RepairQueueEntry

abbrev pub no_entries : Sorted
no_entries = record {
  ops = [];
  processing_api = [];
  processing_other = [];
  queued_api = [];
  queued_other = [];
}

abbrev is_waiting : RepairStepStatus → Bool
is_waiting waiting = true
is_waiting _ = false

module _ (api_servers : String → Bool) where
  queue_entry : RepairQueueEntry → Sorted → Sorted
  queue_entry entry s =
      if api_servers entry.address
      then record s { queued_api = s.queued_api ++ entry ∷ [] }
      else record s { queued_other = s.queued_other ++ entry ∷ [] }

  process_entry : Time → RepairQueueEntry → Sorted → Sorted
  process_entry now entry s =
      if is_waiting entry.step_status && ltb now entry.drain_backoff_expire
      then s
      else if api_servers entry.address
      then record s { processing_api = s.processing_api ++ entry ∷ [] }
      else record s { processing_other = s.processing_other ++ entry ∷ [] }

  sort_by_status : RepairStatus → Time → RepairQueueEntry → Sorted → Sorted
  unfolding queue_entry process_entry
  sort_by_status queued now entry s = queue_entry entry s
  sort_by_status processing now entry s = process_entry now entry s
  sort_by_status _ now entry s = s

  sort_entry : (String → Bool) → Time → RepairQueueEntry → Sorted → Sorted
  unfolding sort_by_status
  sort_entry repair_completed now entry s =
      if entry.deleted
      then record s { ops = s.ops ++ repair_dequeue entry ∷ [] }
      else if has_finished entry
      then s
      else if repair_completed entry.address
      then record s { ops = s.ops ++ repair_finish entry true ∷ [] }
      else sort_by_status entry.status now entry s

  unfoldable pub sort_entries : (String → Bool) → Time → List RepairQueueEntry → Sorted → Sorted
  unfolding sort_entry
  sort_entries repair_completed now [] s = s
  sort_entries repair_completed now (entry ∷ entries) s =
      sort_entries repair_completed now entries (sort_entry repair_completed now entry s)

abbrev pub sorted_entries : Sorted → List RepairQueueEntry
sorted_entries s = s.processing_api ++ (s.processing_other ++ (s.queued_api ++ s.queued_other))

-- What one entry adds: its operation, if any, and whether the phase is repair.
pub record StepResult : Type 0 where
  pub op : Option RepairOp
  pub phase_repair : Bool

abbrev no_op : StepResult
no_op = record { op = none; phase_repair = true }

abbrev one_op : RepairOp → StepResult
one_op op = record { op = some op; phase_repair = true }

abbrev pub repair_eviction_timeout_seconds : Cluster → ℕ
repair_eviction_timeout_seconds c =
    or_default c.repair.eviction_timeout_seconds default_repair_eviction_timeout_seconds

module _ (c : Cluster) (rqs : RepairQueueStatus) (now : Time) where
  step_waiting : RepairQueueEntry → RepairStep → StepResult
  step_waiting entry step =
      if not rqs.enabled
      then no_op
      else if not (step.need_drain && is_in_cluster entry)
      then one_op (repair_execute entry step)
      else one_op (repair_drain_start entry)

  step_draining : RepairQueueEntry → RepairStep → StepResult
  step_draining entry step =
      if not rqs.enabled
      then one_op (repair_drain_timeout entry)
      else if rqs.drain_completed entry.address
      then one_op (repair_execute entry step)
      else if ltb (entry.last_transition_time + repair_eviction_timeout_seconds c * second) now
      then one_op (repair_drain_timeout entry)
      else no_op

  -- The failures of GetCurrentRepairStep, before the `switch`.
  step_failed : RepairQueueEntry → RepairError → StepResult
  step_failed entry step_out_of_range = record {
    op = some (repair_finish entry false);
    phase_repair = false;
  }
  step_failed entry _ = record { op = none; phase_repair = false }

  -- RUN_STEP for an entry that is waiting, as it is after `goto RUN_STEP`.
  run_waiting : RepairQueueEntry → StepResult
  unfolding step_waiting step_failed
  run_waiting entry = elim (get_current_repair_step c entry) [
    | ok step ↦ step_waiting entry step
    | err e ↦ step_failed entry e
  ]

  abbrev watch_over : RepairQueueEntry → Option ℕ → Bool
  watch_over entry none = true
  watch_over entry (some seconds) = ltb (entry.last_transition_time + seconds * second) now

  abbrev pub next_step : RepairQueueEntry → RepairQueueEntry
  next_step entry = record entry { step = entry.step + 1; step_status = waiting }

  -- The phase is repair already when the second round of RUN_STEP begins.
  step_watching : RepairQueueEntry → RepairStep → StepResult
  unfolding run_waiting
  step_watching entry step =
      if watch_over entry step.watch_seconds
      then record { op = (run_waiting (next_step entry)).op; phase_repair = true }
      else no_op

  by_step_status : RepairStepStatus → RepairQueueEntry → RepairStep → StepResult
  unfolding step_waiting step_draining step_watching
  by_step_status waiting entry step = step_waiting entry step
  by_step_status draining entry step = step_draining entry step
  by_step_status watching entry step = step_watching entry step

  unfoldable pub run_step : RepairQueueEntry → StepResult
  unfolding by_step_status step_failed
  run_step entry = elim (get_current_repair_step c entry) [
    | ok step ↦ by_step_status entry.step_status entry step
    | err e ↦ step_failed entry e
  ]

-- The map `processed`: the loop reads it and never writes it.
abbrev pub processed : String → Bool
processed address = false

abbrev pub max_concurrent_api_server_repairs : ℕ
max_concurrent_api_server_repairs = 1

abbrev pub max_concurrent_repairs : Cluster → ℕ
max_concurrent_repairs c = or_default c.repair.max_concurrent_repairs default_max_concurrent_repairs

abbrev pub to_list : Option RepairOp → List RepairOp
to_list none = []
to_list (some op) = op ∷ []

-- The second loop. `rebooting` holds the addresses of the API servers that are being rebooted.
module _ (c : Cluster) (rqs : RepairQueueStatus) (now : Time) (api_servers : String → Bool)
    (rebooting : List String) where
  abbrev pub api_blocked : RepairQueueEntry → ℕ → Bool
  api_blocked entry api_count =
      leb max_concurrent_api_server_repairs api_count
      || (leb 2 (length rebooting)
          || (length rebooting == 1 && not (any (str_eq entry.address) rebooting)))

  add_result : StepResult → List RepairOp × Bool → List RepairOp × Bool
  add_result r (ops, phase) = (to_list r.op ++ ops, r.phase_repair || phase)

  -- `api_count` and `count` are concurrentApiServerRepairs and concurrentRepairs.
  unfoldable pub run_entries : List RepairQueueEntry → ℕ → ℕ → List RepairOp × Bool
  unfolding add_result
  run_entries [] api_count count = ([], false)
  run_entries (entry ∷ entries) api_count count =
      let skip = run_entries entries api_count count in
      let run_api =
        add_result (run_step c rqs now entry) (run_entries entries (api_count + 1) (count + 1)) in
      let run_other =
        add_result (run_step c rqs now entry) (run_entries entries api_count (count + 1)) in
      if leb (max_concurrent_repairs c) count
      then ([], false)
      else if processed entry.address
      then skip
      else if api_servers entry.address
      then if api_blocked entry api_count then skip else run_api
      else run_other

unfoldable pub is_api_server : List Node → String → Bool
is_api_server control_planes address = any (λ n. str_eq n.address address) control_planes

-- The keys of rebootingApiServers, each once. `is_rebooting` is rebootProcessing, by node name.
unfoldable pub rebooting_api_servers : (String → Bool) → List Node → List String
rebooting_api_servers is_rebooting [] = []
rebooting_api_servers is_rebooting (cp ∷ cps) =
    let rest = rebooting_api_servers is_rebooting cps in
    if is_rebooting (nodename cp) && not (any (str_eq cp.address) rest)
    then cp.address ∷ rest
    else rest

unfoldable pub repair_ops :
    Cluster → RepairQueueStatus → List Node → (String → Bool) → Time → List RepairOp × Bool
repair_ops c rqs control_planes is_rebooting now =
    let api_servers = is_api_server control_planes in
    let sorted = sort_entries api_servers rqs.repair_completed now rqs.entries no_entries in
    let (ops, phase) =
      run_entries c rqs now api_servers (rebooting_api_servers is_rebooting control_planes)
        (sorted_entries sorted) 0 0 in
    (sorted.ops ++ ops, phase || ltb 0 (length (sorted.ops ++ ops)))
