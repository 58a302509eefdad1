-- ===== src/Repair/Ops/Samples.antt =====
-- A small cluster with a repair queue, and what is decided about it.
use cke.Prelude.{
  ℕ, ◌≤◌, String, ◌≡◌, refl, true, false, List, [], ◌∷◌, none, some, All, count_if, arith,
}
use cke.Cluster.{Node, Cluster, RepairStep}
use cke.Samples.{host, no_repair, plain}
use cke.Repair.{
  RepairStatus, queued, processing, RepairStepStatus, waiting, watching, RepairQueueEntry,
  get_current_repair_step,
}
use cke.Repair.Ops.{
  repair_dequeue, repair_execute, repair_drain_start, RepairQueueStatus, no_entries, sort_entries,
  run_step, run_entries, is_api_server, rebooting_api_servers, repair_ops,
}
use cke.Repair.Ops.Sorting.{sort_entries_lem}
use cke.Repair.Ops.Steps.{IsJustified, repair_ops-IsJustified}
use cke.Repair.Ops.Limits.{is_work, is_api_work, RebootRule, repair_ops-le, repair_ops-RebootRule}
use cke.Repair.Ops.Twice.{repair_ops-repeats}

abbrev control_planes : List Node
control_planes = host "10.0.0.1" true ∷ host "10.0.0.2" true ∷ []

abbrev power_cycle : RepairStep
power_cycle = record {
  repair_command = "power" ∷ "restart" ∷ [];
  command_timeout_seconds = none;
  command_retries = none;
  command_interval = none;
  need_drain = true;
  watch_seconds = some 60;
}

abbrev cluster : Cluster
cluster = record (plain control_planes) {
  repair = record no_repair {
    repair_procedures =
        record {
          machine_types = "IPMI" ∷ "iDRAC" ∷ [];
          repair_operations =
              record {
                operation = "unreachable";
                repair_steps = power_cycle ∷ record power_cycle { need_drain = false } ∷ [];
                health_check_command = "check" ∷ [];
                success_command = none;
                success_command_timeout = none;
              }
              ∷ [];
        }
        ∷ [];
    max_concurrent_repairs = some 2;
  };
}

abbrev entry : ℕ → String → String → RepairStatus → RepairStepStatus → RepairQueueEntry
entry index address nodename status step_status = record {
  index = index;
  address = address;
  nodename = nodename;
  serial = "";
  machine_type = "IPMI";
  operation = "unreachable";
  status = status;
  step = 0;
  step_status = step_status;
  deleted = false;
  last_transition_time = 0;
  drain_backoff_count = 0;
  drain_backoff_expire = 0;
}

abbrev status_of : List RepairQueueEntry → RepairQueueStatus
status_of entries = record {
  enabled = true;
  entries = entries;
  repair_completed = λ _. false;
  drain_completed = λ _. false;
}

abbrev queue : List RepairQueueEntry
queue =
    entry 0 "10.0.0.1" "10.0.0.1" queued waiting
    ∷ entry 1 "10.0.0.2" "10.0.0.2" queued waiting
    ∷ record (entry 2 "10.0.0.7" "" queued waiting) { deleted = true }
    ∷ entry 3 "10.0.0.8" "10.0.0.8" processing watching
    ∷ []

abbrev now : ℕ
now = 61_000_000_000

-- Everything that a run of `repair_ops` computes with.
program : Unit {0}
unfolding repair_ops run_entries run_step is_api_server rebooting_api_servers sort_entries
    get_current_repair_step
program = tt

-- The entry that has watched its first step long enough executes the second, which needs no drain;
-- one API server starts to drain.
queue_ops : repair_ops cluster (status_of queue) control_planes (λ _. false) now ≡ (
  repair_dequeue (record (entry 2 "10.0.0.7" "" queued waiting) { deleted = true })
      ∷ repair_execute
          (record (entry 3 "10.0.0.8" "10.0.0.8" processing waiting) { step = 1 })
          (record power_cycle { need_drain = false })
      ∷ repair_drain_start (entry 0 "10.0.0.1" "10.0.0.1" queued waiting)
      ∷ [],
  true,
)
unfolding program
queue_ops = refl

sort_entries_example :
    sort_entries (is_api_server control_planes) (λ _. false) now queue no_entries ≡ record {
      ops = repair_dequeue (record (entry 2 "10.0.0.7" "" queued waiting) { deleted = true }) ∷ [];
      processing_api = [];
      processing_other = entry 3 "10.0.0.8" "10.0.0.8" processing watching ∷ [];
      queued_api =
          entry 0 "10.0.0.1" "10.0.0.1" queued waiting
          ∷ entry 1 "10.0.0.2" "10.0.0.2" queued waiting
          ∷ [];
      queued_other = [];
    }
unfolding program
sort_entries_example = sort_entries_lem (is_api_server control_planes) (λ _. false) now queue

repair_ops-IsJustified_example :
    All
      (IsJustified cluster (status_of queue) now)
      (repair_ops cluster (status_of queue) control_planes (λ _. false) now).0
repair_ops-IsJustified_example =
    repair_ops-IsJustified cluster (status_of queue) control_planes (λ _. false) now

repair_ops-le_example :
    let ops = (repair_ops cluster (status_of queue) control_planes (λ _. false) now).0 in
    (count_if is_work ops ≤ 2) × (count_if (is_api_work (is_api_server control_planes)) ops ≤ 1)
repair_ops-le_example = repair_ops-le cluster (status_of queue) control_planes (λ _. false) now

repair_ops-RebootRule_example :
    All
      (RebootRule control_planes (λ _. false))
      (repair_ops cluster (status_of queue) control_planes (λ _. false) now).0
repair_ops-RebootRule_example =
    repair_ops-RebootRule cluster (status_of queue) control_planes (λ _. false) now

abbrev first_worker : RepairQueueEntry
first_worker = entry 4 "10.0.0.9" "" queued waiting

abbrev second_worker : RepairQueueEntry
second_worker = entry 5 "10.0.0.9" "" queued waiting

repair_ops-repeats_example :
    repair_ops cluster
      (status_of (first_worker ∷ second_worker ∷ []))
      control_planes
      (λ _. false)
      now
    ≡ (
      repair_execute first_worker power_cycle ∷ repair_execute second_worker power_cycle ∷ [],
      true,
    )
unfolding program
repair_ops-repeats_example =
    repair_ops-repeats cluster (status_of (first_worker ∷ second_worker ∷ [])) control_planes
      (λ _. false) now first_worker second_worker power_cycle power_cycle refl refl
      (record {
        in_queue = refl;
        waits = refl;
        kept = refl;
        unhealthy = refl;
        other = refl;
        found = refl;
        no_drain = refl;
      })
      (record {
        in_queue = refl;
        waits = refl;
        kept = refl;
        unhealthy = refl;
        other = refl;
        found = refl;
        no_drain = refl;
      })
      refl (omega arith)
