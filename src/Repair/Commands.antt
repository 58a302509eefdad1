-- ===== src/Repair/Commands.antt =====
-- The commands of op/repair_dequeue.go, op/repair_drain_start.go, op/repair_drain_timeout.go,
-- op/repair_execute.go and op/repair_finish.go, each with the function that it runs. What they ask of the outside is a record of answers.
mod Samples
pub mod Stored
pub mod Attempts
pub mod Rounds
use cke.Prelude.{
  ℕ, zero, suc, ◌+◌, ◌*◌, ◌%◌, String, Bool, true, false, not, ◌&&◌, List, [], ◌∷◌, ◌++◌, Option,
  none, some, or_default, ◌==◌, if◌then◌else◌,
}
use cke.Cluster.{
  Cluster, RepairStep, RepairOperation, Time, second, default_repair_command_timeout_seconds,
  default_repair_success_command_timeout_seconds,
}
use cke.Reboot.BackOff.{drain_back_off_base_seconds, int64_mod, add_duration}
use cke.Repair.{
  RepairStatus, processing, succeeded, failed, waiting, draining, watching, RepairQueueEntry, ok,
  err, get_matching_repair_operation,
}
use cke.Repair.Ops.{
  RepairOp, repair_dequeue, repair_finish, repair_execute, repair_drain_start, repair_drain_timeout,
}

-- The answers of the storage, the Kubernetes API, the programs that are run, the clock and the
-- random numbers, in one run of a command.
pub record Answers : Type 0 where
  -- Whether UpdateRepairsEntry stores the entry.
  pub stores : RepairQueueEntry → Bool
  pub deletes : RepairQueueEntry → Bool
  pub kube_client : Bool
  pub protected_namespaces : Bool
  pub eviction_dry_run : Bool
  pub cordons : Bool
  pub evicts : Bool
  -- Whether a program with that timeout and those arguments succeeds at that attempt.
  pub runs : ℕ → List String → ℕ → Bool
  -- Whether the context ends in the pause after that attempt.
  pub interrupted : ℕ → Bool
  -- rand.Int63n
  pub random : ℕ → ℕ
  -- The time when the command first asks for it, and when it ends, cut to whole seconds.
  pub now : Time
  pub later : Time

-- What a run leaves: the entries that it stored in their order, whether the entry was deleted, and
-- whether the run returned an error.
pub record Ran : Type 0 where
  pub written : List RepairQueueEntry
  pub deleted : Bool
  pub error : Bool

abbrev pub done : Ran
done = record { written = []; deleted = false; error = false }

abbrev pub given_up : Ran
given_up = record { written = []; deleted = false; error = true }

abbrev waits : Option ℕ → Bool
waits none = false
waits (some seconds) = not (seconds == 0)

module _ (c : Cluster) (x : Answers) where
  -- UpdateRepairsEntry, and what follows it.
  store : RepairQueueEntry → Ran → Ran
  store e next = if x.stores e then record next { written = e ∷ next.written } else given_up

  abbrev success_of : RepairQueueEntry → RepairOperation → Option (List String) → Bool
  success_of entry op none = true
  success_of entry op (some command) =
      x.runs (or_default op.success_command_timeout default_repair_success_command_timeout_seconds)
        (command ++ entry.address ∷ []) 0

  success_command_passes : RepairQueueEntry → Bool
  success_command_passes entry = elim (get_matching_repair_operation c entry) [
    | ok op ↦ success_of entry op op.success_command
    | err _ ↦ false
  ]

  final_status : RepairQueueEntry → Bool → RepairStatus
  unfolding success_command_passes
  final_status entry success =
      if success then if success_command_passes entry then succeeded else failed else failed

  -- repairFinish
  finish : RepairQueueEntry → Bool → Ran
  unfolding store final_status
  finish entry success =
      store (record entry { status = final_status entry success; last_transition_time = x.later })
        done

  abbrev pub back_off_seconds : ℕ → ℕ
  back_off_seconds count =
      (drain_back_off_base_seconds + x.random (drain_back_off_base_seconds * count)) % int64_mod

  back_off_entry : RepairQueueEntry → RepairQueueEntry
  unfolding add_duration
  back_off_entry entry = record entry {
    status = processing;
    step_status = waiting;
    last_transition_time = x.later;
    drain_backoff_count = entry.drain_backoff_count + 1;
    drain_backoff_expire =
        add_duration x.later
          (back_off_seconds (entry.drain_backoff_count + 1) * second % int64_mod);
  }

  -- repairDrainBackOff
  repair_drain_back_off : RepairQueueEntry → Ran
  unfolding store back_off_entry
  repair_drain_back_off entry = store (back_off_entry entry) done

  abbrev pub draining_entry : RepairQueueEntry → RepairQueueEntry
  draining_entry entry = record entry {
    status = processing;
    step_status = draining;
    last_transition_time = x.now;
  }

  abbrev pub watching_entry : RepairQueueEntry → RepairQueueEntry
  watching_entry entry = record entry {
    status = processing;
    step_status = watching;
    last_transition_time = x.now;
  }

  -- What follows the store of the draining entry. A refused store is given to the back-off too.
  drain : RepairQueueEntry → Ran
  unfolding repair_drain_back_off
  drain entry =
      if x.eviction_dry_run && (x.cordons && x.evicts) then done else repair_drain_back_off entry

  start_drain : RepairQueueEntry → Ran
  unfolding drain
  start_drain entry =
      if not (x.kube_client && x.protected_namespaces)
      then given_up
      else if x.stores (draining_entry entry)
      then record (drain (draining_entry entry)) {
        written = draining_entry entry ∷ (drain (draining_entry entry)).written;
      }
      else repair_drain_back_off (draining_entry entry)

  -- The attempts from the i-th on.
  run_attempts : ℕ → List String → Option ℕ → ℕ → ℕ → Bool
  run_attempts timeout command interval zero i = false
  run_attempts timeout command interval (suc n) i =
      let rest = run_attempts timeout command interval n (i + 1) in
      if x.runs timeout command i
      then true
      else if waits interval && x.interrupted i
      then false
      else rest

  executes : RepairQueueEntry → RepairStep → Bool
  unfolding run_attempts
  executes entry step =
      run_attempts (or_default step.command_timeout_seconds default_repair_command_timeout_seconds)
        (step.repair_command ++ entry.address ∷ []) step.command_interval
        (or_default step.command_retries 0 + 1) 0

  execute : RepairQueueEntry → RepairStep → Ran
  unfolding executes finish
  execute entry step =
      store (watching_entry entry)
        (if executes entry step then done else finish (watching_entry entry) false)

  dequeue : RepairQueueEntry → Ran
  dequeue entry = if x.deletes entry then record done { deleted = true } else given_up

  -- The one command of an operation, run.
  unfoldable pub run : RepairOp → Ran
  unfolding execute start_drain dequeue
  run (repair_dequeue entry) = dequeue entry
  run (repair_finish entry success) = finish entry success
  run (repair_execute entry step) = execute entry step
  run (repair_drain_start entry) = start_drain entry
  run (repair_drain_timeout entry) = repair_drain_back_off entry
