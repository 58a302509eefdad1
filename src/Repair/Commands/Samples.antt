-- ===== src/Repair/Commands/Samples.antt =====
-- A repair command that fails once, and a drain that is given up.
use cke.Prelude.{
  ◌+◌, ◌*◌, ◌<◌, ◌≤◌, ◌≡◌, refl, true, false, [], ◌∷◌, none, some, Memᴰ, arith, ◌==◌, any,
  if◌then◌else◌,
}
use cke.Cluster.{Cluster, RepairStep, second}
use cke.Samples.{host, no_repair, plain}
use cke.Repair.{
  RepairStatus, queued, processing, RepairStepStatus, waiting, draining, RepairQueueEntry,
  get_current_repair_step,
}
use cke.Repair.Ops.{
  RepairQueueStatus, repair_execute, repair_drain_timeout, repair_ops, run_entries, run_step,
  sort_entries, is_api_server, rebooting_api_servers,
}
use cke.Repair.Lifecycle.Invariant.{IsWellFormed}
use cke.Repair.Commands.{Answers, run, watching_entry}
use cke.Repair.Commands.Attempts.{
  attempt, failed_entry, repair_execute_lem, repair_drain_timeout_lem,
}
use cke.Repair.Commands.Rounds.{IsFollowed, repair_ops-run}

abbrev power_cycle : RepairStep
power_cycle = record {
  repair_command = "power" ∷ "restart" ∷ [];
  command_timeout_seconds = none;
  command_retries = some 2;
  command_interval = none;
  need_drain = false;
  watch_seconds = some 60;
}

abbrev cluster : Cluster
cluster = record (plain (host "10.0.0.1" true ∷ [])) {
  repair = record no_repair {
    repair_procedures =
        record {
          machine_types = "IPMI" ∷ [];
          repair_operations =
              record {
                operation = "unreachable";
                repair_steps = power_cycle ∷ [];
                health_check_command = "check" ∷ [];
                success_command = none;
                success_command_timeout = none;
              }
              ∷ [];
        }
        ∷ [];
  };
}

abbrev entry : RepairStatus → RepairStepStatus → RepairQueueEntry
entry status step_status = record {
  index = 3;
  address = "10.0.0.9";
  nodename = "";
  serial = "";
  machine_type = "IPMI";
  operation = "unreachable";
  status = status;
  step = 0;
  step_status = step_status;
  deleted = false;
  last_transition_time = 0;
  drain_backoff_count = 0;
  drain_backoff_expire = 0;
}

-- The second attempt succeeds.
abbrev answers : Answers
answers = record {
  stores = λ _. true;
  deletes = λ _. true;
  kube_client = true;
  protected_namespaces = true;
  eviction_dry_run = true;
  cordons = true;
  evicts = true;
  runs = λ _ _ i. i == 1;
  interrupted = λ _. false;
  random = λ n. 7;
  now = 61_000_000_000;
  later = 62_000_000_000;
}

repair_execute_example :
    (run cluster answers (repair_execute (entry queued waiting) power_cycle)).written
    ≡ watching_entry cluster answers (entry queued waiting)
      ∷ (if any (attempt cluster answers (entry queued waiting) power_cycle) (0 ∷ 1 ∷ 2 ∷ [])
          then []
          else failed_entry cluster answers (entry queued waiting) ∷ [])
repair_execute_example =
    repair_execute_lem cluster answers (entry queued waiting) power_cycle (λ _. refl) (λ _. refl)

execute_run :
    (run cluster answers (repair_execute (entry queued waiting) power_cycle)).written
    ≡ watching_entry cluster answers (entry queued waiting) ∷ []
unfolding run
execute_run = refl

repair_drain_timeout_example :
    (w : RepairQueueEntry) × ((run cluster answers
        (repair_drain_timeout (entry processing draining))).written
      ≡ w ∷ [])
    × (w.drain_backoff_count ≡ 1)
    × (answers.later + 300 * second ≤ w.drain_backoff_expire)
    × (w.drain_backoff_expire < answers.later + 600 * second)
repair_drain_timeout_example =
    repair_drain_timeout_lem cluster answers (entry processing draining) (λ _. refl) (omega arith)
      (omega arith)

abbrev queue : RepairQueueStatus
queue = record {
  enabled = true;
  entries = entry queued waiting ∷ [];
  repair_completed = λ _. false;
  drain_completed = λ _. false;
}

fresh_entry : IsWellFormed cluster (entry queued waiting)
fresh_entry = record {
  fresh = λ _. (refl, refl, refl);
  drains = λ d. ground arith;
  bounded = λ op m. omega arith;
}

-- What a round computes with.
program : Unit {0}
unfolding repair_ops run_entries run_step is_api_server rebooting_api_servers sort_entries
    get_current_repair_step run
program = tt

repair_ops-run_example :
    IsFollowed cluster queue (watching_entry cluster answers (entry queued waiting))
unfolding program
repair_ops-run_example =
    repair_ops-run cluster queue cluster.nodes (λ _. false) 61_000_000_000 answers
      (repair_execute (entry queued waiting) power_cycle)
      (watching_entry cluster answers (entry queued waiting)) (fresh_entry, tt) (Memᴰ.head refl)
      (Memᴰ.head refl)
