-- ===== src/Server/Control/Samples.antt =====
-- A run of an operation whose second command fails, and the theorem at this run.
use cke.Prelude.{ℕ, ◌≡◌, refl, ◌⊎◌, String, true, [], ◌∷◌, none, some, str_eq, if◌then◌else◌}
use cke.Record.{RecordStatus, new, running, cancelled, completed, Record, new_record}
use cke.Etcd.{put, World, fails, command_failed, arrive, get, list, txn}
use cke.Etcd.Memory.{memory, memory-IsLawful, empty_memory, written}
use cke.Etcd.Memory.Table.{lookup, set}
use cke.Storage.{Codec, write_by_leader}
use cke.Storage.Numbers.{digit, decimal, format_int, scalar, parse_int, read_digits}
use cke.Storage.Keys.{hex, hex_digit, entry_key}
use cke.Storage.Records.{
  maint_records, delete_oldest, delete_records, next_record_id, register_record, update_record,
  get_records,
}
use cke.Server.Control.{
  OperatorRun, succeeds, breaks, has_ended, run_commands, run_op, cancel_last, check_last_op,
}
use cke.Server.Control.Records.{
  Left, IsOver, IsLeftBehind, final_record, final_outcome, run_op-Left, check_last_op-Left,
}

abbrev upgrade : OperatorRun
upgrade = record {
  name = "upgrade";
  targets = "10.0.0.1" ∷ [];
  commands =
      (record { name = "pull"; target = "10.0.0.1" }, succeeds)
      ∷ (record { name = "restart"; target = "10.0.0.1" }, breaks "exit status 1")
      ∷ [];
  info = none;
}

-- Texts that keep the status of the record only.
abbrev status_text : RecordStatus → String
status_text new = "new"
status_text running = "running"
status_text cancelled = "cancelled"
status_text completed = "completed"

abbrev left_running : Record
left_running = record (new_record 1 "upgrade" ("10.0.0.1" ∷ []) 5) { status = running }

abbrev codec : Codec Record
codec = record {
  marshal = λ r. some (status_text r.status);
  unmarshal = λ t. if str_eq t "running" then some left_running else none;
}

abbrev led : World memory
led = record { state = written empty_memory (put "leader/1" "host" ∷ []); script = [] }

run_op-Left_example :
    (id : ℕ) × (fails command_failed ≡ final_outcome upgrade.commands)
    × (let r =
          final_record 7 upgrade.info
            (new_record id upgrade.name upgrade.targets 5)
            upgrade.commands in
        Left memory codec "leader/1" r (run_op memory codec "leader/1" 5 7 upgrade led).1.state
        × (has_ended r.status ≡ true))
unfolding run_op run_commands update_record next_record_id get parse_int read_digits register_record
    maint_records delete_oldest delete_records write_by_leader list txn arrive lookup written set
    entry_key hex hex_digit scalar format_int decimal digit
run_op-Left_example =
    run_op-Left memory codec "leader/1" memory-IsLawful 5 7 upgrade led
      (run_op memory codec "leader/1" 5 7 upgrade led).1 (fails command_failed) refl refl

-- A record that was left running is cancelled when the next leader begins.
abbrev orphaned : World memory
orphaned = record {
  state = written led.state (put "records/0000000000000001" "running" ∷ []);
  script = [];
}

orphan_cancelled :
    memory.get (check_last_op memory codec "leader/1" 9 orphaned).1.state "records/0000000000000001"
    ≡ some (record { value = "cancelled"; mod_revision = 4 })
unfolding check_last_op cancel_last get_records update_record write_by_leader list txn arrive lookup
    written set entry_key hex hex_digit scalar
orphan_cancelled = refl

check_last_op-Left_example :
    (IsOver memory codec "leader/1" running
      × ((check_last_op memory codec "leader/1" 9 orphaned).1 ≡ orphaned))
    ⊎ (IsLeftBehind memory codec "leader/1" running
        × Left memory codec "leader/1"
            (record left_running { status = cancelled; end_at = 9 })
            (check_last_op memory codec "leader/1" 9 orphaned).1.state)
unfolding check_last_op cancel_last get_records update_record write_by_leader list txn arrive lookup
    written set entry_key hex hex_digit scalar
check_last_op-Left_example =
    check_last_op-Left memory codec "leader/1" memory-IsLawful 9 left_running [] orphaned orphaned
      (check_last_op memory codec "leader/1" 9 orphaned).1 refl refl
