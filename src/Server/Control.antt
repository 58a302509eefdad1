-- ===== src/Server/Control.antt =====
-- runOp and checkLastOp of server/control.go: the records that a run of an operation leaves.
pub mod Calls
pub mod Records
mod Samples
use cke.Prelude.{ℕ, String, Bool, true, false, List, [], ◌∷◌, Option, none, some, if◌then◌else◌}
use cke.Cluster.{Time}
use cke.Record.{
  RecordStatus, new, running, cancelled, completed, CommandInfo, Record, new_record, cancel,
  complete, set_command, set_info, set_error,
}
use cke.Etcd.{Etcd, Call, command_failed, pure, fail, ◌>>=◌, ◌>>◌}
use cke.Storage.{Codec}
use cke.Storage.Records.{next_record_id, register_record, update_record, get_records}

-- What becomes of a command: the context ends before it, or it runs, with an error or without.
pub data CommandRun : Type 0 where
  interrupted succeeds : CommandRun
  breaks : String → CommandRun

-- The commands that NextCommand returns, in their order.
pub record OperatorRun : Type 0 where
  pub name : String
  pub targets : List String
  pub commands : List (CommandInfo × CommandRun)
  -- The Info of an InfoOperator.
  pub info : Option String

abbrev pub with_info : Option String → Record → Record
with_info none r = r
with_info (some i) r = set_info i r

-- The statuses of a record whose operation has ended.
abbrev pub has_ended : RecordStatus → Bool
has_ended cancelled = true
has_ended completed = true
has_ended _ = false

module _ (E : Etcd) (codec : Codec Record) (leader_key : String) (started ended : Time) where
  -- The loop over the commands, and what follows it.
  unfoldable pub run_commands :
      Option String → Record → List (CommandInfo × CommandRun) → Call E Unit
  run_commands info r [] = update_record E codec leader_key (complete ended (with_info info r))
  run_commands info r ((c, interrupted) ∷ _) = update_record E codec leader_key (cancel ended r)
  run_commands info r ((c, succeeds) ∷ cs) = do
    update_record E codec leader_key (set_command c r)
    run_commands info (set_command c r) cs
  run_commands info r ((c, breaks e) ∷ _) = do
    update_record E codec leader_key (set_command c r)
    update_record E codec leader_key (set_error ended e (set_command c r))
    fail E command_failed

  unfoldable pub run_op : OperatorRun → Call E Unit
  unfolding run_commands
  run_op o = do
    id ← next_record_id E codec
    register_record E codec leader_key (new_record id o.name o.targets started)
    run_commands o.info (new_record id o.name o.targets started) o.commands

module _ (E : Etcd) (codec : Codec Record) (leader_key : String) (ended : Time) where
  unfoldable pub cancel_last : List Record → Call E Unit
  cancel_last [] = pure E tt
  cancel_last (r ∷ _) =
      if has_ended r.status then pure E tt else update_record E codec leader_key (cancel ended r)

  unfoldable pub check_last_op : Call E Unit
  unfolding cancel_last
  check_last_op = do records ← get_records E codec 1; cancel_last records
