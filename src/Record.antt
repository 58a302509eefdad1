-- ===== src/Record.antt =====
-- record.go: the records of operations.
use cke.Prelude.{ℕ, String, List}
use cke.Cluster.{Time}

pub data RecordStatus : Type 0 where
  new running cancelled completed : RecordStatus

-- Command of the operators: what is shown of a command.
pub record CommandInfo : Type 0 where
  pub name : String
  pub target : String

pub record Record : Type 0 where
  pub id : ℕ
  pub status : RecordStatus
  pub operation : String
  pub command : CommandInfo
  pub targets : List String
  pub info : String
  pub error : String
  pub start_at : Time
  pub end_at : Time

-- NewRecord, with the zero values of Go in the other fields.
abbrev pub new_record : ℕ → String → List String → Time → Record
new_record id op targets now = record {
  id = id;
  status = new;
  operation = op;
  command = record { name = ""; target = "" };
  targets = targets;
  info = "";
  error = "";
  start_at = now;
  end_at = 0;
}

abbrev pub cancel : Time → Record → Record
cancel now r = record r { status = cancelled; end_at = now }

abbrev pub complete : Time → Record → Record
complete now r = record r { status = completed; end_at = now }

abbrev pub set_command : CommandInfo → Record → Record
set_command c r = record r { status = running; command = c }

abbrev pub set_info : String → Record → Record
set_info i r = record r { info = i }

abbrev pub set_error : Time → String → Record → Record
set_error now e r = record r { status = cancelled; error = e; end_at = now }
