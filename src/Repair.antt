-- ===== src/Repair.antt =====
-- repair.go: the entries of the repair queue and the search for their repair steps.
-- A status is one of its constants; the initial Go value of a string field is the empty text.
pub mod Ops
pub mod Commands
pub mod Lifecycle
use cke.Prelude.{
  ◌≡◌, refl, ◌⊎◌, inl, inr, ℕ, String, Bool, true, false, not, ◌||◌, List, [], ◌∷◌, Option, none,
  some, ltb, get_elem?, any, str_eq, if◌then◌else◌, count_if,
}
use cke.Cluster.{Node, Cluster, RepairStep, RepairOperation, RepairProcedure, Time, nodename}

pub data RepairStatus : Type 0 where
  queued processing succeeded failed : RepairStatus

pub data RepairStepStatus : Type 0 where
  waiting draining watching : RepairStepStatus

pub record RepairQueueEntry : Type 0 where
  pub index : ℕ
  pub address : String
  pub nodename : String
  pub serial : String
  pub machine_type : String
  pub operation : String
  pub status : RepairStatus
  pub step : ℕ
  pub step_status : RepairStepStatus
  pub deleted : Bool
  pub last_transition_time : Time
  pub drain_backoff_count : ℕ
  pub drain_backoff_expire : Time

pub data RepairError : Type 0 where
  procedure_not_found operation_not_found step_out_of_range : RepairError

pub data Result (A : Type 0) : Type 0 where
  ok : A → Result A
  err : RepairError → Result A

pub Result-cases :
    {A : Type 0} (r : Result A) → ((a : A) × (r ≡ ok a)) ⊎ ((e : RepairError) × (r ≡ err e))
Result-cases (ok a) = inl (a, refl)
Result-cases (err e) = inr (e, refl)

infixl 5 ◌>>=◌
abbrev pub ◌>>=◌ : {A B : Type 0} → Result A → (A → Result B) → Result B
ok a >>= f = f a
err e >>= f = err e

unfoldable pub new_repair_queue_entry : String → String → String → String → RepairQueueEntry
new_repair_queue_entry operation machine_type address serial = record {
  index = 0;
  address = address;
  nodename = "";
  serial = serial;
  machine_type = machine_type;
  operation = operation;
  status = queued;
  step = 0;
  step_status = waiting;
  deleted = false;
  last_transition_time = 0;
  drain_backoff_count = 0;
  drain_backoff_expire = 0;
}

-- The loop of FillNodename: the name of the first node of the address, or the empty text.
name_of_address : String → List Node → String
name_of_address address [] = ""
name_of_address address (n ∷ ns) =
    if str_eq n.address address then nodename n else name_of_address address ns

unfoldable pub fill_nodename : Cluster → RepairQueueEntry → RepairQueueEntry
unfolding name_of_address
fill_nodename c entry = record entry { nodename = name_of_address entry.address c.nodes }

abbrev pub is_in_cluster : RepairQueueEntry → Bool
is_in_cluster entry = not (str_eq entry.nodename "")

abbrev pub finished_status : RepairStatus → Bool
finished_status succeeded = true
finished_status failed = true
finished_status _ = false

abbrev pub has_finished : RepairQueueEntry → Bool
has_finished entry = finished_status entry.status

find_procedure : String → List RepairProcedure → Result RepairProcedure
find_procedure machine_type [] = err procedure_not_found
find_procedure machine_type (proc ∷ procs) =
    if any (str_eq machine_type) proc.machine_types
    then ok proc
    else find_procedure machine_type procs

unfoldable pub get_matching_repair_procedure : Cluster → RepairQueueEntry → Result RepairProcedure
unfolding find_procedure
get_matching_repair_procedure c entry = find_procedure entry.machine_type c.repair.repair_procedures

find_operation : String → List RepairOperation → Result RepairOperation
find_operation operation [] = err operation_not_found
find_operation operation (op ∷ ops) =
    if str_eq op.operation operation then ok op else find_operation operation ops

unfoldable pub get_matching_repair_operation : Cluster → RepairQueueEntry → Result RepairOperation
unfolding find_operation get_matching_repair_procedure
get_matching_repair_operation c entry = do
  proc ← get_matching_repair_procedure c entry
  find_operation entry.operation proc.repair_operations

-- `entry.Step >= len(op.RepairSteps)` is the case that the list has no such element.
step_at : Option RepairStep → Result RepairStep
step_at none = err step_out_of_range
step_at (some step) = ok step

unfoldable pub get_current_repair_step : Cluster → RepairQueueEntry → Result RepairStep
unfolding step_at get_matching_repair_operation
get_current_repair_step c entry = do
  op ← get_matching_repair_operation c entry
  step_at (get_elem? op.repair_steps entry.step)

abbrev pub status_eq : RepairStatus → RepairStatus → Bool
status_eq queued queued = true
status_eq processing processing = true
status_eq succeeded succeeded = true
status_eq failed failed = true
status_eq _ _ = false

-- CountRepairQueueEntries: the map has a key for each of the four statuses.
unfoldable pub count_repair_queue_entries : List RepairQueueEntry → RepairStatus → ℕ
count_repair_queue_entries entries status = count_if (λ e. status_eq e.status status) entries
