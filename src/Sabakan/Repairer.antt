-- ===== src/Sabakan/Repairer.antt =====
-- sabakan/repairer.go: the repairs that the states of the machines ask for.
pub mod Requests
mod Samples
use cke.Prelude.{
  ℕ, ◌+◌, String, Bool, true, false, not, ◌&&◌, List, [], ◌∷◌, any, ltb, length, str_eq,
  if◌then◌else◌,
}
use cke.Cluster.{Constraints}
use cke.Reboot.{RebootQueueEntry, rebooting, status_eq}
use cke.Repair.{RepairQueueEntry, new_repair_queue_entry}
use cke.Sabakan.{
  State, uninitialized, healthy, unhealthy, unreachable, updating, retiring, retired, Machine,
}

-- strings.ToLower of the text of a state.
abbrev pub lower_state : State → String
lower_state uninitialized = "uninitialized"
lower_state healthy = "healthy"
lower_state unhealthy = "unhealthy"
lower_state unreachable = "unreachable"
lower_state updating = "updating"
lower_state retiring = "retiring"
lower_state retired = "retired"

abbrev pub is_unreachable : State → Bool
is_unreachable unreachable = true
is_unreachable _ = false

-- The last argument of `repairer` tells whether there is a status of the node of an address.
module _ (repair_entries : List RepairQueueEntry) (reboot_entries : List RebootQueueEntry)
    (has_status : String → Bool) (constraints : Constraints) where
  abbrev pub recent : String → Bool
  recent address = any (λ (e : RepairQueueEntry). str_eq e.address address) repair_entries

  abbrev pub is_rebooting : String → Bool
  is_rebooting address =
      any (λ (e : RebootQueueEntry). status_eq e.status rebooting && str_eq e.node address)
        reboot_entries

  abbrev pub just_unreachable : Machine → Bool
  just_unreachable m =
      is_unreachable m.state && m.duration_below constraints.repair_rebooting_seconds

  -- One turn of the loop, for the first address of the machine.
  accepted_at : Machine → String → Bool
  accepted_at m address =
      if recent address
      then false
      else if just_unreachable m
      then if is_rebooting address then false else has_status address
      else true

  accepted : Machine → List String → Bool
  unfolding accepted_at
  accepted m [] = false
  accepted m (address ∷ rest) = accepted_at m address

  new_machines : List Machine → List Machine
  unfolding accepted
  new_machines [] = []
  new_machines (m ∷ ms) = let rest = new_machines ms in if accepted m m.ipv4 then m ∷ rest else rest

  abbrev first_address : List String → String
  first_address [] = ""
  first_address (address ∷ rest) = address

  pub request : Machine → RepairQueueEntry
  unfolding new_repair_queue_entry
  request m =
      new_repair_queue_entry (lower_state m.state) m.bmc_type (first_address m.ipv4) m.serial

  requests : List Machine → List RepairQueueEntry
  unfolding request
  requests [] = []
  requests (m ∷ ms) = request m ∷ requests ms

  unfoldable pub repairer : List Machine → List RepairQueueEntry
  unfolding new_machines requests
  repairer machines =
      if ltb constraints.maximum_repairs (length repair_entries + length (new_machines machines))
      then []
      else requests (new_machines machines)
