-- ===== src/Sabakan/Repairer/Samples.antt =====
-- A machine that is unhealthy, one that has just become unreachable, and one in repair already.
use cke.Prelude.{ℕ, ◌+◌, ◌≤◌, ◌≡◌, ◌⊎◌, refl, String, false, List, [], ◌∷◌, All, length, ltb}
use cke.Cluster.{Constraints}
use cke.Repair.{RepairQueueEntry, new_repair_queue_entry}
use cke.Sabakan.{State, unhealthy, unreachable, Machine}
use cke.Sabakan.Repairer.{repairer}
use cke.Sabakan.Repairer.Requests.{IsRequest, repairer-IsRequest}

abbrev machine : String → State → ℕ → Machine
machine address state duration = record {
  serial = address;
  ipv4 = address ∷ [];
  bmc_type = "IPMI";
  state = state;
  duration_below = λ seconds. ltb duration seconds;
}

abbrev machines : List Machine
machines =
    machine "10.0.0.1" unhealthy 5
    ∷ machine "10.0.0.2" unreachable 5
    ∷ machine "10.0.0.3" unhealthy 5
    ∷ []

abbrev constraints : Constraints
constraints = record {
  control_plane_count = 3;
  minimum_workers_rate = 80;
  reboot_maximum_unreachable = 0;
  maximum_repairs = 2;
  repair_rebooting_seconds = 300;
}

abbrev listed : List RepairQueueEntry
listed = new_repair_queue_entry "unhealthy" "IPMI" "10.0.0.3" "" ∷ []

requested :
    repairer listed [] (λ _. false) constraints machines
    ≡ new_repair_queue_entry "unhealthy" "IPMI" "10.0.0.1" "10.0.0.1" ∷ []
unfolding repairer new_repair_queue_entry
requested = refl

repairer-IsRequest_example :
    ((repairer listed [] (λ _. false) constraints machines ≡ [])
      ⊎ (1 + length (repairer listed [] (λ _. false) constraints machines) ≤ 2))
    × All
        (IsRequest listed [] (λ _. false) constraints machines)
        (repairer listed [] (λ _. false) constraints machines)
repairer-IsRequest_example = repairer-IsRequest listed [] (λ _. false) constraints machines
