-- ===== src/Reboot/Decide/Samples.antt =====
-- Small clusters and reboot queues, and what is decided about them.
use cke.Prelude.{
  ℕ, ◌≤◌, String, ◌≡◌, refl, Bool, true, false, List, [], ◌∷◌, none, some, count_if, str_eq,
}
use cke.Cluster.{Cluster}
use cke.Samples.{host, no_reboot, plain}
use cke.Reboot.{
  RebootStatus, queued, draining, RebootQueueEntry, cluster_member, dedup_reboot_queue_entries,
}
use cke.Reboot.Dedup.{first_entry, dedup_reboot_queue_entries_lem}
use cke.Reboot.Decide.{choose_reboot_candidates, check_drain_completion}

abbrev cluster : Cluster
cluster =
    record (plain (host "10.0.0.1" true ∷ host "10.0.0.2" false ∷ host "10.0.0.3" false ∷ [])) {
      reboot = record no_reboot {
        reboot_command = "reboot" ∷ [];
        boot_check_command = "check" ∷ [];
        max_concurrent_reboots = some 2;
      };
    }

abbrev apis : String → Bool
apis address = str_eq address "10.0.0.1"

abbrev entry : ℕ → String → RebootStatus → RebootQueueEntry
entry index node status = record {
  index = index;
  node = node;
  status = status;
  last_transition_time = 0;
  drain_backoff_count = 0;
  drain_backoff_expire = 0;
}

abbrev queue : List RebootQueueEntry
queue =
    entry 0 "10.0.0.1" queued
    ∷ entry 1 "10.0.0.2" draining
    ∷ entry 2 "10.0.0.3" queued
    ∷ entry 3 "10.0.0.3" queued
    ∷ entry 4 "10.0.0.9" queued
    ∷ []

abbrev now : ℕ
now = 601_000_000_000

choose_worker : choose_reboot_candidates cluster apis now queue ≡ entry 2 "10.0.0.3" queued ∷ []
unfolding choose_reboot_candidates cluster_member
choose_worker = refl

choose_api :
    choose_reboot_candidates cluster apis now (entry 0 "10.0.0.1" queued ∷ [])
    ≡ entry 0 "10.0.0.1" queued ∷ []
unfolding choose_reboot_candidates cluster_member
choose_api = refl

dedup_reboot_queue_entries_example :
    (first_entry "10.0.0.3" (dedup_reboot_queue_entries queue) ≡ first_entry "10.0.0.3" queue)
    × (count_if (λ e. str_eq e.node "10.0.0.3") (dedup_reboot_queue_entries queue) ≤ 1)
dedup_reboot_queue_entries_example = dedup_reboot_queue_entries_lem "10.0.0.3" queue

drained :
    check_drain_completion (λ _. true) (λ _. some false) cluster now queue
    ≡ some (entry 1 "10.0.0.2" draining ∷ [], [])
unfolding check_drain_completion cluster_member
drained = refl

late :
    check_drain_completion (λ _. false) (λ _. none) cluster now queue
    ≡ some ([], entry 1 "10.0.0.2" draining ∷ [])
unfolding check_drain_completion cluster_member
late = refl
