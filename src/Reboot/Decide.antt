-- ===== src/Reboot/Decide.antt =====
-- op/reboot_decide.go, and GetRebootQueueStatus of op/status.go: what the reboot queue allows next.
-- The Kubernetes API and the boot check command are arguments: whether a node has no Pod left,
-- whether its volumes are in use (`none` if the API call fails), and whether a reboot completed.
mod Samples
pub mod Choose
pub mod Drain
pub mod Queue
use cke.Prelude.{
  map, str_eq, ℕ, ◌+◌, ◌*◌, String, Bool, true, false, not, ◌&&◌, List, [], ◌∷◌, ◌++◌, Option, none,
  some, ltb, ◌==◌, length, take, keep_if, or_default, if◌then◌else◌,
}
use cke.Cluster.{
  Cluster, Time, second, default_max_concurrent_reboots, default_reboot_eviction_timeout_seconds,
}
use cke.Reboot.{
  dedup_reboot_queue_entries, RebootStatus, queued, draining, rebooting, cancelled,
  RebootQueueEntry, status_eq, cluster_member,
}

-- The variables of the loop of ChooseRebootCandidates.
pub record Scan : Type 0 where
  pub api_server_in_progress : Bool
  pub api_server_drainable : Option RebootQueueEntry
  pub worker_in_progress : List RebootQueueEntry
  pub worker_drainable : List RebootQueueEntry

module _ (api_servers : String → Bool) where
  in_progress_entry : RebootQueueEntry → Scan → Scan
  in_progress_entry entry s =
      if api_servers entry.node
      then record s { api_server_in_progress = true }
      else record s { worker_in_progress = s.worker_in_progress ++ entry ∷ [] }

  first_of_two : Option RebootQueueEntry → RebootQueueEntry → Option RebootQueueEntry
  first_of_two none entry = some entry
  first_of_two (some e) entry = some e

  queued_entry : Time → RebootQueueEntry → Scan → Scan
  unfolding first_of_two
  queued_entry now entry s =
      if ltb now entry.drain_backoff_expire
      then s
      else if api_servers entry.node
      then record s { api_server_drainable = first_of_two s.api_server_drainable entry }
      else record s { worker_drainable = s.worker_drainable ++ entry ∷ [] }

  -- The `switch` on the status.
  by_status : RebootStatus → Time → RebootQueueEntry → Scan → Scan
  unfolding in_progress_entry queued_entry
  by_status draining now entry s = in_progress_entry entry s
  by_status rebooting now entry s = in_progress_entry entry s
  by_status queued now entry s = queued_entry now entry s
  by_status cancelled now entry s = s

  scan_entry : Cluster → Time → RebootQueueEntry → Scan → Scan
  unfolding by_status
  scan_entry c now entry s =
      if not (cluster_member c entry) then s else by_status entry.status now entry s

  scan : Cluster → Time → List RebootQueueEntry → Scan → Scan
  unfolding scan_entry
  scan c now [] s = s
  scan c now (entry ∷ entries) s = scan c now entries (scan_entry c now entry s)

abbrev pub empty_scan : Scan
empty_scan = record {
  api_server_in_progress = false;
  api_server_drainable = none;
  worker_in_progress = [];
  worker_drainable = [];
}

abbrev pub max_concurrent_reboots : Cluster → ℕ
max_concurrent_reboots c = or_default c.reboot.max_concurrent_reboots default_max_concurrent_reboots

abbrev only : Option RebootQueueEntry → List RebootQueueEntry
only none = []
only (some e) = e ∷ []

-- The rules behind the loop: an API server last, alone, and one at a time.
pick : ℕ → Scan → List RebootQueueEntry
pick most s =
    if s.api_server_in_progress
    then []
    else if length s.worker_in_progress == 0 && length s.worker_drainable == 0
    then only s.api_server_drainable
    else if ltb (length s.worker_in_progress) most && ltb 0 (length s.worker_drainable)
    then take 1 s.worker_drainable
    else []

unfoldable pub choose_reboot_candidates :
    Cluster → (String → Bool) → Time → List RebootQueueEntry → List RebootQueueEntry
unfolding scan pick
choose_reboot_candidates c api_servers now entries =
    pick (max_concurrent_reboots c) (scan api_servers c now entries empty_scan)

abbrev pub reboot_eviction_timeout_seconds : Cluster → ℕ
reboot_eviction_timeout_seconds c =
    or_default c.reboot.eviction_timeout_seconds default_reboot_eviction_timeout_seconds

-- Completed and timed out entries.
abbrev pub Drained : Type 0
Drained = List RebootQueueEntry × List RebootQueueEntry

module _ (pods_deleted : String → Bool) (volumes_in_use : String → Option Bool) where
  -- `none` is an error of the volume check.
  drain_completed : RebootQueueEntry → Option Bool
  drain_completed entry =
      if pods_deleted entry.node
      then elim (volumes_in_use entry.node) [ none ↦ none | some used ↦ some (not used) ]
      else some false

  add_result : Cluster → Time → RebootQueueEntry → Bool → Drained → Drained
  add_result c now entry true (completed, timedout) = (entry ∷ completed, timedout)
  add_result c now entry false (completed, timedout) = (
    completed,
    if ltb (entry.last_transition_time + reboot_eviction_timeout_seconds c * second) now
        then entry ∷ timedout
        else timedout,
  )

  -- The loop of CheckDrainCompletion. The first error ends it, with no result.
  unfoldable pub check_drain_completion : Cluster → Time → List RebootQueueEntry → Option Drained
  unfolding drain_completed add_result
  check_drain_completion c now [] = some ([], [])
  check_drain_completion c now (entry ∷ entries) =
      let rest = check_drain_completion c now entries in
      if not (cluster_member c entry)
      then rest
      else if not (status_eq entry.status draining)
      then rest
      else elim (drain_completed entry) [
        | none ↦ none
        | some done ↦ elim rest [
          | none ↦ none
          | some lists ↦ some (add_result c now entry done lists)
        ]
      ]

module _ (reboot_completed : RebootQueueEntry → Bool) where
  abbrev pub is_dequeued : Cluster → RebootQueueEntry → Bool
  is_dequeued c entry =
      if not (cluster_member c entry)
      then true
      else status_eq entry.status rebooting && reboot_completed entry

  unfoldable pub check_reboot_dequeue : Cluster → List RebootQueueEntry → List RebootQueueEntry
  check_reboot_dequeue c entries = keep_if (is_dequeued c) entries

unfoldable pub check_reboot_cancelled : List RebootQueueEntry → List RebootQueueEntry
check_reboot_cancelled entries = keep_if (λ e. status_eq e.status cancelled) entries

pub record RebootQueueStatus : Type 0 where
  pub enabled : Bool
  pub entries : List RebootQueueEntry
  pub next_candidates : List RebootQueueEntry
  pub drain_completed : List RebootQueueEntry
  pub drain_timedout : List RebootQueueEntry
  pub reboot_dequeued : List RebootQueueEntry
  pub reboot_cancelled : List RebootQueueEntry

-- rebootProcessing of server/strategy.go: the first entry of the node decides.
unfoldable pub in_process : RebootStatus → Bool
in_process draining = true
in_process rebooting = true
in_process _ = false

unfoldable pub find_processing : String → List RebootQueueEntry → Bool
unfolding in_process
find_processing node [] = false
find_processing node (entry ∷ entries) =
    let rest = find_processing node entries in
    if not (str_eq entry.node node) then rest else in_process entry.status

unfoldable pub reboot_processing : RebootQueueStatus → String → Bool
unfolding find_processing
reboot_processing status node =
    if not status.enabled then false else find_processing node status.entries

-- rebootNextCandidates of server/strategy.go.
unfoldable pub reboot_next_candidates : RebootQueueStatus → List String
reboot_next_candidates status =
    if not status.enabled then [] else map (λ e. e.node) status.next_candidates

-- GetRebootQueueStatus, after its reads of the storage; `none` is an error.
unfoldable pub get_reboot_queue_status :
    Cluster
    → (String → Bool)
    → (String → Bool)
    → (String → Option Bool)
    → (RebootQueueEntry → Bool)
    → Time
    → Bool
    → List RebootQueueEntry
    → Option RebootQueueStatus
get_reboot_queue_status c api_servers pods_deleted volumes_in_use reboot_completed now disabled
      stored =
    let entries = dedup_reboot_queue_entries stored in
    elim (check_drain_completion pods_deleted volumes_in_use c now entries) [
      | none ↦ none
      | some (completed, timedout) ↦ some (record {
        enabled = not disabled;
        entries = entries;
        next_candidates = choose_reboot_candidates c api_servers now entries;
        drain_completed = completed;
        drain_timedout = timedout;
        reboot_dequeued = check_reboot_dequeue reboot_completed c entries;
        reboot_cancelled = check_reboot_cancelled entries;
      })
    ]
