-- ===== src/Reboot.antt =====
-- reboot.go: the entries of the reboot queue. A status is one of the four constants.
pub mod BackOff
pub mod Decide
pub mod Dedup
pub mod Commands
use cke.Prelude.{
  ℕ, String, Bool, true, false, not, List, [], ◌∷◌, any, count_if, keep_if, if◌then◌else◌, str_eq,
  Option, none, some, ◌&&◌, ◌||◌, map,
}
use cke.Cluster.{Node, Cluster, Time, nodename}

pub data RebootStatus : Type 0 where
  queued draining rebooting cancelled : RebootStatus

pub record RebootQueueEntry : Type 0 where
  pub index : ℕ
  pub node : String
  pub status : RebootStatus
  pub last_transition_time : Time
  pub drain_backoff_count : ℕ
  pub drain_backoff_expire : Time

abbrev pub reboot_statuses : List RebootStatus
reboot_statuses = queued ∷ draining ∷ rebooting ∷ cancelled ∷ []

-- The comparison of two statuses, which are strings in the source.
abbrev pub status_eq : RebootStatus → RebootStatus → Bool
status_eq queued queued = true
status_eq draining draining = true
status_eq rebooting rebooting = true
status_eq cancelled cancelled = true
status_eq _ _ = false

-- NewRebootQueueEntry, with the zero values of Go in the other fields.
unfoldable pub new_reboot_queue_entry : String → RebootQueueEntry
new_reboot_queue_entry node = record {
  index = 0;
  node = node;
  status = queued;
  last_transition_time = 0;
  drain_backoff_count = 0;
  drain_backoff_expire = 0;
}

unfoldable pub cluster_member : Cluster → RebootQueueEntry → Bool
cluster_member c entry = any (λ n. str_eq entry.node n.address) c.nodes

-- The loop of DedupRebootQueueEntries: `nodes` is the set of the nodes met so far.
unfoldable pub dedup_from : List String → List RebootQueueEntry → List RebootQueueEntry
dedup_from nodes [] = []
dedup_from nodes (entry ∷ entries) =
    let skipped = dedup_from nodes entries in
    let kept = entry ∷ dedup_from (entry.node ∷ nodes) entries in
    if any (str_eq entry.node) nodes then skipped else kept

unfoldable pub dedup_reboot_queue_entries : List RebootQueueEntry → List RebootQueueEntry
unfolding dedup_from
dedup_reboot_queue_entries entries = dedup_from [] entries

-- CountRebootQueueEntries: the map has a key for each of the four statuses.
unfoldable pub count_reboot_queue_entries : List RebootQueueEntry → RebootStatus → ℕ
count_reboot_queue_entries entries status = count_if (λ e. status_eq e.status status) entries
