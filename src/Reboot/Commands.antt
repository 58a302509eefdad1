-- ===== src/Reboot/Commands.antt =====
-- The commands of op/reboot.go, but for the uncordoning. What they ask of the outside is a record of
-- answers; the goroutines that reboot nodes each store their own entry.
pub mod Stored
pub mod Drain
mod Samples
use cke.Prelude.{
  ℕ, zero, suc, ◌+◌, String, Bool, true, false, not, ◌&&◌, List, [], ◌∷◌, ◌++◌, map, keep_if,
  Option, none, some, or_default, ◌==◌, if◌then◌else◌,
}
use cke.Cluster.{RebootConfig, Time}
use cke.Reboot.{RebootQueueEntry, draining, rebooting}
use cke.Reboot.BackOff.{Outcome, storage_error, left_cancelled, update, drain_back_off}

-- The answers of the storage, the Kubernetes API, the programs that are run, the clock and the
-- random numbers, in one run of a command.
pub record Answers : Type 0 where
  -- Whether UpdateRebootsEntry stores the entry, and whether DeleteRebootsEntry deletes it.
  pub stores : RebootQueueEntry → Bool
  pub deletes : RebootQueueEntry → Bool
  -- What GetRebootsEntry finds for the index of the entry; `none` is an error.
  pub stored : RebootQueueEntry → Option RebootQueueEntry
  pub kube_client : Bool
  pub protected_namespaces : Bool
  pub cordons : String → Bool
  pub eviction_dry_run : String → Bool
  pub evicts : String → Bool
  pub deletes_daemon_set_pods : String → Bool
  -- Whether a program with that timeout and those arguments succeeds at that attempt.
  pub runs : ℕ → List String → ℕ → Bool
  -- Whether the context ends in the pause after that attempt for that node.
  pub interrupted : String → ℕ → Bool
  pub random : RebootQueueEntry → ℕ
  -- The time when the entry is first stored, and when its drain fails, cut to whole seconds.
  pub now : Time
  pub later : Time

-- What a run leaves: the entries that it stored, those that it deleted, the nodes that it reported
-- as failed, and whether it returned an error.
pub record Ran : Type 0 where
  pub written : List RebootQueueEntry
  pub deleted : List RebootQueueEntry
  pub failed : List String
  pub error : Bool

abbrev pub done : Ran
done = record { written = []; deleted = []; failed = []; error = false }

abbrev pub given_up : Ran
given_up = record done { error = true }

abbrev pub write : RebootQueueEntry → Ran → Ran
write e r = record r { written = e ∷ r.written }

abbrev pub report : String → Ran → Ran
report node r = record r { failed = node ∷ r.failed }

abbrev waits : Option ℕ → Bool
waits none = false
waits (some seconds) = not (seconds == 0)

module _ (config : RebootConfig) (x : Answers) where
  after_outcome : Outcome → Ran → Ran
  after_outcome storage_error next = given_up
  after_outcome left_cancelled next = next
  after_outcome (update e) next = if x.stores e then write e next else given_up

  -- drainBackOff on an entry, and what follows it.
  back_off : RebootQueueEntry → Ran → Ran
  unfolding after_outcome
  back_off e next = after_outcome (drain_back_off (x.stored e) x.later (x.random e) e) next

  abbrev pub draining_entry : RebootQueueEntry → RebootQueueEntry
  draining_entry e = record e { status = draining; last_transition_time = x.now }

  abbrev pub prepared : RebootQueueEntry → Bool
  prepared e = x.stores (draining_entry e) && (x.cordons e.node && x.eviction_dry_run e.node)

  -- The entry is written if the storage takes it.
  abbrev pub write_if : Bool → RebootQueueEntry → Ran → Ran
  write_if true e next = write e next
  write_if false e next = next

  -- The first loop of the drain: `next` is what follows the whole loop.
  cordon_all : List RebootQueueEntry → Ran → Ran
  unfolding back_off
  cordon_all [] next = next
  cordon_all (e ∷ es) next =
      let rest = cordon_all es next in
      write_if (x.stores (draining_entry e)) (draining_entry e)
        (if prepared e then rest else report e.node (back_off (draining_entry e) rest))

  -- The second loop.
  evict_all : List RebootQueueEntry → Ran
  unfolding back_off
  evict_all [] = done
  evict_all (e ∷ es) =
      let rest = evict_all es in if x.evicts e.node then rest else report e.node (back_off e rest)

  unfoldable pub drain_start : List RebootQueueEntry → Ran
  unfolding cordon_all evict_all
  drain_start es =
      if not (x.kube_client && x.protected_namespaces)
      then given_up
      else cordon_all es (evict_all (map draining_entry (keep_if prepared es)))

  unfoldable pub delete_daemon_set_pods : List RebootQueueEntry → Ran
  delete_daemon_set_pods es = if not x.kube_client then given_up else record done {
    failed = map (λ e. e.node) (keep_if (λ e. not (x.deletes_daemon_set_pods e.node)) es);
  }

  -- The attempts from the i-th on. Each goroutine is taken to have an array of arguments of its own.
  run_attempts : String → ℕ → ℕ → Bool
  run_attempts node zero i = false
  run_attempts node (suc n) i =
      let rest = run_attempts node n (i + 1) in
      if x.runs (or_default config.command_timeout_seconds 0) (config.reboot_command ++ node ∷ []) i
      then true
      else if waits config.command_interval && x.interrupted node i
      then false
      else rest

  abbrev pub rebooting_entry : RebootQueueEntry → RebootQueueEntry
  rebooting_entry e = record e { status = rebooting; last_transition_time = x.now }

  -- One goroutine.
  reboot_node : RebootQueueEntry → Ran → Ran
  unfolding run_attempts
  reboot_node e others =
      if not (x.stores (rebooting_entry e))
      then record others { error = true }
      else write (rebooting_entry e) (
          if run_attempts e.node (or_default config.command_retries 0 + 1) 0
          then others
          else report e.node others)

  unfoldable pub reboot_all : List RebootQueueEntry → Ran
  unfolding reboot_node
  reboot_all [] = done
  reboot_all (e ∷ es) = reboot_node e (reboot_all es)

  unfoldable pub drain_timeout : List RebootQueueEntry → Ran
  unfolding back_off
  drain_timeout [] = done
  drain_timeout (e ∷ es) = back_off e (drain_timeout es)

  unfoldable pub dequeue : List RebootQueueEntry → Ran
  dequeue [] = done
  dequeue (e ∷ es) =
      let rest = dequeue es in
      if x.deletes e then record rest { deleted = e ∷ rest.deleted } else given_up
