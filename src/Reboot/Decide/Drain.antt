-- ===== src/Reboot/Decide/Drain.antt =====
-- CheckDrainCompletion against a description by filters.
use cke.Prelude.{
  ◌+◌, ◌*◌, String, ◌≡◌, Bool, true, false, not, ◌&&◌, List, [], ◌∷◌, Option, some, ltb, keep_if,
  arith, Option-cases, inl, inr,
}
use cke.Cluster.{Cluster, Time, second}
use cke.Reboot.{RebootQueueEntry, draining, status_eq, cluster_member}
use cke.Reboot.Decide.{check_drain_completion, reboot_eviction_timeout_seconds}

abbrev free : Option Bool → Bool
free (some false) = true
free _ = false

module _ (pods_deleted : String → Bool) (volumes_in_use : String → Option Bool) (c : Cluster)
    (now : Time) where
  abbrev drains : RebootQueueEntry → Bool
  drains e = cluster_member c e && status_eq e.status draining

  abbrev pub is_empty : RebootQueueEntry → Bool
  is_empty e = pods_deleted e.node && free (volumes_in_use e.node)

  abbrev pub is_late : RebootQueueEntry → Bool
  is_late e = ltb (e.last_transition_time + reboot_eviction_timeout_seconds c * second) now

  -- Where no error is returned, the completed entries are the draining ones of cluster members
  -- whose node has no Pod left and no volume in use, and the timed out entries are the other
  -- draining ones of cluster members whose drain began longer ago than the eviction timeout.
  pub check_drain_completion_lem :
      (entries : List RebootQueueEntry) {completed timedout : List RebootQueueEntry}
      → check_drain_completion pods_deleted volumes_in_use c now entries
        ≡ some (completed, timedout)
      → (completed ≡ keep_if (λ e. drains e && is_empty e) entries)
        × (timedout ≡ keep_if (λ e. drains e && (not (is_empty e) && is_late e)) entries)
  unfolding check_drain_completion
  check_drain_completion_lem [] h = ground arith
  check_drain_completion_lem (e ∷ es) {completed} {timedout} h =
      elim (Option-cases (check_drain_completion pods_deleted volumes_in_use c now es)) [
        | inl failed ↦ ground arith
        | inr (lists, rest) ↦
            ground (arith, check_drain_completion_lem es {completed = lists.0} {timedout = lists.1})
      ]
