-- ===== src/Reboot/Decide/Queue.antt =====
-- What GetRebootQueueStatus hands to the decisions.
use cke.Prelude.{
  true, ◌&&◌, keep_if, All-mem, mem-keep_if, Memᴰ, ◌≢◌, [], ◌∷◌, refl, All, false, eq_iff, String,
  ◌≡◌, Bool, not, List, Option, some, Option-cases, inl, inr, arith,
}
use cke.Cluster.{Cluster, Time}
use cke.Reboot.Decide.Drain.{check_drain_completion_lem}
use cke.Reboot.{draining, status_eq, RebootQueueEntry, dedup_reboot_queue_entries}
use cke.Reboot.Decide.{
  find_processing, reboot_processing, RebootQueueStatus, get_reboot_queue_status,
  check_drain_completion, choose_reboot_candidates,
}

pub status_candidates :
    (c : Cluster) (api_servers pods_deleted : String → Bool) (volumes_in_use : String → Option Bool)
    (reboot_completed : RebootQueueEntry → Bool) (now : Time) (disabled : Bool)
    (stored : List RebootQueueEntry) (status : RebootQueueStatus)
    → get_reboot_queue_status c api_servers pods_deleted volumes_in_use reboot_completed now
        disabled stored
      ≡ some status
    → (status.enabled ≡ not disabled)
      × (status.next_candidates
          ≡ choose_reboot_candidates c api_servers now (dedup_reboot_queue_entries stored))
unfolding get_reboot_queue_status
status_candidates c api_servers pods_deleted volumes_in_use reboot_completed now disabled stored
      status h =
    let entries = dedup_reboot_queue_entries stored in
    elim (Option-cases (check_drain_completion pods_deleted volumes_in_use c now entries)) [
      | inl failed ↦ (ground arith, ground arith)
      | inr (lists, checked) ↦ (ground arith, ground arith)
    ]

find_unlisted :
    (name : String) (es : List RebootQueueEntry)
    → All (λ (e : RebootQueueEntry). e.node ≢ name) es
    → find_processing name es ≡ false
unfolding find_processing
find_unlisted name [] h = refl
find_unlisted name (e ∷ es) h = ground (arith, find_unlisted name es h.1, eq_iff e.node name)

pub reboot_processing_unlisted :
    (q : RebootQueueStatus) (name : String)
    → All (λ (e : RebootQueueEntry). e.node ≢ name) q.entries
    → reboot_processing q name ≡ false
unfolding reboot_processing
reboot_processing_unlisted q name h = ground (arith, find_unlisted name q.entries h)

filtered_draining :
    (p q : RebootQueueEntry → Bool) (es : List RebootQueueEntry)
    → All
        (λ e. Memᴰ e es × (status_eq e.status draining ≡ true))
        (keep_if (λ e. (p e && status_eq e.status draining) && q e) es)
filtered_draining p q es = All-mem _ _ (λ e m.
    let (i, t) = mem-keep_if (λ e. (p e && status_eq e.status draining) && q e) es m in
    (i, ground arith))

pub status_drains :
    (c : Cluster) (api_servers pods_deleted : String → Bool) (volumes_in_use : String → Option Bool)
    (reboot_completed : RebootQueueEntry → Bool) (now : Time) (disabled : Bool)
    (stored : List RebootQueueEntry) (status : RebootQueueStatus)
    → get_reboot_queue_status c api_servers pods_deleted volumes_in_use reboot_completed now
        disabled stored
      ≡ some status
    → All
        (λ e. Memᴰ e (dedup_reboot_queue_entries stored) × (status_eq e.status draining ≡ true))
        status.drain_completed
      × All
          (λ e. Memᴰ e (dedup_reboot_queue_entries stored) × (status_eq e.status draining ≡ true))
          status.drain_timedout
unfolding get_reboot_queue_status
status_drains c api_servers pods_deleted volumes_in_use reboot_completed now disabled stored status
      h =
    let entries = dedup_reboot_queue_entries stored in
    elim (Option-cases (check_drain_completion pods_deleted volumes_in_use c now entries)) [
      | inl failed ↦ absurd (ground arith)
      | inr (lists, checked) ↦
          let (completed, timedout) =
            check_drain_completion_lem pods_deleted volumes_in_use c now entries checked in
          let done : status.drain_completed ≡ lists.0 = ground arith in
          let late : status.drain_timedout ≡ lists.1 = ground arith in
          (
            rw (done, completed) (filtered_draining _ _ entries),
            rw (late, timedout) (filtered_draining _ _ entries),
          )
    ]
