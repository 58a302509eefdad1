-- ===== src/Repair/Ops/Sorting.antt =====
-- The first loop of repairOps against a description by filters.
use cke.Prelude.{
  String, ◌≡◌, sym, Bool, true, not, ◌&&◌, List, [], ◌∷◌, ◌++◌, ltb, keep_if, if◌then◌else◌,
  append-nil, append_assoc, arith,
}
use cke.Cluster.{Time}
use cke.Repair.{queued, processing, RepairQueueEntry, has_finished, status_eq}
use cke.Repair.Ops.{
  no_entries, RepairOp, repair_dequeue, repair_finish, Sorted, is_waiting, sort_entry, sort_entries,
}

-- The operations on entries that need no more repair: an entry that is being deleted is dequeued,
-- and one whose machine is healthy again is finished.
abbrev pub closing : (String → Bool) → List RepairQueueEntry → List RepairOp
closing repair_completed [] = []
closing repair_completed (e ∷ es) =
    let rest = closing repair_completed es in
    if e.deleted
    then repair_dequeue e ∷ rest
    else if has_finished e
    then rest
    else if repair_completed e.address
    then repair_finish e true ∷ rest
    else rest

-- Entries that still need repair.
abbrev is_open : (String → Bool) → RepairQueueEntry → Bool
is_open repair_completed e =
    not e.deleted && (not (has_finished e) && not (repair_completed e.address))

module _ (api_servers repair_completed : String → Bool) (now : Time) where
  abbrev pub in_back_off : RepairQueueEntry → Bool
  in_back_off e = is_waiting e.step_status && ltb now e.drain_backoff_expire

  abbrev pub is_processing : RepairQueueEntry → Bool
  is_processing e =
      is_open repair_completed e && (status_eq e.status processing && not (in_back_off e))

  abbrev pub is_queued : RepairQueueEntry → Bool
  is_queued e = is_open repair_completed e && status_eq e.status queued

  abbrev pub api : RepairQueueEntry → Bool
  api e = api_servers e.address

  pub sort_entries-ops :
      (es : List RepairQueueEntry) (s : Sorted)
      → (sort_entries api_servers repair_completed now es s).ops
        ≡ s.ops ++ closing repair_completed es
  unfolding sort_entries
  sort_entries-ops [] s = sym (append-nil _)
  sort_entries-ops (e ∷ es) s = ground (
    arith,
    sort_entries-ops es (sort_entry api_servers repair_completed now e s),
    append_assoc s.ops (repair_dequeue e ∷ []) (closing repair_completed es),
    append_assoc s.ops (repair_finish e true ∷ []) (closing repair_completed es),
  )

  pub sort_entries-processing_api :
      (es : List RepairQueueEntry) (s : Sorted)
      → (sort_entries api_servers repair_completed now es s).processing_api
        ≡ s.processing_api ++ keep_if (λ e. is_processing e && api e) es
  unfolding sort_entries
  sort_entries-processing_api [] s = sym (append-nil _)
  sort_entries-processing_api (e ∷ es) s = ground (
    arith,
    sort_entries-processing_api es (sort_entry api_servers repair_completed now e s),
    append_assoc s.processing_api (e ∷ []) (keep_if (λ e. is_processing e && api e) es),
  )

  pub sort_entries-processing_other :
      (es : List RepairQueueEntry) (s : Sorted)
      → (sort_entries api_servers repair_completed now es s).processing_other
        ≡ s.processing_other ++ keep_if (λ e. is_processing e && not (api e)) es
  unfolding sort_entries
  sort_entries-processing_other [] s = sym (append-nil _)
  sort_entries-processing_other (e ∷ es) s = ground (
    arith,
    sort_entries-processing_other es (sort_entry api_servers repair_completed now e s),
    append_assoc s.processing_other (e ∷ []) (keep_if (λ e. is_processing e && not (api e)) es),
  )

  pub sort_entries-queued_api :
      (es : List RepairQueueEntry) (s : Sorted)
      → (sort_entries api_servers repair_completed now es s).queued_api
        ≡ s.queued_api ++ keep_if (λ e. is_queued e && api e) es
  unfolding sort_entries
  sort_entries-queued_api [] s = sym (append-nil _)
  sort_entries-queued_api (e ∷ es) s = ground (
    arith,
    sort_entries-queued_api es (sort_entry api_servers repair_completed now e s),
    append_assoc s.queued_api (e ∷ []) (keep_if (λ e. is_queued e && api e) es),
  )

  pub sort_entries-queued_other :
      (es : List RepairQueueEntry) (s : Sorted)
      → (sort_entries api_servers repair_completed now es s).queued_other
        ≡ s.queued_other ++ keep_if (λ e. is_queued e && not (api e)) es
  unfolding sort_entries
  sort_entries-queued_other [] s = sym (append-nil _)
  sort_entries-queued_other (e ∷ es) s = ground (
    arith,
    sort_entries-queued_other es (sort_entry api_servers repair_completed now e s),
    append_assoc s.queued_other (e ∷ []) (keep_if (λ e. is_queued e && not (api e)) es),
  )

  -- The first loop sorts the queue: an operation for each entry that is being deleted or whose
  -- machine is healthy again, in the order of the queue, and four lists of the others that still
  -- need repair, each in the order of the queue: those being processed and not in the back-off of a
  -- drain, and those queued, of API servers and of other machines. Finished entries are left.
  pub sort_entries_lem :
      (es : List RepairQueueEntry)
      → sort_entries api_servers repair_completed now es no_entries ≡ record {
        ops = closing repair_completed es;
        processing_api = keep_if (λ e. is_processing e && api e) es;
        processing_other = keep_if (λ e. is_processing e && not (api e)) es;
        queued_api = keep_if (λ e. is_queued e && api e) es;
        queued_other = keep_if (λ e. is_queued e && not (api e)) es;
      }
  sort_entries_lem es = λ i. record {
    ops = sort_entries-ops es no_entries i;
    processing_api = sort_entries-processing_api es no_entries i;
    processing_other = sort_entries-processing_other es no_entries i;
    queued_api = sort_entries-queued_api es no_entries i;
    queued_other = sort_entries-queued_other es no_entries i;
  }
