-- ===== src/Repair/Ops/Decided.antt =====
-- The operations of a round and the entries of the queue that they are about.
use cke.Prelude.{
  ℕ, ◌+◌, String, ◌≡◌, refl, inl, inr, Bool, true, false, List, [], ◌∷◌, ◌++◌, Option, none, some,
  All, All-append, All-mem, Memᴰ, mem-keep_if, arith, keep_if, if◌then◌else◌,
}
use cke.Cluster.{Node, Cluster, RepairStep, Time}
use cke.Repair.{
  Result-cases, RepairQueueEntry, RepairStepStatus, waiting, draining, watching, RepairError,
  step_out_of_range, ok, has_finished, get_current_repair_step,
}
use cke.Repair.Ops.{
  to_list, is_api_server, rebooting_api_servers, sort_entries, sorted_entries, no_entries, RepairOp,
  repair_dequeue, repair_finish, RepairQueueStatus, run_waiting, step_watching, step_draining,
  step_waiting, step_failed, run_step, next_step, run_entries, repair_ops, by_step_status,
}
use cke.Repair.Ops.Sorting.{closing, sort_entries-ops, sort_entries_lem}
use cke.Repair.Lifecycle.{Course, here, further, advance, Starts}

module _ (c : Cluster) (rqs : RepairQueueStatus) (now : Time) where
  module _ (e : RepairQueueEntry) where
    abbrev OpStarts : Option RepairOp → Type 0
    OpStarts none = Unit {0}
    OpStarts (some op) = Starts c e op

    step_waiting-Starts :
        (f : RepairQueueEntry) (step : RepairStep)
        → Course c e f
        → has_finished f ≡ false
        → f.step_status ≡ waiting
        → get_current_repair_step c f ≡ ok step
        → OpStarts (step_waiting c rqs now f step).op
    unfolding step_waiting
    step_waiting-Starts f step p h w found = ground arith

    step_failed-Starts :
        (f : RepairQueueEntry) (x : RepairError)
        → Course c e f
        → has_finished f ≡ false
        → OpStarts (step_failed c rqs now f x).op
    unfolding step_failed
    step_failed-Starts f step_out_of_range p h = (p, h)
    step_failed-Starts f _ p h = tt

    run_waiting-Starts :
        (f : RepairQueueEntry)
        → Course c e f
        → has_finished f ≡ false
        → f.step_status ≡ waiting
        → OpStarts (run_waiting c rqs now f).op
    unfolding run_waiting
    run_waiting-Starts f p h w = elim (Result-cases (get_current_repair_step c f)) [
      | inl (step, found) ↦ rw (found, run_waiting) (step_waiting-Starts f step p h w found)
      | inr (x, found) ↦ rw (found, run_waiting) (step_failed-Starts f x p h)
    ]

    step_draining-Starts :
        (step : RepairStep)
        → has_finished e ≡ false
        → e.step_status ≡ draining
        → get_current_repair_step c e ≡ ok step
        → OpStarts (step_draining c rqs now e step).op
    unfolding step_draining
    step_draining-Starts step h d found = let p : Course c e e = here in ground arith

    step_watching-Starts :
        (step : RepairStep)
        → has_finished e ≡ false
        → e.step_status ≡ watching
        → get_current_repair_step c e ≡ ok step
        → OpStarts (step_watching c rqs now e step).op
    unfolding step_watching
    step_watching-Starts step h w found = ground (
      arith,
      run_waiting-Starts (next_step c rqs now e) (further here (advance h w found)) h refl,
    )

    by_step_status-Starts :
        (s : RepairStepStatus) (step : RepairStep)
        → has_finished e ≡ false
        → e.step_status ≡ s
        → get_current_repair_step c e ≡ ok step
        → OpStarts (by_step_status c rqs now s e step).op
    unfolding by_step_status
    by_step_status-Starts waiting step h at found = step_waiting-Starts e step here h at found
    by_step_status-Starts draining step h at found = step_draining-Starts step h at found
    by_step_status-Starts watching step h at found = step_watching-Starts step h at found

    run_step-Starts : has_finished e ≡ false → OpStarts (run_step c rqs now e).op
    unfolding run_step
    run_step-Starts h = elim (Result-cases (get_current_repair_step c e)) [
      | inl (step, found) ↦
          rw (found, run_step) (by_step_status-Starts e.step_status step h refl found)
      | inr (x, found) ↦ rw (found, run_step) (step_failed-Starts e x here h)
    ]

  -- The operation is about an entry of the queue.
  abbrev pub IsAbout : RepairOp → Type 0
  IsAbout op = (e : RepairQueueEntry) × Memᴰ e rqs.entries × Starts c e op

  abbrev IsOpen : RepairQueueEntry → Type 0
  IsOpen e = Memᴰ e rqs.entries × (has_finished e ≡ false)

  cons-IsAbout :
      (e : RepairQueueEntry) (op : Option RepairOp) (ops : List RepairOp)
      → Memᴰ e rqs.entries
      → OpStarts e op
      → All IsAbout ops
      → All IsAbout (to_list op ++ ops)
  cons-IsAbout e none ops m h hs = hs
  cons-IsAbout e (some op) ops m h hs = ((e, m, h), hs)

  run_entries-IsAbout :
      (api_servers : String → Bool) (rebooting : List String) (es : List RepairQueueEntry)
      (api_count count : ℕ)
      → All IsOpen es
      → All IsAbout (run_entries c rqs now api_servers rebooting es api_count count).0
  unfolding run_entries
  run_entries-IsAbout api_servers rebooting [] api_count count o = tt
  run_entries-IsAbout api_servers rebooting (e ∷ es) api_count count ((m, h), o) =
      let go = run_entries c rqs now api_servers rebooting es in
      let this = run_step c rqs now e in
      ground (
        arith,
        run_entries-IsAbout api_servers rebooting es api_count count o,
        cons-IsAbout e this.op (go (api_count + 1) (count + 1)).0 m (run_step-Starts e h)
            (run_entries-IsAbout api_servers rebooting es (api_count + 1) (count + 1) o),
        cons-IsAbout e this.op (go api_count (count + 1)).0 m (run_step-Starts e h)
            (run_entries-IsAbout api_servers rebooting es api_count (count + 1) o),
      )

  one-IsAbout :
      (deleted finished completed : Bool) (dequeue finish : RepairOp) (rest : List RepairOp)
      → IsAbout dequeue
      → (finished ≡ false → IsAbout finish)
      → All IsAbout rest
      → All IsAbout (
          if deleted
          then dequeue ∷ rest
          else if finished
          then rest
          else if completed
          then finish ∷ rest
          else rest)
  one-IsAbout true finished completed dequeue finish rest h k r = (h, r)
  one-IsAbout false true completed dequeue finish rest h k r = r
  one-IsAbout false false true dequeue finish rest h k r = (k refl, r)
  one-IsAbout false false false dequeue finish rest h k r = r

  closing-IsAbout :
      (es : List RepairQueueEntry)
      → ((e : RepairQueueEntry) → Memᴰ e es → Memᴰ e rqs.entries)
      → All IsAbout (closing rqs.repair_completed es)
  closing-IsAbout [] sub = tt
  closing-IsAbout (e ∷ es) sub =
      let m = sub e (Memᴰ.head refl) in
      one-IsAbout e.deleted (has_finished e) (rqs.repair_completed e.address) (repair_dequeue e)
        (repair_finish e true) _ (e, m, here) (λ h. (e, m, (here, h)))
        (closing-IsAbout es (λ f k. sub f (Memᴰ.tail k)))

  module _ (api_servers : String → Bool) where
    filtered :
        (p : RepairQueueEntry → Bool)
        → ((e : RepairQueueEntry) → p e ≡ true → has_finished e ≡ false)
        → All IsOpen (keep_if p rqs.entries)
    filtered p h = All-mem IsOpen _ (λ e m. let (i, t) = mem-keep_if p rqs.entries m in (i, h e t))

    sorted-IsOpen :
        All IsOpen (
          sorted_entries (sort_entries api_servers rqs.repair_completed now rqs.entries no_entries))
    sorted-IsOpen = rw (sort_entries_lem api_servers rqs.repair_completed now rqs.entries) (
        All-append IsOpen _ _ (filtered _ (λ e h. ground arith)) (
          All-append IsOpen _ _ (filtered _ (λ e h. ground arith)) (
            All-append IsOpen _ _ (filtered _ (λ e h. ground arith))
              (filtered _ (λ e h. ground arith)))))

  pub repair_ops-IsAbout :
      (control_planes : List Node) (is_rebooting : String → Bool)
      → All IsAbout (repair_ops c rqs control_planes is_rebooting now).0
  unfolding repair_ops
  repair_ops-IsAbout control_planes is_rebooting =
      let api_servers = is_api_server control_planes in
      let rebooting = rebooting_api_servers is_rebooting control_planes in
      let sorted = sort_entries api_servers rqs.repair_completed now rqs.entries no_entries in
      All-append IsAbout sorted.ops _
        (rw (sort_entries-ops api_servers rqs.repair_completed now rqs.entries no_entries)
          (closing-IsAbout rqs.entries (λ e m. m)))
        (run_entries-IsAbout api_servers rebooting (sorted_entries sorted) 0 0
          (sorted-IsOpen api_servers))
