-- ===== src/Repair/Ops/Limits.antt =====
-- How many repairs go on at once, and which.
use cke.Prelude.{
  ℕ, ◌+◌, ◌≤◌, String, ◌≡◌, refl, ◌⊎◌, inl, inr, Bool, true, false, not, ◌&&◌, List, [], ◌∷◌, ◌++◌,
  Option, none, some, All, All-append, All-mem, Memᴰ, arith, count_if, length, str_eq, eq_iff, leb,
  ◌==◌, any, if◌then◌else◌,
}
use cke.Cluster.{nodename, Node, Cluster, Time}
use cke.Repair.{RepairQueueEntry}
use cke.Repair.Ops.{
  RepairOp, repair_dequeue, repair_finish, repair_execute, repair_drain_start, repair_drain_timeout,
  RepairQueueStatus, run_step, run_entries, repair_ops, to_list, sort_entries, sorted_entries,
  no_entries, is_api_server, rebooting_api_servers, max_concurrent_repairs,
}
use cke.Repair.Ops.Sorting.{closing, sort_entries-ops}
use cke.Repair.Ops.Steps.{target, OpFor, run_step-For}

-- The operations that work on a machine.
abbrev pub is_work : RepairOp → Bool
is_work (repair_dequeue _) = false
is_work (repair_finish _ _) = false
is_work (repair_execute _ _) = true
is_work (repair_drain_start _) = true
is_work (repair_drain_timeout _) = true

not_blocked :
    (a : String) (rebooting : List String)
    → leb 2 (length rebooting) ≡ false
    → (length rebooting == 1 && not (any (str_eq a) rebooting)) ≡ false
    → (rebooting ≡ []) ⊎ (rebooting ≡ a ∷ [])
not_blocked a [] h k = inl refl
not_blocked a (r ∷ []) h k = inr (ground (arith, eq_iff a r))
not_blocked a (r ∷ s ∷ rest) h k = ground arith

module _ (api_servers : String → Bool) where
  abbrev pub is_api_work : RepairOp → Bool
  is_api_work op = is_work op && api_servers (target op)

  -- No API server but that of the operation is being rebooted.
  abbrev ListRule : List String → RepairOp → Type 0
  ListRule rebooting op =
      (is_api_work op ≡ false) ⊎ ((rebooting ≡ []) ⊎ (rebooting ≡ target op ∷ []))

  count-append :
      (p : RepairOp → Bool) (xs ys : List RepairOp)
      → count_if p (xs ++ ys) ≡ count_if p xs + count_if p ys
  count-append p [] ys = omega arith
  count-append p (x ∷ xs) ys = ground (arith, count-append p xs ys)

  closing_no_work :
      (done : String → Bool) (es : List RepairQueueEntry)
      → (count_if is_work (closing done es) ≡ 0) × (count_if is_api_work (closing done es) ≡ 0)
  closing_no_work done [] = (refl, refl)
  closing_no_work done (e ∷ es) = ground (arith, closing_no_work done es)

  closing-ListRule :
      (rebooting : List String) (done : String → Bool) (es : List RepairQueueEntry)
      → All (ListRule rebooting) (closing done es)
  closing-ListRule rebooting done [] = tt
  closing-ListRule rebooting done (e ∷ es) = ground (arith, closing-ListRule rebooting done es)

  module _ (c : Cluster) (rqs : RepairQueueStatus) (now : Time) (rebooting : List String) where
    abbrev go : List RepairQueueEntry → ℕ → ℕ → List RepairOp
    go es api_count count = (run_entries c rqs now api_servers rebooting es api_count count).0

    work_count_to_list : (op : Option RepairOp) → count_if is_work (to_list op) ≤ 1
    work_count_to_list none = omega arith
    work_count_to_list (some op) = ground arith

    api_work-to_list :
        (e : RepairQueueEntry) (op : Option RepairOp)
        → OpFor c rqs now e.address op
        → count_if is_api_work (to_list op) ≤ (if api_servers e.address then 1 else 0)
    api_work-to_list e none h = ground arith
    api_work-to_list e (some op) h = ground arith

    run_entries-le :
        (es : List RepairQueueEntry) (api_count count : ℕ)
        → count ≤ max_concurrent_repairs c
        → count_if is_work (go es api_count count) + count ≤ max_concurrent_repairs c
    unfolding run_entries
    run_entries-le [] api_count count h = omega arith
    run_entries-le (e ∷ es) api_count count h =
        let this = (run_step c rqs now e).op in
        ground (
          arith,
          run_entries-le es api_count count,
          run_entries-le es (api_count + 1) (count + 1),
          run_entries-le es api_count (count + 1),
          work_count_to_list this,
          count-append is_work (to_list this) (go es (api_count + 1) (count + 1)),
          count-append is_work (to_list this) (go es api_count (count + 1)),
        )

    run_entries-api_le :
        (es : List RepairQueueEntry) (api_count count : ℕ)
        → api_count ≤ 1
        → count_if is_api_work (go es api_count count) + api_count ≤ 1
    unfolding run_entries
    run_entries-api_le [] api_count count h = omega arith
    run_entries-api_le (e ∷ es) api_count count h =
        let this = (run_step c rqs now e).op in
        ground (
          arith,
          run_entries-api_le es api_count count,
          run_entries-api_le es (api_count + 1) (count + 1),
          run_entries-api_le es api_count (count + 1),
          api_work-to_list e this (run_step-For c rqs now e),
          count-append is_api_work (to_list this) (go es (api_count + 1) (count + 1)),
          count-append is_api_work (to_list this) (go es api_count (count + 1)),
        )

    cons_rule :
        (e : RepairQueueEntry) (op : Option RepairOp) (ops : List RepairOp)
        → OpFor c rqs now e.address op
        → (api_servers e.address ≡ false) ⊎ ((rebooting ≡ []) ⊎ (rebooting ≡ e.address ∷ []))
        → All (ListRule rebooting) ops
        → All (ListRule rebooting) (to_list op ++ ops)
    cons_rule e none ops h r hs = hs
    cons_rule e (some op) ops h (inl other) hs = (inl (ground arith), hs)
    cons_rule e (some op) ops h (inr rule) hs = (inr (rw h.1 rule), hs)

    run_entries-ListRule :
        (es : List RepairQueueEntry) (api_count count : ℕ)
        → All (ListRule rebooting) (go es api_count count)
    unfolding run_entries
    run_entries-ListRule [] api_count count = tt
    run_entries-ListRule (e ∷ es) api_count count =
        let this = (run_step c rqs now e).op in
        ground (
          arith,
          run_entries-ListRule es api_count count,
          cons_rule e this (go es (api_count + 1) (count + 1)) (run_step-For c rqs now e),
          run_entries-ListRule es (api_count + 1) (count + 1),
          cons_rule e this (go es api_count (count + 1)) (run_step-For c rqs now e),
          run_entries-ListRule es api_count (count + 1),
          not_blocked e.address rebooting,
        )

module _ (control_planes : List Node) (is_rebooting : String → Bool) where
  abbrev pub RebootRule : RepairOp → Type 0
  RebootRule op =
      (is_api_work (is_api_server control_planes) op ≡ false)
      ⊎ All (λ cp. (is_rebooting (nodename cp) ≡ false) ⊎ (cp.address ≡ target op)) control_planes

listed_head :
    (is_rebooting : String → Bool) (cp : Node) (cps : List Node)
    → is_rebooting (nodename cp) ≡ true
    → any (str_eq cp.address) (rebooting_api_servers is_rebooting (cp ∷ cps)) ≡ true
unfolding rebooting_api_servers
listed_head is_rebooting cp cps h = ground (arith, eq_iff cp.address cp.address)

listed_if_rebooting :
    (is_rebooting : String → Bool) (cps : List Node) {cp : Node}
    → Memᴰ cp cps
    → is_rebooting (nodename cp) ≡ true
    → any (str_eq cp.address) (rebooting_api_servers is_rebooting cps) ≡ true
unfolding rebooting_api_servers
listed_if_rebooting is_rebooting [] m h = elim m [ ]
listed_if_rebooting is_rebooting (x ∷ cps) (Memᴰ.head e) h =
    rw e (listed_head is_rebooting x cps (rw (← e) h))
listed_if_rebooting is_rebooting (x ∷ cps) (Memᴰ.tail m) h =
    ground (arith, listed_if_rebooting is_rebooting cps m h)

module _ (control_planes : List Node) (is_rebooting : String → Bool) where
  cp_rule :
      (op : RepairOp) {cp : Node}
      → (rebooting_api_servers is_rebooting control_planes ≡ [])
        ⊎ (rebooting_api_servers is_rebooting control_planes ≡ target op ∷ [])
      → Memᴰ cp control_planes
      → (is_rebooting (nodename cp) ≡ false) ⊎ (cp.address ≡ target op)
  cp_rule op {cp} rule m =
      ground
        (arith, listed_if_rebooting is_rebooting control_planes m, eq_iff cp.address (target op))

  rule_of_list :
      (op : RepairOp)
      → ListRule
          (is_api_server control_planes)
          (rebooting_api_servers is_rebooting control_planes)
          op
      → RebootRule control_planes is_rebooting op
  rule_of_list op (inl idle) = inl idle
  rule_of_list op (inr rule) = inr (All-mem _ _ (λ cp m. cp_rule op rule m))

  rules_of_list :
      (ops : List RepairOp)
      → All
          (ListRule
            (is_api_server control_planes)
            (rebooting_api_servers is_rebooting control_planes))
          ops
      → All (RebootRule control_planes is_rebooting) ops
  rules_of_list [] h = tt
  rules_of_list (op ∷ ops) h = (rule_of_list op h.0, rules_of_list ops h.1)

module _ (c : Cluster) (rqs : RepairQueueStatus) (control_planes : List Node)
    (is_rebooting : String → Bool) (now : Time) where
  abbrev pub decided : List RepairOp
  decided = (repair_ops c rqs control_planes is_rebooting now).0

  -- Of the operations that repairOps returns, those that work on a machine (all but dequeueing and
  -- finishing) are at most the configured maximum, and at most one of them is on an API server.
  pub repair_ops-le :
      (count_if is_work decided ≤ max_concurrent_repairs c)
      × (count_if (is_api_work (is_api_server control_planes)) decided ≤ 1)
  unfolding repair_ops
  repair_ops-le =
      let api_servers = is_api_server control_planes in
      let rebooting = rebooting_api_servers is_rebooting control_planes in
      let sorted = sort_entries api_servers rqs.repair_completed now rqs.entries no_entries in
      let rest = go api_servers c rqs now rebooting (sorted_entries sorted) 0 0 in
      rw (sort_entries-ops api_servers rqs.repair_completed now rqs.entries no_entries) (
        omega (
          arith,
          count-append api_servers is_work (closing rqs.repair_completed rqs.entries) rest,
          count-append api_servers (is_api_work api_servers)
              (closing rqs.repair_completed rqs.entries) rest,
          closing_no_work api_servers rqs.repair_completed rqs.entries,
          run_entries-le api_servers c rqs now rebooting (sorted_entries sorted) 0 0 (omega arith),
          run_entries-api_le api_servers c rqs now rebooting (sorted_entries sorted) 0 0
              (omega arith),
        ))

  -- While repairOps lets an operation work on an API server, no other control plane node is being
  -- rebooted under its node name.
  pub repair_ops-RebootRule : All (RebootRule control_planes is_rebooting) decided
  unfolding repair_ops
  repair_ops-RebootRule =
      let api_servers = is_api_server control_planes in
      let rebooting = rebooting_api_servers is_rebooting control_planes in
      let sorted = sort_entries api_servers rqs.repair_completed now rqs.entries no_entries in
      All-append (RebootRule control_planes is_rebooting) sorted.ops _
        (rw (sort_entries-ops api_servers rqs.repair_completed now rqs.entries no_entries) (
          rules_of_list control_planes is_rebooting _
            (closing-ListRule api_servers rebooting rqs.repair_completed rqs.entries)))
        (rules_of_list control_planes is_rebooting _
          (run_entries-ListRule api_servers c rqs now rebooting (sorted_entries sorted) 0 0))
