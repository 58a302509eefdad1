-- ===== src/Server/RebootOps/Starting.antt =====
-- When rebootOps starts to drain a node.
use cke.Prelude.{
  append-nil, Bool-cases, ◌≤◌, ◌≡◌, true, false, List, [], ◌∷◌, ◌++◌, All, All-append, arith, ltb,
  length, inl, inr, ◌≢◌, refl, subst,
}
use cke.Cluster.{Cluster, Constraints}
use cke.Reboot.{RebootQueueEntry}
use cke.Server.{NodeFilter, ssh_not_connected}
use cke.Server.RebootOps.{
  RebootOp, reboot_cancel, reboot_dequeue, reboot_delete_daemon_set_pod, reboot_reboot,
  reboot_drain_start, reboot_drain_timeout, if_any, queue, ssh_check_nodes, drain_start_ops,
  closing_ops, progress_ops, reboot_ops,
}

module _ (c : Cluster) (constraints : Constraints) (nf : NodeFilter) where
  -- The queue is at work: enabled, with its commands configured and nothing to take out.
  pub record IsWorking : Type 0 where
    pub enabled : (queue c constraints nf).enabled ≡ true
    pub reboots : c.reboot.reboot_command ≢ []
    pub checks : c.reboot.boot_check_command ≢ []
    pub none_cancelled : (queue c constraints nf).reboot_cancelled ≡ []
    pub none_dequeued : (queue c constraints nf).reboot_dequeued ≡ []

  abbrev pub Reachable : Type 0
  Reachable =
      length (ssh_not_connected nf (ssh_check_nodes c constraints nf))
      ≤ constraints.reboot_maximum_unreachable

  abbrev pub Grounds : RebootOp → Type 0
  Grounds (reboot_cancel es) = es ≡ (queue c constraints nf).reboot_cancelled
  Grounds (reboot_dequeue es) = es ≡ (queue c constraints nf).reboot_dequeued
  Grounds (reboot_delete_daemon_set_pod _ es) =
      IsWorking × (es ≡ (queue c constraints nf).drain_completed)
  Grounds (reboot_reboot _ es) = IsWorking × (es ≡ (queue c constraints nf).drain_completed)
  Grounds (reboot_drain_start _ es) =
      IsWorking × Reachable × (es ≡ (queue c constraints nf).next_candidates)
  Grounds (reboot_drain_timeout es) = IsWorking × (es ≡ (queue c constraints nf).drain_timedout)

  if_any-Grounds :
      (es : List RebootQueueEntry) (ops rest : List RebootOp)
      → All Grounds ops
      → All Grounds rest
      → All Grounds (if_any es ops ++ rest)
  if_any-Grounds [] ops rest h k = k
  if_any-Grounds (e ∷ es) ops rest h k = All-append Grounds ops rest h k

  closing_ops-Grounds : All Grounds (closing_ops c constraints nf)
  unfolding closing_ops
  closing_ops-Grounds =
      if_any-Grounds (queue c constraints nf).reboot_cancelled _ _ (refl, tt)
        (subst (All Grounds) (append-nil _)
          (if_any-Grounds (queue c constraints nf).reboot_dequeued _ [] (refl, tt) tt))

  drain_start_ops-Grounds : IsWorking → All Grounds (drain_start_ops c constraints nf)
  unfolding drain_start_ops
  drain_start_ops-Grounds w = ground arith

  progress_ops-Grounds : IsWorking → All Grounds (progress_ops c constraints nf)
  unfolding progress_ops
  progress_ops-Grounds w =
      if_any-Grounds (queue c constraints nf).drain_completed _ _ ((w, refl), ((w, refl), tt))
        (if_any-Grounds (queue c constraints nf).next_candidates _ _ (drain_start_ops-Grounds w) (
          subst (All Grounds) (append-nil _)
            (if_any-Grounds (queue c constraints nf).drain_timedout _ [] ((w, refl), tt) tt)))

  -- With nothing to take out the two lists are empty.
  nothing_to_close :
      ltb 0 (length (closing_ops c constraints nf)) ≡ false
      → ((queue c constraints nf).reboot_cancelled ≡ [])
        × ((queue c constraints nf).reboot_dequeued ≡ [])
  unfolding closing_ops
  nothing_to_close h = (ground arith, ground arith)

  -- Every operation of rebootOps has its grounds.
  pub reboot_ops-Grounds : All Grounds (reboot_ops c constraints nf)
  unfolding reboot_ops
  reboot_ops-Grounds = elim (Bool-cases (ltb 0 (length (closing_ops c constraints nf)))) [
    | inl some_closed ↦ rw some_closed closing_ops-Grounds
    | inr all_open ↦
        let (a, b) = nothing_to_close all_open in
        rw all_open (
          ground (
            arith,
            λ (e : (queue c constraints nf).enabled ≡ true) (r : c.reboot.reboot_command ≢ [])
                  (k : c.reboot.boot_check_command ≢ []).
                progress_ops-Grounds (record {
                  enabled = e;
                  reboots = r;
                  checks = k;
                  none_cancelled = a;
                  none_dequeued = b;
                }),
          ))
  ]
