-- ===== src/Repair/Commands/Rounds.antt =====
-- A round of the repair queue, from the entries as they are read to those that its commands store.
use cke.Prelude.{ap, ◌≡◌, refl, ◌∙◌, ℕ, Bool, true, false, String, List, All, All-at, Memᴰ, arith}
use cke.Cluster.{Node, Cluster, Time}
use cke.Repair.{RepairQueueEntry, has_finished}
use cke.Repair.Ops.{RepairOp, RepairQueueStatus, repair_ops}
use cke.Repair.Ops.Decided.{IsAbout, repair_ops-IsAbout}
use cke.Repair.Lifecycle.{Move, advance, start, give_up, perform, close, Course, here, further}
use cke.Repair.Lifecycle.Invariant.{IsWellFormed, Course-IsWellFormed}
use cke.Repair.Commands.{Answers, run}
use cke.Repair.Commands.Stored.{run-Course}

-- The fields that no command changes: which entry it is, what it asks for, and whether it is being
-- deleted.
abbrev pub identity : RepairQueueEntry → ℕ × String × String × String × String × String × Bool
identity e = (e.index, e.address, e.nodename, e.serial, e.machine_type, e.operation, e.deleted)

module _ (c : Cluster) where
  identity-Move : {e f : RepairQueueEntry} → Move c e f → identity f ≡ identity e
  identity-Move (advance _ _ _) = refl
  identity-Move (start _ _ _ _) = refl
  identity-Move (give_up _ _) = refl
  identity-Move (perform _ _ _) = refl
  identity-Move (close _ _ _) = refl

  identity-Course : {e f : RepairQueueEntry} → Course c e f → identity f ≡ identity e
  identity-Course here = refl
  identity-Course (further path move) = identity-Move move ∙ identity-Course path

  finished-Move : {e f : RepairQueueEntry} → Move c e f → has_finished e ≡ false
  finished-Move (advance h _ _) = h
  finished-Move (start h _ _ _) = h
  finished-Move (give_up h _) = h
  finished-Move (perform h _ _) = h
  finished-Move (close h _ _) = h

  -- A finished entry stays as it is.
  finished-Course : {e f : RepairQueueEntry} → has_finished e ≡ true → Course c e f → f ≡ e
  finished-Course done here = refl
  finished-Course {e} {f} done (further {f = m} path move) =
      let left = finished-Move move in
      let kept = finished-Course done path in absurd (ground (arith, ap has_finished kept))

  -- The entry follows from one of the queue.
  pub record IsFollowed (rqs : RepairQueueStatus) (w : RepairQueueEntry) : Type 0 where
    pub origin : RepairQueueEntry
    pub listed : Memᴰ origin rqs.entries
    pub path : Course c origin w
    pub same : identity w ≡ identity origin
    pub sound : IsWellFormed c w
    pub final : has_finished origin ≡ true → w ≡ origin

  -- Where every entry of the queue as it was read is well-formed, each entry that the commands of a
  -- round store, whatever the outside answers, is well-formed, and follows from an entry of the
  -- queue by the moves of its life; its index, its machine, its operation and its flag of deletion
  -- are those that were read. An entry that is finished stays as it is.
  pub repair_ops-run :
      (rqs : RepairQueueStatus) (control_planes : List Node) (is_rebooting : String → Bool)
      (now : Time) (x : Answers) (op : RepairOp) (w : RepairQueueEntry)
      → All (IsWellFormed c) rqs.entries
      → Memᴰ op (repair_ops c rqs control_planes is_rebooting now).0
      → Memᴰ w (run c x op).written
      → IsFollowed rqs w
  repair_ops-run rqs control_planes is_rebooting now x op w sound decided wrote =
      let (e, listed, starts) =
        All-at (IsAbout c rqs now) _ (repair_ops-IsAbout c rqs now control_planes is_rebooting)
          decided in
      let path = All-at (Course c e) _ (run-Course c x e op starts) wrote in
      record {
        origin = e;
        listed = listed;
        path = path;
        same = identity-Course path;
        sound = Course-IsWellFormed c path (All-at (IsWellFormed c) _ sound listed);
        final = λ finished. finished-Course finished path;
      }
