-- ===== src/Server/Etcd/Maint.antt =====
-- When etcd members may be touched.
use cke.Prelude.{
  ℕ, String, ◌≡◌, ◌⊎◌, inl, inr, Bool, true, false, not, List, [], ◌∷◌, Option, none, some, All,
  All-mem, mem-keep_if, map, if◌then◌else◌, Bool-cases,
}
use cke.Cluster.{Node}
use cke.Params.{ServiceParams}
use cke.Server.{NodeFilter, Member, control_plane_nodes}
use cke.Server.Etcd.{
  EtcdOp, remove_member, destroy_member, add_member, mark_member, restart, etcd_is_good,
  etcd_non_cluster_members, etcd_non_cp_members, etcd_unstarted_members, etcd_unmarked_members,
  etcd_new_members, etcd_outdated_members, is_outdated, remove_some, destroy_some, add_first,
  mark_some, restart_first, maint_good, etcd_maint_op, remove_or, destroy_or,
}
use cke.Server.Etcd.Filters.{
  IsForeign, IsMisplaced, IsUnstarted, IsNew, IsUnmarked, OutGood, Foreign, Misplaced,
  non_cluster-Foreign, non_cp-Misplaced, etcd_unstarted_members-IsUnstarted,
  etcd_unmarked_members-IsUnmarked, foreign, misplaced, etcd_new_members-IsNew,
}

module _ {ℓ κ μ} {A : Type ℓ} (P : A → Type κ) (Q : A → Type μ) where
  All-map : ((a : A) → P a → Q a) → (l : List A) → All P l → All Q l
  All-map f [] h = tt
  All-map f (a ∷ l) h = (f a h.0, All-map f l h.1)

module _ (P : Node × ℕ → Type 0) (Q : ℕ → Type 0) where
  All-ids :
      ((p : Node × ℕ) → P p → Q p.1) → (l : List (Node × ℕ)) → All P l → All Q (map (λ q. q.1) l)
  All-ids f [] h = tt
  All-ids f (p ∷ l) h = (f p h.0, All-ids f l h.1)

module _ (nf : NodeFilter) where
  -- A node whose etcd runs with another image or other parameters than it should.
  abbrev pub IsOutdated : (Node → ServiceParams) → ServiceParams → String → Node → Type 0
  IsOutdated built_in extra image n =
      (n.control_plane ≡ true)
      × (is_outdated built_in extra image nf n ≡ true)
      × (etcd_is_good nf ≡ true)

  module _ (built_in : Node → ServiceParams) (extra : ServiceParams) (image : String) where
    -- The grounds of an operation.
    abbrev pub Grounds : EtcdOp → Type 0
    Grounds (remove_member ms) = All (IsForeign nf) ms
    Grounds (destroy_member nodes ids) = All (IsMisplaced nf) ids
    Grounds (add_member n) = IsUnstarted nf n ⊎ IsNew nf n
    Grounds (mark_member ns) = All (IsUnmarked nf) ns
    Grounds (restart n) = IsOutdated built_in extra image n

    abbrev pub Grounded : Option EtcdOp → Type 0
    Grounded none = Unit {0}
    Grounded (some op) = Grounds op

    remove_some-Grounded :
        (ms : List Member) (next : Option EtcdOp)
        → All (IsForeign nf) ms
        → Grounded next
        → Grounded (remove_some ms next)
    unfolding remove_some
    remove_some-Grounded [] next h g = g
    remove_some-Grounded (m ∷ ms) next h g = h

    destroy_some-Grounded :
        (ps : List (Node × ℕ)) (next : Option EtcdOp)
        → All (IsMisplaced nf) (map (λ q. q.1) ps)
        → Grounded next
        → Grounded (destroy_some nf ps next)
    unfolding destroy_some
    destroy_some-Grounded [] next h g = g
    destroy_some-Grounded (p ∷ ps) next h g = h

    add_first-Grounded :
        (ns : List Node) (next : Option EtcdOp)
        → All (λ n. IsUnstarted nf n ⊎ IsNew nf n) ns
        → Grounded next
        → Grounded (add_first ns next)
    unfolding add_first
    add_first-Grounded [] next h g = g
    add_first-Grounded (n ∷ ns) next h g = h.0

    mark_some-Grounded :
        (ns : List Node) (next : Option EtcdOp)
        → All (IsUnmarked nf) ns
        → Grounded next
        → Grounded (mark_some ns next)
    unfolding mark_some
    mark_some-Grounded [] next h g = g
    mark_some-Grounded (n ∷ ns) next h g = h

    restart_first-Grounded :
        (ns : List Node) (next : Option EtcdOp)
        → All (IsOutdated built_in extra image) ns
        → Grounded next
        → Grounded (restart_first ns next)
    unfolding restart_first
    restart_first-Grounded [] next h g = g
    restart_first-Grounded (n ∷ ns) next h g = h.0

    remove_or-Grounded :
        (healthy : Bool) (next : Option EtcdOp)
        → OutGood nf healthy
        → Grounded next
        → Grounded (remove_or built_in extra image nf healthy next)
    unfolding remove_or
    remove_or-Grounded healthy next good =
        remove_some-Grounded (etcd_non_cluster_members nf healthy) next (
          All-map (Foreign nf healthy) (IsForeign nf) (λ m. foreign nf healthy m good) _
            (non_cluster-Foreign nf healthy))

    destroy_or-Grounded :
        (healthy : Bool) (next : Option EtcdOp)
        → OutGood nf healthy
        → Grounded next
        → Grounded (destroy_or built_in extra image nf healthy next)
    unfolding destroy_or
    destroy_or-Grounded healthy next good =
        destroy_some-Grounded (etcd_non_cp_members nf healthy) next (
          All-ids (Misplaced nf healthy) (IsMisplaced nf) (λ p. misplaced nf healthy p good) _
            (non_cp-Misplaced nf healthy))

    etcd_outdated_members-IsOutdated :
        etcd_is_good nf ≡ true
        → All (IsOutdated built_in extra image) (etcd_outdated_members built_in extra image nf)
    unfolding etcd_outdated_members control_plane_nodes
    etcd_outdated_members-IsOutdated good = All-mem (IsOutdated built_in extra image) _ (λ n i.
        let (inside, old) =
          mem-keep_if (is_outdated built_in extra image nf) (control_plane_nodes nf) i in
        let (listed, cp) = mem-keep_if _ nf.cluster.nodes inside in (cp, old, good))

    maint_good-Grounded : etcd_is_good nf ≡ true → Grounded (maint_good built_in extra image nf)
    unfolding maint_good
    maint_good-Grounded good =
        add_first-Grounded (etcd_new_members nf) _
          (All-map (IsNew nf) (λ n. IsUnstarted nf n ⊎ IsNew nf n) (λ n h. inr h) _
            (etcd_new_members-IsNew nf good))
          (remove_or-Grounded true _ good (
            destroy_or-Grounded true _ good (
              restart_first-Grounded (etcd_outdated_members built_in extra image nf) none
                (etcd_outdated_members-IsOutdated good) tt)))

    checked_good :
        Grounded (if not (etcd_is_good nf) then none else maint_good built_in extra image nf)
    checked_good = elim (Bool-cases (etcd_is_good nf)) [
      | inl good ↦ rw good (maint_good-Grounded good)
      | inr bad ↦ rw bad tt
    ]

    -- Every operation that etcdMaintOp returns has its grounds. A removed member is of no node of
    -- the cluster, and a destroyed one of a node of the cluster that is no control plane node; each
    -- is out of sync, or etcd is good. A node that is added is a control plane node whose member
    -- has not started, or one that is no member while etcd is good. A marked node is a control
    -- plane node with a member in sync and without the mark. A restarted one is a control plane
    -- node with another image or other parameters than it should have, while etcd is good.
    pub etcd_maint_op-Grounded : Grounded (etcd_maint_op built_in extra image nf)
    unfolding etcd_maint_op
    etcd_maint_op-Grounded = remove_or-Grounded false _ tt (
        destroy_or-Grounded false _ tt (
          add_first-Grounded (etcd_unstarted_members nf) _
            (All-map (IsUnstarted nf) (λ n. IsUnstarted nf n ⊎ IsNew nf n) (λ n h. inl h) _
              (etcd_unstarted_members-IsUnstarted nf))
            (mark_some-Grounded (etcd_unmarked_members nf) _ (etcd_unmarked_members-IsUnmarked nf)
              checked_good)))
