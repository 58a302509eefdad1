-- ===== src/Server/Etcd/Filters.antt =====
-- What the etcd filters return.
use cke.Prelude.{
  All-collect, All-one_if, ℕ, String, ◌≡◌, refl, ◌⊎◌, inl, inr, Bool, true, false, not, ◌&&◌,
  Option, none, some, All, All-mem, Memᴰ, mem-keep_if, arith, str_eq, eq_iff,
}
use cke.Cluster.{Node}
use cke.Server.{NodeFilter, Member, node_status, find_node, control_plane_nodes}
use cke.Server.Etcd.{
  has_key, in_sync, in_cluster, same_bool, etcd_is_good, etcd_non_cluster_members,
  etcd_non_cp_members, etcd_unstarted_members, etcd_unmarked_members, etcd_new_members, non_cp,
  unstarted, unmarked,
}

module _ (nf : NodeFilter) where
  -- Only out-of-sync members are touched while etcd is not good.
  abbrev OutOrGood : String → Type 0
  OutOrGood k = (in_sync nf k ≡ false) ⊎ (etcd_is_good nf ≡ true)

  abbrev pub IsForeign : Member → Type 0
  IsForeign m =
      (k : String) × Memᴰ (k, m) nf.status.etcd.members × (in_cluster nf k ≡ false) × OutOrGood k

  abbrev pub IsMisplaced : ℕ → Type 0
  IsMisplaced id =
      (k : String) × (m : Member) × Memᴰ (k, m) nf.status.etcd.members
      × (m.id ≡ id)
      × (n : Node) × (find_node nf k ≡ some n)
      × (n.control_plane ≡ false)
      × OutOrGood k

  abbrev pub IsUnstarted : Node → Type 0
  IsUnstarted n =
      (k : String) × (m : Member) × Memᴰ (k, m) nf.status.etcd.members
      × (find_node nf k ≡ some n)
      × (n.control_plane ≡ true)
      × (m.name ≡ "")

  abbrev pub IsNew : Node → Type 0
  IsNew n =
      (n.control_plane ≡ true)
      × (has_key n.address nf.status.etcd.members ≡ false)
      × (etcd_is_good nf ≡ true)

  abbrev pub IsUnmarked : Node → Type 0
  IsUnmarked n =
      (k : String) × Memᴰ (k, true) nf.status.etcd.in_sync_members
      × (find_node nf k ≡ some n)
      × (n.control_plane ≡ true)
      × ((node_status nf n).etcd.is_added_member ≡ false)

  -- What is known where `healthy` members are asked for.
  abbrev pub OutGood : Bool → Type 0
  OutGood true = etcd_is_good nf ≡ true
  OutGood false = Unit {0}

  abbrev pub Foreign : Bool → Member → Type 0
  Foreign healthy m =
      (k : String) × Memᴰ (k, m) nf.status.etcd.members
      × (in_cluster nf k ≡ false)
      × (in_sync nf k ≡ healthy)

  pub non_cluster-Foreign :
      (healthy : Bool) → All (Foreign healthy) (etcd_non_cluster_members nf healthy)
  unfolding etcd_non_cluster_members
  non_cluster-Foreign healthy = All-collect (Foreign healthy) _ nf.status.etcd.members (λ (k, v) i.
      All-one_if (Foreign healthy) (not (in_cluster nf k) && same_bool (in_sync nf k) healthy) v
        (λ t. (k, i, ground arith, ground arith)))

  abbrev pub Misplaced : Bool → Node × ℕ → Type 0
  Misplaced healthy (n, id) =
      (k : String) × (m : Member) × Memᴰ (k, m) nf.status.etcd.members
      × (m.id ≡ id)
      × (find_node nf k ≡ some n)
      × (n.control_plane ≡ false)
      × (in_sync nf k ≡ healthy)

  pub non_cp-Misplaced : (healthy : Bool) → All (Misplaced healthy) (etcd_non_cp_members nf healthy)
  unfolding etcd_non_cp_members
  non_cp-Misplaced healthy =
      All-collect (Misplaced healthy) _ nf.status.etcd.members
        (λ (k, v) i. one k v i (find_node nf k) refl)
    where
      one :
          (k : String) (v : Member)
          → Memᴰ (k, v) nf.status.etcd.members
          → (found : Option Node) → find_node nf k ≡ found
          → All (Misplaced healthy) (non_cp nf (same_bool (in_sync nf k) healthy) v found)
      one k v i none e = tt
      one k v i (some n) e =
          All-one_if (Misplaced healthy) (not n.control_plane && same_bool (in_sync nf k) healthy)
            (n, v.id) (λ t. (k, v, i, refl, e, ground arith, ground arith))

  pub etcd_unstarted_members-IsUnstarted : All IsUnstarted (etcd_unstarted_members nf)
  unfolding etcd_unstarted_members
  etcd_unstarted_members-IsUnstarted =
      All-collect IsUnstarted _ nf.status.etcd.members (λ (k, v) i. one k v i (find_node nf k) refl)
    where
      one :
          (k : String) (v : Member)
          → Memᴰ (k, v) nf.status.etcd.members
          → (found : Option Node) → find_node nf k ≡ found
          → All IsUnstarted (unstarted nf v found)
      one k v i none e = tt
      one k v i (some n) e =
          All-one_if IsUnstarted (n.control_plane && str_eq v.name "") n
            (λ t. (k, v, i, e, ground arith, ground (arith, eq_iff v.name "")))

  pub etcd_unmarked_members-IsUnmarked : All IsUnmarked (etcd_unmarked_members nf)
  unfolding etcd_unmarked_members
  etcd_unmarked_members-IsUnmarked =
      All-collect IsUnmarked _ nf.status.etcd.in_sync_members
        (λ (k, v) i. one k v i (find_node nf k) refl)
    where
      one :
          (k : String) (v : Bool)
          → Memᴰ (k, v) nf.status.etcd.in_sync_members
          → (found : Option Node) → find_node nf k ≡ found
          → All IsUnmarked (unmarked nf v found)
      one k v i none e = tt
      one k false i (some n) e = tt
      one k true i (some n) e =
          All-one_if IsUnmarked (n.control_plane && not (node_status nf n).etcd.is_added_member) n
            (λ t. (k, i, e, ground arith, ground arith))

  pub foreign : (healthy : Bool) (m : Member) → OutGood healthy → Foreign healthy m → IsForeign m
  foreign false m g (k, i, o, y) = (k, i, o, inl y)
  foreign true m g (k, i, o, y) = (k, i, o, inr g)

  pub misplaced :
      (healthy : Bool) (p : Node × ℕ) → OutGood healthy → Misplaced healthy p → IsMisplaced p.1
  misplaced false p g (k, m, i, x, f, c, y) = (k, m, i, x, p.0, f, c, inl y)
  misplaced true p g (k, m, i, x, f, c, y) = (k, m, i, x, p.0, f, c, inr g)

  pub etcd_new_members-IsNew : etcd_is_good nf ≡ true → All IsNew (etcd_new_members nf)
  unfolding etcd_new_members control_plane_nodes
  etcd_new_members-IsNew good = All-mem IsNew _ (λ n i.
      let (inside, fresh) = mem-keep_if _ (control_plane_nodes nf) i in
      let (listed, cp) = mem-keep_if _ nf.cluster.nodes inside in (cp, ground arith, good))
