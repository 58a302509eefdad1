-- ===== src/Server/Etcd.antt =====
-- The etcd filters of server/node_filter.go, and etcdMaintOp of server/strategy.go.
pub mod Filters
pub mod Maint
pub mod Repairs
use text.Mathlib.Text.{starts_with}
use cke.Prelude.{
  collect, one_if, ℕ, String, Bool, true, false, not, ◌&&◌, ◌||◌, List, [], ◌∷◌, ◌++◌, Option, none,
  some, any, keep_if, leb, ◌+◌, ◌-◌, str_eq, if◌then◌else◌, ltb, suc, map, ◌==◌,
}
use cke.Cluster.{Node, Cluster}
use cke.Params.{ServiceParams, equal}
use cke.Server.{
  NodeFilter, Member, EtcdStatus, node_status, find_node, control_plane_nodes, ssh_connected,
}

abbrev pub has_key : String → List (String × Member) → Bool
has_key k [] = false
has_key k ((j, v) ∷ m) = str_eq j k || has_key k m

-- A read of `InSyncMembers`: a missing key is false.
abbrev pub in_sync_at : List (String × Bool) → String → Bool
in_sync_at [] k = false
in_sync_at ((j, b) ∷ m) k = if str_eq j k then b else in_sync_at m k

abbrev pub same_bool : Bool → Bool → Bool
same_bool true b = b
same_bool false b = not b

module _ (nf : NodeFilter) where
  abbrev pub in_sync : String → Bool
  in_sync k = in_sync_at nf.status.etcd.in_sync_members k

  unfoldable pub in_cluster : String → Bool
  in_cluster address = elim (find_node nf address) [ none ↦ false | some n ↦ true ]

  unfoldable pub etcd_bootstrapped : Bool
  etcd_bootstrapped = any (λ n. (node_status nf n).etcd.has_data) (control_plane_nodes nf)

  all_in_sync : List (String × Member) → Bool
  all_in_sync [] = true
  all_in_sync ((k, v) ∷ m) = if not (in_sync k) then false else all_in_sync m

  unfoldable pub etcd_is_good : Bool
  unfolding all_in_sync
  etcd_is_good = if not nf.status.etcd.is_healthy then false else all_in_sync nf.status.etcd.members

  -- An out-of-sync member that a repair may bring back: on a control plane node out of reach.
  tolerated : Option Node → Bool
  tolerated none = false
  tolerated (some n) = n.control_plane && not (node_status nf n).ssh_connected

  -- The loop of EtcdIsGoodForRepair; `none` is its early return.
  count_in_sync : List (String × Bool) → ℕ → Option ℕ
  unfolding tolerated
  count_in_sync [] n = some n
  count_in_sync ((address, true) ∷ m) n = count_in_sync m (n + 1)
  count_in_sync ((address, false) ∷ m) n =
      let rest = count_in_sync m n in if tolerated (find_node nf address) then rest else none

  unfoldable pub etcd_is_good_for_repair : ℕ → Bool
  unfolding count_in_sync
  etcd_is_good_for_repair control_plane_count =
      if not nf.status.etcd.is_healthy
      then false
      else elim (count_in_sync nf.status.etcd.in_sync_members 0) [
        | none ↦ false
        | some n ↦ leb control_plane_count (n + 1)
      ]

  unfoldable pub etcd_stopped : List Node → List Node
  etcd_stopped targets =
      keep_if
        (λ n.
          not (not (has_key n.address nf.status.etcd.members) && nf.status.etcd.is_healthy)
          && (not (node_status nf n).etcd.service.running
              && (node_status nf n).etcd.is_added_member))
        targets

  unfoldable pub etcd_non_cluster_members : Bool → List Member
  etcd_non_cluster_members healthy =
      collect (λ (k, v). one_if (not (in_cluster k) && same_bool (in_sync k) healthy) v)
        nf.status.etcd.members

  abbrev non_cp : Bool → Member → Option Node → List (Node × ℕ)
  non_cp chosen v none = []
  non_cp chosen v (some n) = one_if (not n.control_plane && chosen) (n, v.id)

  -- The two results of EtcdNonCPMembers, as the list of their pairs.
  unfoldable pub etcd_non_cp_members : Bool → List (Node × ℕ)
  etcd_non_cp_members healthy =
      collect (λ (k, v). non_cp (same_bool (in_sync k) healthy) v (find_node nf k))
        nf.status.etcd.members

  abbrev unstarted : Member → Option Node → List Node
  unstarted v none = []
  unstarted v (some n) = one_if (n.control_plane && str_eq v.name "") n

  unfoldable pub etcd_unstarted_members : List Node
  etcd_unstarted_members = collect (λ (k, v). unstarted v (find_node nf k)) nf.status.etcd.members

  abbrev unmarked : Bool → Option Node → List Node
  unmarked v none = []
  unmarked v (some n) =
      one_if (v && (n.control_plane && not (node_status nf n).etcd.is_added_member)) n

  unfoldable pub etcd_unmarked_members : List Node
  etcd_unmarked_members =
      collect (λ (k, v). unmarked v (find_node nf k)) nf.status.etcd.in_sync_members

  unfoldable pub etcd_new_members : List Node
  etcd_new_members =
      keep_if (λ n. not (has_key n.address nf.status.etcd.members)) (control_plane_nodes nf)

-- Arguments that only matter when etcd starts for the first time are left out of the comparison.
abbrev runtime_arguments : List String → List String
runtime_arguments args = keep_if (λ s. not (starts_with s "--initial-")) args

unfoldable pub etcd_equal_params : ServiceParams → ServiceParams → Bool
etcd_equal_params running current =
    equal (record running { extra_arguments = runtime_arguments running.extra_arguments })
      (record current { extra_arguments = runtime_arguments current.extra_arguments })

-- The operations of etcdMaintOp, without the control plane nodes that they also take.
pub data EtcdOp : Type 0 where
  remove_member : List Member → EtcdOp
  destroy_member : List Node → List ℕ → EtcdOp
  add_member : Node → EtcdOp
  mark_member : List Node → EtcdOp
  restart : Node → EtcdOp

-- `if nodes := ...; len(nodes) > 0 { return ... }`, and what follows.
remove_some : List Member → Option EtcdOp → Option EtcdOp
remove_some [] next = next
remove_some (m ∷ ms) next = some (remove_member (m ∷ ms))

destroy_some : NodeFilter → List (Node × ℕ) → Option EtcdOp → Option EtcdOp
destroy_some nf [] next = next
destroy_some nf (p ∷ ps) next =
    some (destroy_member (ssh_connected nf (map (λ q. q.0) (p ∷ ps))) (map (λ q. q.1) (p ∷ ps)))

add_first : List Node → Option EtcdOp → Option EtcdOp
add_first [] next = next
add_first (n ∷ ns) next = some (add_member n)

mark_some : List Node → Option EtcdOp → Option EtcdOp
mark_some [] next = next
mark_some (n ∷ ns) next = some (mark_member (n ∷ ns))

restart_first : List Node → Option EtcdOp → Option EtcdOp
restart_first [] next = next
restart_first (n ∷ ns) next = some (restart n)

-- What `currentBuiltIn`, `currentExtra` and the name of the image are, is an argument.
module _ (built_in : Node → ServiceParams) (extra : ServiceParams) (image : String)
    (nf : NodeFilter) where
  abbrev pub is_outdated : Node → Bool
  is_outdated n =
      let st = (node_status nf n).etcd.service in
      st.running
      && (not (str_eq image st.image)
          || (not (etcd_equal_params st.built_in_params (built_in n))
              || not (etcd_equal_params st.extra_params extra)))

  unfoldable pub etcd_outdated_members : List Node
  etcd_outdated_members = keep_if is_outdated (control_plane_nodes nf)

  remove_or : Bool → Option EtcdOp → Option EtcdOp
  remove_or healthy next = remove_some (etcd_non_cluster_members nf healthy) next

  destroy_or : Bool → Option EtcdOp → Option EtcdOp
  destroy_or healthy next = destroy_some nf (etcd_non_cp_members nf healthy) next

  -- The second half, which wants all members in sync.
  maint_good : Option EtcdOp
  unfolding remove_or destroy_or remove_some destroy_some add_first restart_first mark_some
  maint_good =
      add_first (etcd_new_members nf)
        (remove_or true (destroy_or true (restart_first etcd_outdated_members none)))

  unfoldable pub etcd_maint_op : Option EtcdOp
  unfolding maint_good
  etcd_maint_op = remove_or false (
      destroy_or false (
        add_first (etcd_unstarted_members nf) (
          mark_some (etcd_unmarked_members nf)
            (if not (etcd_is_good nf) then none else maint_good))))
