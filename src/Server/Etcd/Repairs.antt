-- ===== src/Server/Etcd/Repairs.antt =====
-- Which members of etcd may be out of sync while machines are repaired.
use cke.Prelude.{
  ◌≤◌, ◌+◌, ℕ, String, ◌≡◌, ◌⊎◌, inl, inr, refl, Bool, true, false, not, List, [], ◌∷◌, Option,
  none, some, All, arith, count_if, length, leb,
}
use cke.Cluster.{Node}
use cke.Server.{NodeFilter, node_status, find_node}
use cke.Server.Etcd.{count_in_sync, tolerated, etcd_is_good_for_repair}

abbrev pub is_in_sync : String × Bool → Bool
is_in_sync (address, b) = b

module _ (nf : NodeFilter) where
  -- Of a control plane node that is out of reach.
  abbrev pub IsLost : Option Node → Type 0
  IsLost none = ⊥
  IsLost (some n) = (n.control_plane ≡ true) × ((node_status nf n).ssh_connected ≡ false)

  abbrev pub InSyncOrLost : String × Bool → Type 0
  InSyncOrLost (address, b) = (b ≡ true) ⊎ IsLost (find_node nf address)

  tolerated-IsLost : (o : Option Node) → tolerated nf o ≡ true → IsLost o
  unfolding tolerated
  tolerated-IsLost none h = ground arith
  tolerated-IsLost (some n) h = ground arith

  count_in_sync_lem :
      (m : List (String × Bool)) (n k : ℕ)
      → count_in_sync nf m n ≡ some k
      → (k ≡ n + count_if is_in_sync m) × All InSyncOrLost m
  unfolding count_in_sync
  count_in_sync_lem [] n k h = ground arith
  count_in_sync_lem ((address, true) ∷ m) n k h =
      let (sum, rest) = count_in_sync_lem m (n + 1) k h in (omega arith, (inl refl, rest))
  count_in_sync_lem ((address, false) ∷ m) n k h =
      let (sum, rest) = count_in_sync_lem m n k (ground arith) in
      (omega arith, (inr (tolerated-IsLost (find_node nf address) (ground arith)), rest))

  in_or_out :
      (m : List (String × Bool))
      → count_if is_in_sync m + count_if (λ p. not (is_in_sync p)) m ≡ length m
  in_or_out [] = refl
  in_or_out ((address, true) ∷ m) = omega (arith, in_or_out m)
  in_or_out ((address, false) ∷ m) = omega (arith, in_or_out m)

  at_most_one :
      (o : Option ℕ) (control_plane_count : ℕ)
      → elim o [ none ↦ false | some n ↦ leb control_plane_count (n + 1) ] ≡ true
      → (n : ℕ) × (o ≡ some n) × (control_plane_count ≤ n + 1)
  at_most_one none c h = ground arith
  at_most_one (some n) c h = (n, refl, ground arith)

  -- Where etcd has no more members than the constraint asks for control plane nodes, repairs go on
  -- only while etcd is healthy and at most one of its members is out of sync, each such member on a
  -- control plane node of the cluster that is out of reach.
  pub etcd_is_good_for_repair_lem :
      (control_plane_count : ℕ)
      → length nf.status.etcd.in_sync_members ≤ control_plane_count
      → etcd_is_good_for_repair nf control_plane_count ≡ true
      → (nf.status.etcd.is_healthy ≡ true)
        × All InSyncOrLost nf.status.etcd.in_sync_members
        × (count_if (λ p. not (is_in_sync p)) nf.status.etcd.in_sync_members ≤ 1)
  unfolding etcd_is_good_for_repair
  etcd_is_good_for_repair_lem c few h =
      let members = nf.status.etcd.in_sync_members in
      let (n, counted, enough) = at_most_one (count_in_sync nf members 0) c (ground arith) in
      let (sum, all) = count_in_sync_lem members 0 n counted in
      (ground arith, all, omega (arith, in_or_out members))
