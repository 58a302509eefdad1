-- ===== src/Repair/Ops/Names.antt =====
-- Repairs while API servers are rebooted, by the names that repairOps compares.
use cke.Prelude.{String, ◌≡◌, refl, Bool, false, List, [], ◌∷◌, All, arith}
use cke.Cluster.{Node, nodename, Cluster, Time}
use cke.Repair.Ops.{RepairQueueStatus, rebooting_api_servers, repair_ops}

none_rebooting :
    (is_rebooting : String → Bool) (cps : List Node)
    → All (λ n. is_rebooting (nodename n) ≡ false) cps
    → rebooting_api_servers is_rebooting cps ≡ []
unfolding rebooting_api_servers
none_rebooting is_rebooting [] h = refl
none_rebooting is_rebooting (n ∷ cps) h = ground (arith, none_rebooting is_rebooting cps h.1)

pub repair_ops_blind :
    (c : Cluster) (rqs : RepairQueueStatus) (cps : List Node) (is_rebooting : String → Bool)
    (now : Time)
    → All (λ n. is_rebooting (nodename n) ≡ false) cps
    → repair_ops c rqs cps is_rebooting now ≡ repair_ops c rqs cps (λ _. false) now
unfolding repair_ops
repair_ops_blind c rqs cps is_rebooting now h =
    simp (none_rebooting is_rebooting cps h, none_rebooting (λ _. false) cps (idle cps))
  where
    idle : (ns : List Node) → All (λ n. ◌≡◌ {A = Bool} false false) ns
    idle [] = tt
    idle (n ∷ ns) = (refl, idle ns)
