-- ===== src/Server/Samples/Members.antt =====
-- Members of etcd that are out of sync, while machines are repaired.
use cke.Prelude.{
  none, some, Memᴰ, String, ◌≡◌, ◌≤◌, refl, Bool, true, false, not, ◌||◌, List, [], ◌∷◌, All, arith,
  count_if, str_eq,
}
use cke.Samples.{host}
use cke.Cluster.Validate.{Accepts, validate_nodes}
use cke.Server.Nodes.{find_node-validate}
use cke.Server.{NodeFilter, find_node}
use cke.Server.Etcd.{etcd_is_good_for_repair}
use cke.Server.Etcd.Repairs.{is_in_sync, InSyncOrLost, etcd_is_good_for_repair_lem}
use cke.Server.Samples.{cluster, status, settled, status_of}

abbrev second_lost : List (String × Bool)
second_lost = ("10.0.0.1", true) ∷ ("10.0.0.2", false) ∷ ("10.0.0.3", true) ∷ []

-- Of three control plane nodes those of the given addresses are reachable.
abbrev with_members : (String → Bool) → List (String × Bool) → NodeFilter
with_members reached members = record settled {
  cluster = record cluster {
    nodes =
        host "10.0.0.1" true
        ∷ host "10.0.0.2" true
        ∷ host "10.0.0.3" true
        ∷ host "10.0.0.4" false
        ∷ [];
  };
  status = record status {
    node_statuses = λ a. status_of (reached a) (not (str_eq a "10.0.0.4"));
    etcd = record status.etcd { in_sync_members = members };
  };
}

abbrev degraded : NodeFilter
degraded = with_members (λ a. not (str_eq a "10.0.0.2")) second_lost

good_run : etcd_is_good_for_repair degraded 3 ≡ true
unfolding etcd_is_good_for_repair find_node
good_run = refl

etcd_is_good_for_repair_example :
    (true ≡ true)
    × All (InSyncOrLost degraded) second_lost
    × (count_if (λ p. not (is_in_sync p)) second_lost ≤ 1)
etcd_is_good_for_repair_example = etcd_is_good_for_repair_lem degraded 3 (omega arith) good_run

-- A member in sync that is of no control plane node is counted as one.
two_lost_run :
    etcd_is_good_for_repair
      (with_members
        (λ a. str_eq a "10.0.0.1" || str_eq a "10.0.0.4")
        (("10.0.0.1", true) ∷ ("10.0.0.2", false) ∷ ("10.0.0.3", false) ∷ ("10.0.0.4", true) ∷ []))
      3
    ≡ true
unfolding etcd_is_good_for_repair find_node
two_lost_run = refl

abbrev accepts : Accepts
accepts = record {
  address = λ a. not (str_eq a "");
  labels = λ _. true;
  annotations = λ _. true;
  taint_key = λ _. true;
  taint_value = λ _. true;
}

valid_nodes : validate_nodes accepts false degraded.cluster.nodes ≡ none
unfolding validate_nodes
valid_nodes = refl

find_node-validate_example : find_node degraded "10.0.0.2" ≡ some (host "10.0.0.2" true)
find_node-validate_example =
    find_node-validate accepts degraded (host "10.0.0.2" true) valid_nodes
      (Memᴰ.tail (Memᴰ.head refl))
