-- ===== src/Server/Samples/Objects.antt =====
-- The theorems about etcd, reboots, endpoints and node attributes at concrete states.
use cke.Prelude.{
  ◌≡◌, ◌≢◌, refl, true, false, not, ◌&&◌, List, [], ◌∷◌, ◌++◌, some, Memᴰ, arith, str_eq, eq_iff,
  String, inr, map, keep_if,
}
use cke.Cluster.{nodename, Node, Taint}
use cke.Reboot.{
  RebootQueueEntry, RebootStatus, queued, rebooting, dedup_reboot_queue_entries, cluster_member,
}
use cke.Reboot.Decide.{
  get_reboot_queue_status, check_drain_completion, check_reboot_dequeue, check_reboot_cancelled,
  choose_reboot_candidates, reboot_processing,
}
use cke.Repair.Ops.{repair_ops}
use cke.Server.{
  ssh_not_connected, healthy_api_server, control_plane_nodes, KubeNode, NodeFilter, EndpointSubset,
}
use cke.Server.Decide.{repairs, cps}
use cke.Server.Decide.Names.{repairs_blind}
use cke.Server.EndpointOps.Decide.{
  endpoints_current, decide_ep_op, decide_ep_eps_ops, expected_endpoints, expected_slice,
}
use cke.Server.EndpointOps.Decide.Settled.{decide_ep_eps_ops_settled}
use cke.Server.EndpointOps.Decide.Shown.{Shows, decide_ep_op-Shows}
use cke.Server.EndpointOps.Plan.{master_endpoint_params}
use cke.Server.EndpointOps.Plan.Ready.{is_healthy, withheld, master_endpoint_params_lem}
use cke.Server.Etcd.{etcd_maint_op}
use cke.Server.Etcd.Maint.{Grounded, etcd_maint_op-Grounded}
use cke.Server.NodeAttrs.{node_is_outdated, updated}
use cke.Server.NodeAttrs.Converge.{updated_fresh, taints_never_fresh}
use cke.Server.RebootOps.{ssh_check_nodes, reboot_ops, reboot_drain_start}
use cke.Reboot.Commands.{Answers, drain_start, draining_entry}
use cke.Server.RebootOps.Run.{Follows, run, reboot_ops-run}
use cke.Server.Samples.{
  api, worker, cluster, constraints, status, settled, inputs, desired, no_reboots, master_endpoints,
}

etcd_maint_op-Grounded_example :
    Grounded settled desired.etcd cluster.options.etcd "etcd-2"
      (etcd_maint_op desired.etcd cluster.options.etcd "etcd-2" settled)
etcd_maint_op-Grounded_example =
    etcd_maint_op-Grounded settled desired.etcd cluster.options.etcd "etcd-2"

differ : (a b : String) → str_eq a b ≡ false → a ≢ b
differ a b e h = ground (arith, eq_iff a b)

abbrev entry : String → RebootStatus → RebootQueueEntry
entry node status = record {
  index = 0;
  node = node;
  status = status;
  last_transition_time = 0;
  drain_backoff_count = 0;
  drain_backoff_expire = 0;
}

-- One worker waits for its reboot.
abbrev waiting_worker : List RebootQueueEntry
waiting_worker = entry "10.0.0.4" queued ∷ []

abbrev with_reboot : NodeFilter
with_reboot = record settled {
  status = record status {
    reboot_queue = record no_reboots { entries = waiting_worker; next_candidates = waiting_worker };
  };
}

read_queue :
    get_reboot_queue_status cluster
      (λ _. false)
      (λ _. true)
      (λ _. some false)
      (λ _. false)
      61_000_000_000
      false
      waiting_worker
    ≡ some with_reboot.status.reboot_queue
unfolding get_reboot_queue_status check_drain_completion check_reboot_dequeue check_reboot_cancelled
    choose_reboot_candidates cluster_member dedup_reboot_queue_entries
read_queue = refl

starts :
    reboot_ops cluster constraints with_reboot ≡ reboot_drain_start (some api) waiting_worker ∷ []
unfolding reboot_ops ssh_not_connected ssh_check_nodes reboot_processing healthy_api_server
starts = refl

decide_ep_eps_ops_settled_example :
    decide_ep_eps_ops master_endpoints
      (some (expected_endpoints master_endpoints))
      (some (expected_slice master_endpoints))
    ≡ []
decide_ep_eps_ops_settled_example = decide_ep_eps_ops_settled master_endpoints

decide_ep_op-Shows_example :
    let actual = expected_endpoints master_endpoints in
    (s : EndpointSubset) × (actual.subsets ≡ s ∷ [])
    × (s.ports ≡ 6443 ∷ [])
    × Shows master_endpoints s
unfolding decide_ep_op endpoints_current
decide_ep_op-Shows_example =
    decide_ep_op-Shows master_endpoints (expected_endpoints master_endpoints) (((refl, tt), tt), tt)
      refl

master_endpoint_params_example :
    let ep = master_endpoint_params settled ("10.0.0.9" ∷ []) in
    let excluded = withheld settled ("10.0.0.9" ∷ []) in
    let healthy = is_healthy settled ("10.0.0.9" ∷ []) in
    (ep.ready_ips
      ≡ map
          (λ n. n.address)
          (keep_if (λ n. n.control_plane && healthy n && not (excluded n)) cluster.nodes))
    × (ep.not_ready_ips
        ≡ map
            (λ n. n.address)
            (keep_if (λ n. n.control_plane && healthy n && excluded n) cluster.nodes)
          ++ map (λ n. n.address) (keep_if (λ n. n.control_plane && not (healthy n)) cluster.nodes))
master_endpoint_params_example = master_endpoint_params_lem settled ("10.0.0.9" ∷ [])

abbrev dedicated : Taint
dedicated = record { key = "dedicated"; value = "storage"; effect = "NoSchedule" }

abbrev storage : Node
storage = record worker { labels = ("zone", "a") ∷ []; taints = dedicated ∷ [] }

-- It was a control plane node once, and has the label of one.
abbrev stale : KubeNode
stale = record {
  name = "10.0.0.4";
  conditions = [];
  labels = ("cke.cybozu.com/master", "true") ∷ ("zone", "b") ∷ [];
  annotations = [];
  unschedulable = false;
  taints = [];
}

updated_fresh_example : node_is_outdated storage (updated storage true stale) true ≡ false
updated_fresh_example = updated_fresh storage stale true (record {
  label_keys = (refl, tt);
  annotation_keys = tt;
  taint_keys = (refl, tt);
  no_master_label = refl;
  no_master_taint = refl;
})

abbrev also : Taint
also = record dedicated { effect = "NoExecute" }

abbrev twice : Node
twice = record worker { taints = dedicated ∷ also ∷ [] }

taints_never_fresh_example : node_is_outdated twice (updated twice true stale) true ≡ true
taints_never_fresh_example =
    taints_never_fresh twice (updated twice true stale) true dedicated also (Memᴰ.head refl)
      (Memᴰ.tail (Memᴰ.head refl)) refl (inr (differ "NoSchedule" "NoExecute" refl))

-- The control plane node has a hostname, and is being rebooted under its address.
abbrev named : NodeFilter
named = record settled {
  cluster = record cluster { nodes = record api { hostname = "api-1" } ∷ worker ∷ [] };
  status = record status {
    reboot_queue = record no_reboots { entries = entry "10.0.0.1" rebooting ∷ [] };
  };
}

repairs_blind_example :
    repairs inputs named
    ≡ repair_ops named.cluster status.repair_queue (cps inputs named) (λ _. false) inputs.now
unfolding control_plane_nodes nodename
repairs_blind_example = repairs_blind inputs named ((differ "10.0.0.1" "api-1" refl, tt), tt)

abbrev answers : Answers
answers = record {
  stores = λ _. true;
  deletes = λ _. true;
  stored = λ e. some e;
  kube_client = true;
  protected_namespaces = true;
  cordons = λ _. true;
  eviction_dry_run = λ _. true;
  evicts = λ _. true;
  deletes_daemon_set_pods = λ _. true;
  runs = λ _ _ _. true;
  interrupted = λ _ _. false;
  random = λ _. 7;
  now = 61_000_000_000;
  later = 62_000_000_000;
}

-- The waiting worker is stored as draining.
reboot_ops-run_example :
    Follows
      (dedup_reboot_queue_entries waiting_worker)
      (draining_entry cluster.reboot answers (entry "10.0.0.4" queued))
unfolding reboot_ops ssh_not_connected ssh_check_nodes reboot_processing healthy_api_server run
    drain_start
reboot_ops-run_example =
    reboot_ops-run cluster constraints with_reboot answers (λ _. false) (λ _. true)
      (λ _. some false) (λ _. false) 61_000_000_000 false waiting_worker
      (reboot_drain_start (some api) waiting_worker)
      (draining_entry cluster.reboot answers (entry "10.0.0.4" queued)) read_queue (Memᴰ.head refl)
      (Memᴰ.head refl)
