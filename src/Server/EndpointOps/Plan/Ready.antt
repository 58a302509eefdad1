-- ===== src/Server/EndpointOps/Plan/Ready.antt =====
-- Which control plane nodes the endpoints of the API server show as ready.
use cke.Prelude.{
  String, ◌≡◌, refl, Bool, false, not, ◌&&◌, ◌||◌, List, [], ◌∷◌, ◌++◌, map, keep_if, any, str_eq,
  Option, none, some, arith,
}
use cke.Cluster.{Node}
use cke.Reboot.{RebootQueueEntry, RebootStatus, queued, draining, rebooting, cancelled, status_eq}
use cke.Reboot.Decide.{reboot_processing, find_processing, in_process}
use cke.Reboot.Dedup.{first_entry}
use cke.Server.{NodeFilter, control_plane_nodes, node_status}
use cke.Server.EndpointOps.Plan.{is_excluded, split_ready, master_endpoint_params}

keep_if-keep_if :
    (p q : Node → Bool) (ns : List Node) → keep_if p (keep_if q ns) ≡ keep_if (λ n. q n && p n) ns
keep_if-keep_if p q [] = refl
keep_if-keep_if p q (n ∷ ns) = ground (arith, keep_if-keep_if p q ns)

module _ (nf : NodeFilter) (marked : List String) where
  split_ready-ready :
      (ns : List Node)
      → (split_ready nf marked ns).0
        ≡ map (λ n. n.address) (keep_if (λ n. not (is_excluded nf marked n)) ns)
  unfolding split_ready
  split_ready-ready [] = refl
  split_ready-ready (n ∷ ns) = ground (arith, split_ready-ready ns)

  split_ready-rest :
      (ns : List Node)
      → (split_ready nf marked ns).1
        ≡ map (λ n. n.address) (keep_if (λ n. is_excluded nf marked n) ns)
  unfolding split_ready
  split_ready-rest [] = refl
  split_ready-rest (n ∷ ns) = ground (arith, split_ready-rest ns)

  abbrev pub is_healthy : Node → Bool
  is_healthy n = (node_status nf n).api_server.is_healthy

  -- The queue of reboots is enabled, and the first entry of the node in it is being drained or
  -- rebooted.
  abbrev is_active : Option RebootQueueEntry → Bool
  is_active none = false
  is_active (some e) = status_eq e.status draining || status_eq e.status rebooting

  abbrev pub under_reboot : Node → Bool
  under_reboot n =
      nf.status.reboot_queue.enabled
      && is_active (first_entry n.address nf.status.reboot_queue.entries)

  abbrev pub withheld : Node → Bool
  withheld n = under_reboot n || any (str_eq n.address) marked

  in_process_lem :
      (s : RebootStatus) → in_process s ≡ (status_eq s draining || status_eq s rebooting)
  unfolding in_process
  in_process_lem queued = refl
  in_process_lem draining = refl
  in_process_lem rebooting = refl
  in_process_lem cancelled = refl

  find_processing_lem :
      (node : String) (es : List RebootQueueEntry)
      → find_processing node es ≡ is_active (first_entry node es)
  unfolding find_processing
  find_processing_lem node [] = refl
  find_processing_lem node (e ∷ es) =
      ground (arith, find_processing_lem node es, in_process_lem e.status)

  is_excluded_lem : (n : Node) → is_excluded nf marked n ≡ withheld n
  unfolding reboot_processing
  is_excluded_lem n =
      let same = find_processing_lem n.address nf.status.reboot_queue.entries in ground arith

  -- The endpoints of the API server show as ready exactly the control plane nodes with a healthy API
  -- server that are neither under a reboot (the queue is enabled, and the first entry of the address
  -- is draining or rebooting) nor marked; as not ready first the other healthy ones, then the
  -- unhealthy ones; each in the order of the cluster.
  pub master_endpoint_params_lem :
      ((master_endpoint_params nf marked).ready_ips
        ≡ map
            (λ n. n.address)
            (keep_if (λ n. n.control_plane && is_healthy n && not (withheld n)) nf.cluster.nodes))
      × ((master_endpoint_params nf marked).not_ready_ips
          ≡ map
              (λ n. n.address)
              (keep_if (λ n. n.control_plane && is_healthy n && withheld n) nf.cluster.nodes)
            ++ map
                (λ n. n.address)
                (keep_if (λ n. n.control_plane && not (is_healthy n)) nf.cluster.nodes))
  unfolding master_endpoint_params control_plane_nodes
  master_endpoint_params_lem = (
    simp (split_ready-ready, keep_if-keep_if, is_excluded_lem),
    simp (split_ready-rest, keep_if-keep_if, is_excluded_lem),
  )
