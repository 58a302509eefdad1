-- ===== src/Server/Components/OneByOne.antt =====
-- When API servers are started or replaced.
use cke.Prelude.{
  ℕ, ◌≡◌, refl, ◌⊎◌, inl, inr, Bool, true, false, not, List, [], ◌∷◌, if◌then◌else◌, All,
  All-append, All-mem, mem-keep_if, Memᴰ, arith, Bool-cases, keep_if,
}
use cke.Cluster.{Node}
use cke.Server.{
  NodeFilter, node_status, all_nodes, control_plane_nodes, ssh_connected, ssh_not_connected,
  healthy_api_server,
}
use cke.Server.Every.{
  Every, none_left, one_more, Every-append, Every-map, Every-if_some, Every-if_some_most,
}
use cke.Server.EndpointOps.Plan.{api_server_unhealthy}
use cke.Server.Operations.{
  Operation, rivers_boot, rivers_restart, etcd_rivers_boot, etcd_rivers_restart, endpoint,
  api_server_restart, controller_manager_boot, controller_manager_restart, scheduler_boot,
  scheduler_restart, kubelet_boot, kubelet_restart, proxy_boot, proxy_restart, proxy_stop,
}
use cke.Server.Services.{
  Desired, api_server_stopped, api_server_outdated, registered_nodes, api_server_is_outdated,
  kubelet_unrecognized, kubelet_stopped, kubelet_outdated, proxy_stopped, proxy_outdated,
  proxy_running_unexpectedly,
}
use cke.Server.Components.{
  cps, rivers_ops, is_some_node, in_place, api_servers_to_fix, endpoint_updates_if_healthy,
  not_all_healthy, update_one, from_fix, api_server_ops, control_plane_ops, node_ops, k8s_ops,
}

-- The operations on components other than the API server.
abbrev pub is_component : Operation → Bool
is_component (endpoint _) = true
is_component (rivers_boot _) = true
is_component (rivers_restart _) = true
is_component (etcd_rivers_boot _) = true
is_component (etcd_rivers_restart _) = true
is_component (controller_manager_boot _) = true
is_component (controller_manager_restart _) = true
is_component (scheduler_boot _) = true
is_component (scheduler_restart _) = true
is_component (kubelet_boot _ _) = true
is_component (kubelet_restart _) = true
is_component (proxy_boot _) = true
is_component (proxy_restart _) = true
is_component (proxy_stop _) = true
is_component _ = false

module _ (d : Desired) (nf : NodeFilter) where
  abbrev api_running : Node → Bool
  api_running n = (node_status nf n).api_server.service.running

  abbrev api_healthy : Node → Bool
  api_healthy n = (node_status nf n).api_server.is_healthy

  -- Nothing is lost: the API server of the node is down or unhealthy.
  abbrev pub NoLoss : Node → Type 0
  NoLoss n = (api_running n ≡ false) ⊎ (api_healthy n ≡ false)

  -- One API server alone, while every control plane node is reachable and has a healthy one.
  abbrev pub AloneOf : List Node → Type 0
  AloneOf ns =
      ((n : Node) × (ns ≡ n ∷ []))
      × (ssh_not_connected nf (cps d nf) ≡ [])
      × (api_server_unhealthy nf (cps d nf) ≡ [])

  abbrev pub OneByOne : List Node → Type 0
  OneByOne ns =
      All (λ n. (n.control_plane ≡ true) × ((node_status nf n).ssh_connected ≡ true)) ns
      × (All NoLoss ns ⊎ AloneOf ns)

  abbrev pub Rule : Operation → Type 0
  Rule (api_server_restart ns) = OneByOne ns
  Rule op = is_component op ≡ true

  pub rivers_ops-Rule : (max : ℕ) → Every Rule (rivers_ops d nf max)
  unfolding rivers_ops
  rivers_ops-Rule max = Every-append (Every-if_some_most max _ rivers_boot refl) (
      Every-append (Every-if_some_most max _ rivers_restart refl) (
        Every-append (Every-if_some_most max _ etcd_rivers_boot refl)
          (Every-if_some_most max _ etcd_rivers_restart refl)))

  control_plane_ops-Rule : Every Rule (control_plane_ops d nf)
  unfolding control_plane_ops
  control_plane_ops-Rule = Every-append (Every-if_some _ controller_manager_boot refl) (
      Every-append (Every-if_some _ controller_manager_restart refl) (
        Every-append (Every-if_some _ scheduler_boot refl)
          (Every-if_some _ scheduler_restart refl)))

  abbrev on_nodes : (List Node → List Node) → List Node
  on_nodes stage = ssh_connected nf (stage (all_nodes nf))

  node_ops-Rule : (max : ℕ) → Every Rule (node_ops d nf max)
  unfolding node_ops
  node_ops-Rule max =
      Every-append
        (Every-if_some_most max (on_nodes (kubelet_unrecognized d nf)) kubelet_restart refl)
        (Every-append
          (Every-if_some_most max (on_nodes (kubelet_stopped d nf))
            (λ ns. kubelet_boot ns (registered_nodes d nf ns)) refl)
          (Every-append
            (Every-if_some_most max (in_place d nf (on_nodes (kubelet_outdated d nf)))
              kubelet_restart refl)
            (Every-append (Every-if_some_most max (on_nodes (proxy_stopped d nf)) proxy_boot refl) (
              Every-append
                (Every-if_some_most max (on_nodes (proxy_outdated d nf)) proxy_restart refl)
                (Every-if_some_most max (on_nodes (proxy_running_unexpectedly d nf)) proxy_stop
                  refl)))))

  abbrev Reached : Node → Type 0
  Reached n = (n.control_plane ≡ true) × ((node_status nf n).ssh_connected ≡ true)

  -- A reachable node of a part of the control plane nodes.
  reached :
      (p : Node → Bool) (ns : List Node) {n : Node}
      → ((m : Node) → Memᴰ m ns → Memᴰ m (cps d nf))
      → Memᴰ n (ssh_connected nf (keep_if p ns))
      → Reached n × (p n ≡ true) × Memᴰ n ns
  unfolding ssh_connected control_plane_nodes
  reached p ns {n} part i =
      let (inside, up) = mem-keep_if (λ m. (node_status nf m).ssh_connected) (keep_if p ns) i in
      let (listed, passes) = mem-keep_if p ns inside in
      let (node, cp) = mem-keep_if (λ m. m.control_plane) nf.cluster.nodes (part n listed) in
      ((cp, up), passes, listed)

  stopped-NoLoss :
      (n : Node)
      → Memᴰ n (ssh_connected nf (api_server_stopped d nf (cps d nf)))
      → Reached n × NoLoss n
  unfolding api_server_stopped
  stopped-NoLoss n i =
      let (r, p, _) = reached (λ m. not (api_running m)) (cps d nf) (λ m j. j) i in
      (r, inl (ground arith))

  unhealthy-NoLoss :
      (n : Node)
      → Memᴰ n (ssh_connected nf (api_server_outdated d nf (api_server_unhealthy nf (cps d nf))))
      → Reached n × NoLoss n
  unfolding api_server_outdated api_server_unhealthy
  unhealthy-NoLoss n i =
      let sick = λ (m : Node). not (api_healthy m) in
      let (r, p, u) =
        reached (api_server_is_outdated d nf) (keep_if sick (cps d nf))
          (λ m j. (mem-keep_if sick (cps d nf) j).0) i in
      let (listed, unwell) = mem-keep_if sick (cps d nf) u in (r, inr (ground arith))

  abbrev Fixes : List Node → Type 0
  Fixes ns = All (λ n. Reached n × NoLoss n) ns

  to_fix-Fixes : Fixes (api_servers_to_fix d nf)
  unfolding api_servers_to_fix
  to_fix-Fixes =
      All-append (λ n. Reached n × NoLoss n) (ssh_connected nf (api_server_stopped d nf (cps d nf)))
        (ssh_connected nf (api_server_outdated d nf (api_server_unhealthy nf (cps d nf))))
        (All-mem _ _ stopped-NoLoss) (All-mem _ _ unhealthy-NoLoss)

  fixed : (ns : List Node) → Fixes ns → OneByOne ns
  fixed ns h = (firsts ns h, inl (seconds ns h))
    where
      firsts : (ms : List Node) → Fixes ms → All Reached ms
      firsts [] k = tt
      firsts (m ∷ ms) k = (k.0.0, firsts ms k.1)

      seconds : (ms : List Node) → Fixes ms → All NoLoss ms
      seconds [] k = tt
      seconds (m ∷ ms) k = (k.0.1, seconds ms k.1)

  update_one-Rule :
      (ns : List Node)
      → not_all_healthy d nf ≡ false
      → All Reached ns
      → Every Rule (update_one d nf ns).0
  unfolding update_one
  update_one-Rule [] h r = Every-map endpoint _ (λ o. refl)
  update_one-Rule (n ∷ ns) h r =
      Every-append (Every-map endpoint _ (λ o. refl))
        (one_more ((r.0, tt), inr ((n, refl), ground arith, ground arith)) none_left)

  endpoint_updates-Rule : Every Rule (endpoint_updates_if_healthy d nf)
  endpoint_updates-Rule =
      if_lem (is_some_node d nf (healthy_api_server nf)) _ (Every-map endpoint _ (λ o. refl))
    where
      if_lem :
          (b : Bool) (ops : List Operation) → Every Rule ops → Every Rule (if b then ops else [])
      if_lem true ops h = h
      if_lem false ops h = none_left

  outdated-Reached : All Reached (ssh_connected nf (api_server_outdated d nf (cps d nf)))
  unfolding api_server_outdated
  outdated-Reached =
      All-mem _ _ (λ n i. (reached (api_server_is_outdated d nf) (cps d nf) (λ m j. j) i).0)

  from_fix-Rule : (ns : List Node) → Fixes ns → Every Rule (from_fix d nf ns).0
  unfolding from_fix
  from_fix-Rule (n ∷ ns) h =
      Every-append endpoint_updates-Rule (one_more (fixed (n ∷ ns) h) none_left)
  from_fix-Rule [] h = elim (Bool-cases (not_all_healthy d nf)) [
    | inl bad ↦ rw bad endpoint_updates-Rule
    | inr good ↦ rw good (update_one-Rule _ good outdated-Reached)
  ]

  pub k8s_ops-Rule : (max : ℕ) → Every Rule (k8s_ops d nf max)
  unfolding k8s_ops api_server_ops
  k8s_ops-Rule max = elim (Bool-cases (from_fix d nf (api_servers_to_fix d nf)).1) [
    | inl skip ↦ rw skip (from_fix-Rule _ to_fix-Fixes)
    | inr go ↦ rw go (
        Every-append (from_fix-Rule _ to_fix-Fixes)
          (Every-append control_plane_ops-Rule (node_ops-Rule max)))
  ]
