-- ===== src/Server/Components/Serving.antt =====
-- What runs on a node where no operation on the components is decided while every API server is
-- healthy.
use cke.Prelude.{
  ℕ, ◌≡◌, ◌⊎◌, true, false, not, any, List, [], ◌++◌, Memᴰ, keep_if, str_eq, arith, Bool-cases, inl,
  inr,
}
use cke.Cluster.{Node, nodename}
use cke.Server.{NodeFilter, KubeNode, node_status, all_nodes, ssh_connected}
use cke.Server.Operations.{
  Operation, if_some, if_some_most, rivers_boot, rivers_restart, etcd_rivers_boot,
  etcd_rivers_restart, controller_manager_boot, controller_manager_restart, scheduler_boot,
  scheduler_restart, kubelet_restart, proxy_boot, proxy_restart, proxy_stop,
}
use cke.Server.Services.{
  Desired, configured_outdated, rivers_stopped, rivers_outdated, etcd_rivers_stopped,
  etcd_rivers_outdated, api_server_stopped, api_server_outdated, controller_manager_stopped,
  controller_manager_outdated, scheduler_stopped, scheduler_outdated, kubelet_stopped,
  kubelet_outdated, proxy_stopped, proxy_outdated, proxy_running_unexpectedly, kubelet_unrecognized,
}
use cke.Server.Components.{
  cps, rivers_ops, api_servers_to_fix, k8s_ops, control_plane_ops, node_ops, boot_kubelets,
  in_place,
}
use cke.Server.Components.Runs.{
  Runs, service-Runs, configured-Runs, if_some_most-nil, if_some-nil, append-nil-both,
  none_reachable, cp-mem,
}
use cke.Server.Components.Settled.{IsSettled, k8s_ops-IsSettled, AllUp, AllUp-healthy}

module _ (d : Desired) (nf : NodeFilter) where
  -- The services of a control plane node, but for etcd.
  pub record ControlPlaneServes (n : Node) : Type 0 where
    pub etcd_rivers :
        Runs d.tools_image d.etcd_rivers nf.cluster.options.etcd_rivers
          (node_status nf n).etcd_rivers
    pub api_server :
        Runs d.kubernetes_image
          (d.api_server n)
          nf.cluster.options.api_server
          (node_status nf n).api_server.service
    pub controller_manager :
        Runs d.kubernetes_image d.controller_manager nf.cluster.options.controller_manager
          (node_status nf n).controller_manager.service
    pub scheduler :
        Runs d.kubernetes_image d.scheduler nf.cluster.options.scheduler
          (node_status nf n).scheduler.service
    pub scheduler_config : d.scheduler_config_current n ≡ true

  -- kube-proxy as it is configured.
  pub record ProxyServes (n : Node) : Type 0 where
    pub proxy :
        Runs d.kubernetes_image d.proxy nf.cluster.options.proxy (node_status nf n).proxy.service
    pub proxy_config : d.proxy_config_current n ≡ true

  pub record NodeServes (n : Node) : Type 0 where
    pub rivers : Runs d.tools_image d.rivers nf.cluster.options.rivers (node_status nf n).rivers
    pub kubelet : (node_status nf n).kubelet.service.running ≡ true
    pub registered :
        any (λ (k : KubeNode). str_eq k.name (nodename n)) nf.status.kubernetes.nodes ≡ true
    pub proxy_or_disabled :
        ((nf.cluster.options.proxy_disable ≡ true)
          × ((node_status nf n).proxy.service.running ≡ false))
        ⊎ ((nf.cluster.options.proxy_disable ≡ false) × ProxyServes n)
    pub control_plane : (n.control_plane ≡ false) ⊎ ControlPlaneServes n

  abbrev ssh : List Node → List Node
  ssh = ssh_connected nf

  most-nil :
      (max : ℕ) (ns : List Node) (f : List Node → Operation) (rest : List Operation)
      → if_some_most max ns f ++ rest ≡ []
      → (ns ≡ []) × (rest ≡ [])
  most-nil max ns f rest h =
      let (first, later) = append-nil-both (if_some_most max ns f) rest h in
      (if_some_most-nil max ns f first, later)

  some-nil :
      (ns : List Node) (f : List Node → Operation) (rest : List Operation)
      → if_some ns f ++ rest ≡ []
      → (ns ≡ []) × (rest ≡ [])
  some-nil ns f rest h =
      let (first, later) = append-nil-both (if_some ns f) rest h in (if_some-nil ns f first, later)

  rivers_ops-nil :
      (max : ℕ)
      → rivers_ops d nf max ≡ []
      → (ssh (rivers_stopped d nf (all_nodes nf)) ≡ [])
        × (ssh (rivers_outdated d nf (all_nodes nf)) ≡ [])
        × (ssh (etcd_rivers_stopped d nf (cps d nf)) ≡ [])
        × (ssh (etcd_rivers_outdated d nf (cps d nf)) ≡ [])
  unfolding rivers_ops
  rivers_ops-nil max h =
      let (a, h₁) = most-nil max (ssh (rivers_stopped d nf (all_nodes nf))) rivers_boot _ h in
      let (b, h₂) = most-nil max (ssh (rivers_outdated d nf (all_nodes nf))) rivers_restart _ h₁ in
      let (c, h₃) =
        most-nil max (ssh (etcd_rivers_stopped d nf (cps d nf))) etcd_rivers_boot _ h₂ in
      (
        a,
        b,
        c,
        if_some_most-nil max (ssh (etcd_rivers_outdated d nf (cps d nf))) etcd_rivers_restart h₃,
      )

  control_plane_ops-nil :
      control_plane_ops d nf ≡ []
      → (ssh (controller_manager_stopped d nf (cps d nf)) ≡ [])
        × (ssh (controller_manager_outdated d nf (cps d nf)) ≡ [])
        × (ssh (scheduler_stopped d nf (cps d nf)) ≡ [])
        × (ssh (scheduler_outdated d nf (cps d nf)) ≡ [])
  unfolding control_plane_ops
  control_plane_ops-nil h =
      let (a, h₁) =
        some-nil (ssh (controller_manager_stopped d nf (cps d nf))) controller_manager_boot _ h in
      let (b, h₂) =
        some-nil (ssh (controller_manager_outdated d nf (cps d nf))) controller_manager_restart _
          h₁ in
      let (c, h₃) = some-nil (ssh (scheduler_stopped d nf (cps d nf))) scheduler_boot _ h₂ in
      (a, b, c, if_some-nil (ssh (scheduler_outdated d nf (cps d nf))) scheduler_restart h₃)

  node_ops-nil :
      (max : ℕ)
      → node_ops d nf max ≡ []
      → (ssh (kubelet_unrecognized d nf (all_nodes nf)) ≡ [])
        × (ssh (kubelet_stopped d nf (all_nodes nf)) ≡ [])
        × (ssh (proxy_stopped d nf (all_nodes nf)) ≡ [])
        × (ssh (proxy_outdated d nf (all_nodes nf)) ≡ [])
        × (ssh (proxy_running_unexpectedly d nf (all_nodes nf)) ≡ [])
  unfolding node_ops
  node_ops-nil max h =
      let (a, h₁) =
        most-nil max (ssh (kubelet_unrecognized d nf (all_nodes nf))) kubelet_restart _ h in
      let (b, h₂) =
        most-nil max (ssh (kubelet_stopped d nf (all_nodes nf))) (boot_kubelets d nf) _ h₁ in
      let (c, h₃) =
        most-nil max (in_place d nf (ssh (kubelet_outdated d nf (all_nodes nf)))) kubelet_restart _
          h₂ in
      let (e, h₄) = most-nil max (ssh (proxy_stopped d nf (all_nodes nf))) proxy_boot _ h₃ in
      let (f, h₅) = most-nil max (ssh (proxy_outdated d nf (all_nodes nf))) proxy_restart _ h₄ in
      (
        a,
        b,
        e,
        f,
        if_some_most-nil max (ssh (proxy_running_unexpectedly d nf (all_nodes nf))) proxy_stop h₅,
      )

  module _ (max : ℕ) (r : rivers_ops d nf max ≡ []) (s : IsSettled d nf max) {n : Node}
      (m : Memᴰ n nf.cluster.nodes) (reach : (node_status nf n).ssh_connected ≡ true) where
    control_plane-Serves : n.control_plane ≡ true → ControlPlaneServes n
    unfolding api_servers_to_fix etcd_rivers_stopped etcd_rivers_outdated api_server_stopped
        api_server_outdated controller_manager_stopped controller_manager_outdated scheduler_stopped
        scheduler_outdated
    control_plane-Serves c =
        let at = cp-mem nf m c in
        let (_, _, rivers_on, rivers_new) = rivers_ops-nil max r in
        let (manager_on, manager_new, scheduler_on, scheduler_new) =
          control_plane_ops-nil s.control_planes in
        let (api_on, _) =
          append-nil-both (ssh (api_server_stopped d nf (cps d nf))) _ s.none_to_fix in
        let (scheduler, config) =
          configured-Runs _ _ _ _ _ (none_reachable nf _ (cps d nf) scheduler_on at reach)
            (none_reachable nf _ (cps d nf) scheduler_new at reach) in
        record {
          etcd_rivers =
              service-Runs _ _ _ _ (none_reachable nf _ (cps d nf) rivers_on at reach)
                (none_reachable nf _ (cps d nf) rivers_new at reach);
          api_server =
              service-Runs _ _ _ _ (none_reachable nf _ (cps d nf) api_on at reach)
                (none_reachable nf _ (cps d nf) s.none_to_update at reach);
          controller_manager =
              service-Runs _ _ _ _ (none_reachable nf _ (cps d nf) manager_on at reach)
                (none_reachable nf _ (cps d nf) manager_new at reach);
          scheduler = scheduler;
          scheduler_config = config;
        }

    proxy-Serves :
        ((nf.cluster.options.proxy_disable ≡ true)
          × ((node_status nf n).proxy.service.running ≡ false))
        ⊎ ((nf.cluster.options.proxy_disable ≡ false) × ProxyServes n)
    unfolding proxy_stopped proxy_outdated proxy_running_unexpectedly ssh_connected
    proxy-Serves =
        let (_, _, stopped, outdated, unexpected) = node_ops-nil max s.nodes in
        elim (Bool-cases nf.cluster.options.proxy_disable) [
          | inl off ↦
              let h : ssh (keep_if (λ k. (node_status nf k).proxy.service.running) nf.cluster.nodes)
                  ≡ [] =
                rw off at unexpected in
              inl (off, none_reachable nf _ nf.cluster.nodes h m reach)
          | inr used ↦
              let on : ssh
                    (keep_if (λ k. not (node_status nf k).proxy.service.running) nf.cluster.nodes)
                  ≡ [] =
                rw used at stopped in
              let new : ssh (
                    keep_if
                      (λ k.
                        configured_outdated d.kubernetes_image d.proxy nf.cluster.options.proxy
                          (d.proxy_config_current k) (node_status nf k).proxy.service)
                      nf.cluster.nodes)
                  ≡ [] =
                rw used at outdated in
              let (proxy, config) =
                configured-Runs _ _ _ _ _ (none_reachable nf _ nf.cluster.nodes on m reach)
                  (none_reachable nf _ nf.cluster.nodes new m reach) in
              inr (used, record { proxy = proxy; proxy_config = config })
        ]

    node-Serves : NodeServes n
    unfolding rivers_stopped rivers_outdated kubelet_stopped kubelet_unrecognized
    node-Serves =
        let (rivers_on, rivers_new, _, _) = rivers_ops-nil max r in
        let (unrecognized, stopped, _, _, _) = node_ops-nil max s.nodes in
        let runs = none_reachable nf _ nf.cluster.nodes stopped m reach in
        let known = none_reachable nf _ nf.cluster.nodes unrecognized m reach in
        record {
          rivers =
              service-Runs _ _ _ _ (none_reachable nf _ nf.cluster.nodes rivers_on m reach)
                (none_reachable nf _ nf.cluster.nodes rivers_new m reach);
          kubelet = ground arith;
          registered = ground arith;
          proxy_or_disabled = proxy-Serves;
          control_plane = elim (Bool-cases n.control_plane) [
            | inl c ↦ inr (control_plane-Serves c)
            | inr o ↦ inl o
          ];
        }

  pub settled-NodeServes :
      (max : ℕ) (n : Node)
      → AllUp d nf
      → rivers_ops d nf max ≡ []
      → k8s_ops d nf max ≡ []
      → Memᴰ n nf.cluster.nodes
      → (node_status nf n).ssh_connected ≡ true
      → NodeServes n
  settled-NodeServes max n up r k m reach =
      node-Serves max r (k8s_ops-IsSettled d nf max (AllUp-healthy d nf up) k) m reach
