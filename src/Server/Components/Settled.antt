-- ===== src/Server/Components/Settled.antt =====
-- Where no operation on the components is decided while every API server is healthy.
use cke.Prelude.{
  ℕ, ◌≡◌, refl, Bool, true, false, not, List, [], ◌∷◌, ◌++◌, Memᴰ, keep_if, mem-keep_if, arith,
  if◌then◌else◌,
}
use cke.Cluster.{Node}
use cke.Server.{NodeFilter, node_status, control_plane_nodes, ssh_connected, ssh_not_connected}
use cke.Server.EndpointOps.Plan.{api_server_unhealthy}
use cke.Server.Operations.{Operation}
use cke.Server.Services.{Desired, api_server_outdated}
use cke.Server.Components.{
  cps, not_all_healthy, api_servers_to_fix, k8s_ops, api_server_ops, from_fix, update_one,
  control_plane_ops, node_ops,
}
use cke.Server.Components.Runs.{append-nil-both}

module _ (d : Desired) (nf : NodeFilter) where
  -- What is left where no operation on the components is decided.
  pub record IsSettled (max : ℕ) : Type 0 where
    pub none_to_fix : api_servers_to_fix d nf ≡ []
    pub none_to_update : ssh_connected nf (api_server_outdated d nf (cps d nf)) ≡ []
    pub control_planes : control_plane_ops d nf ≡ []
    pub nodes : node_ops d nf max ≡ []

  ends : (xs : List Operation) (o : Operation) → xs ++ o ∷ [] ≡ [] → ⊥
  ends [] o h = cc
  ends (x ∷ xs) o h = cc

  abbrev rest_of : ℕ → List Operation × Bool → List Operation
  rest_of max r = if r.1 then r.0 else r.0 ++ (control_plane_ops d nf ++ node_ops d nf max)

  update_one-nil :
      (max : ℕ) (ns : List Node)
      → rest_of max (update_one d nf ns) ≡ []
      → (ns ≡ []) × (control_plane_ops d nf ≡ []) × (node_ops d nf max ≡ [])
  unfolding update_one
  update_one-nil max [] h =
      let (_, both) = append-nil-both (update_one d nf []).0 _ h in
      let (control_planes, nodes) = append-nil-both (control_plane_ops d nf) _ both in
      (refl, control_planes, nodes)
  update_one-nil max (n ∷ ns) h = absurd (ends _ _ h)

  from_fix-nil :
      (max : ℕ) (ns : List Node)
      → not_all_healthy d nf ≡ false
      → rest_of max (from_fix d nf ns) ≡ []
      → (ns ≡ [])
        × (rest_of max (update_one d nf (ssh_connected nf (api_server_outdated d nf (cps d nf))))
            ≡ [])
  unfolding from_fix
  from_fix-nil max [] healthy h = (refl, rw healthy at h)
  from_fix-nil max (n ∷ ns) healthy h = absurd (ends _ _ h)

  pub k8s_ops-IsSettled :
      (max : ℕ) → not_all_healthy d nf ≡ false → k8s_ops d nf max ≡ [] → IsSettled max
  unfolding k8s_ops api_server_ops
  k8s_ops-IsSettled max healthy h =
      let (none_to_fix, h₁) = from_fix-nil max (api_servers_to_fix d nf) healthy h in
      let (none_to_update, control_planes, nodes) = update_one-nil max _ h₁ in
      record {
        none_to_fix = none_to_fix;
        none_to_update = none_to_update;
        control_planes = control_planes;
        nodes = nodes;
      }

  -- Every control plane node is reachable, and its API server is healthy.
  abbrev pub AllUp : Type 0
  AllUp =
      (n : Node)
      → Memᴰ n nf.cluster.nodes
      → n.control_plane ≡ true
      → ((node_status nf n).ssh_connected ≡ true)
        × ((node_status nf n).api_server.is_healthy ≡ true)

  keep_if-nil :
      (p : Node → Bool) (ns : List Node)
      → ((n : Node) → Memᴰ n ns → p n ≡ false)
      → keep_if p ns ≡ []
  keep_if-nil p [] h = refl
  keep_if-nil p (n ∷ ns) h =
      let first = h n (Memᴰ.head refl) in
      let rest = keep_if-nil p ns (λ k m. h k (Memᴰ.tail m)) in ground arith

  pub AllUp-healthy : AllUp → not_all_healthy d nf ≡ false
  unfolding ssh_not_connected api_server_unhealthy control_plane_nodes
  AllUp-healthy up =
      let seen : (n : Node) → Memᴰ n (cps d nf) → _ =
        λ n m. (let (k, c) = mem-keep_if (λ n. n.control_plane) nf.cluster.nodes m in up n k c) in
      let reach =
        keep_if-nil (λ n. not (node_status nf n).ssh_connected) (cps d nf)
          (λ n m. let (r, a) = seen n m in ground arith) in
      let healthy =
        keep_if-nil (λ n. not (node_status nf n).api_server.is_healthy) (cps d nf)
          (λ n m. let (r, a) = seen n m in ground arith) in
      rw (reach, healthy) refl
