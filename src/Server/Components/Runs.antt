-- ===== src/Server/Components/Runs.antt =====
-- Services that run as they should, and lists of operations that are empty.
use cke.Prelude.{
  ℕ, ◌≡◌, refl, subst, Bool, true, false, not, List, [], ◌∷◌, ◌++◌, String, Memᴰ, keep_if,
  keep_if-mem, eq_iff, arith, Bool-cases, inl, inr,
}
use cke.Cluster.{Node}
use cke.Params.{ServiceParams}
use cke.Params.Equality.{Same, equal_iff}
use cke.Server.{NodeFilter, ServiceStatus, node_status, control_plane_nodes, ssh_connected}
use cke.Server.Operations.{Operation, if_some, if_some_most}
use cke.Server.Services.{params_outdated, service_outdated, configured_outdated}

-- A service that runs with the wanted image and the wanted parameters.
pub record Runs (image : String) (built_in extra : ServiceParams) (st : ServiceStatus)
    : Type 0 where
  pub is_running : st.running ≡ true
  pub has_image : image ≡ st.image
  pub has_built_in : Same built_in st.built_in_params
  pub has_extra : Same extra st.extra_params

current-Runs :
    (image : String) (built_in extra : ServiceParams) (st : ServiceStatus)
    → st.running ≡ true
    → params_outdated image built_in extra st ≡ false
    → Runs image built_in extra st
unfolding params_outdated
current-Runs image built_in extra st r h = record {
  is_running = r;
  has_image = ground (arith, eq_iff image st.image);
  has_built_in = (equal_iff built_in st.built_in_params).0 (ground arith);
  has_extra = (equal_iff extra st.extra_params).0 (ground arith);
}

pub service-Runs :
    (image : String) (built_in extra : ServiceParams) (st : ServiceStatus)
    → not st.running ≡ false
    → service_outdated image built_in extra st ≡ false
    → Runs image built_in extra st
unfolding service_outdated
service-Runs image built_in extra st r h =
    current-Runs image built_in extra st (ground arith) (ground arith)

-- No operation for the nodes of a list: the list is empty.
pub if_some_most-nil :
    (max : ℕ) (ns : List Node) (f : List Node → Operation) → if_some_most max ns f ≡ [] → ns ≡ []
if_some_most-nil max [] f h = refl
if_some_most-nil max (n ∷ ns) f h = cc

pub if_some-nil : (ns : List Node) (f : List Node → Operation) → if_some ns f ≡ [] → ns ≡ []
if_some-nil [] f h = refl
if_some-nil (n ∷ ns) f h = cc

pub append-nil-both : {A : Type 0} (xs ys : List A) → xs ++ ys ≡ [] → (xs ≡ []) × (ys ≡ [])
append-nil-both [] ys h = (refl, h)
append-nil-both (x ∷ xs) ys h = cc

-- No node of the list passes the test.
none_left :
    (p : Node → Bool) (ns : List Node) {n : Node} → keep_if p ns ≡ [] → Memᴰ n ns → p n ≡ false
none_left p ns {n} h m = elim (Bool-cases (p n)) [
  | inr f ↦ f
  | inl t ↦ elim (subst (Memᴰ n) h (keep_if-mem p ns m t)) [ ]
]

module _ (nf : NodeFilter) where
  -- No reachable node of the list passes the test.
  pub none_reachable :
      (p : Node → Bool) (ns : List Node) {n : Node}
      → ssh_connected nf (keep_if p ns) ≡ []
      → Memᴰ n ns
      → (node_status nf n).ssh_connected ≡ true
      → p n ≡ false
  unfolding ssh_connected
  none_reachable p ns {n} h m reach = elim (Bool-cases (p n)) [
    | inr f ↦ f
    | inl t ↦
        let off =
          none_left (λ k. (node_status nf k).ssh_connected) (keep_if p ns) h
            (keep_if-mem p ns m t) in
        cc
  ]

  pub cp-mem :
      {n : Node}
      → Memᴰ n nf.cluster.nodes
      → n.control_plane ≡ true
      → Memᴰ n (control_plane_nodes nf)
  unfolding control_plane_nodes
  cp-mem m c = keep_if-mem (λ n. n.control_plane) nf.cluster.nodes m c

pub configured-Runs :
    (image : String) (built_in extra : ServiceParams) (current : Bool) (st : ServiceStatus)
    → not st.running ≡ false
    → configured_outdated image built_in extra current st ≡ false
    → Runs image built_in extra st × (current ≡ true)
unfolding configured_outdated
configured-Runs image built_in extra current st r h =
    (current-Runs image built_in extra st (ground arith) (ground arith), ground arith)
