-- ===== src/Server/NodeAttrs/Converge.antt =====
-- When one update of the attributes of a node is enough.
use cke.Prelude.{
  ◌≢◌, ◌≡◌, refl, sym, ◌⊎◌, inl, inr, Bool, true, false, List, Option, none, some, eq_iff, arith,
  Memᴰ, subst, Bool-cases, mem-any,
}
use cke.Cluster.{Node, Taint}
use cke.Server.{KubeNode}
use cke.Server.NodeAttrs.{
  last_taint, taints_differ, taints_outdated, updated, node_is_outdated, is_taint,
}
use cke.Server.NodeAttrs.Labels.{IsProper, labels_fresh, annotations_fresh}
use cke.Server.NodeAttrs.Taints.{taints_fresh}

-- Where the configuration of a node defines neither the label nor the taint that CKE gives to
-- control plane nodes, and no two taints of one key, the node is not outdated any more once its
-- attributes have been updated.
pub updated_fresh :
    (n : Node) (current : KubeNode) (taint_cp : Bool)
    → IsProper n
    → node_is_outdated n (updated n taint_cp current) taint_cp ≡ false
unfolding node_is_outdated updated
updated_fresh n current taint_cp p =
    rw
      (
        labels_fresh n p current.labels,
        annotations_fresh n p current.annotations,
        taints_fresh n p taint_cp current.taints,
      )
      refl

two_taints :
    (o : Option Taint) (s t : Taint)
    → is_taint o s ≡ true
    → is_taint o t ≡ true
    → (s.value ≡ t.value) × (s.effect ≡ t.effect)
two_taints none s t a b = cc
two_taints (some u) s t a b = (
  ground (arith, eq_iff s.value u.value, eq_iff t.value u.value),
  ground (arith, eq_iff s.effect u.effect, eq_iff t.effect u.effect),
)

taint_missing :
    (n : Node) (taints : List Taint) {s : Taint}
    → Memᴰ s n.taints
    → is_taint (last_taint s.key taints) s ≡ false
    → taints_differ n.taints taints ≡ true
taint_missing n taints {s} i h = mem-any _ n.taints i (rw h refl)

differ_of_two :
    (n : Node) (taints : List Taint) (s t : Taint)
    → Memᴰ s n.taints
    → Memᴰ t n.taints
    → s.key ≡ t.key
    → (s.value ≢ t.value) ⊎ (s.effect ≢ t.effect)
    → taints_differ n.taints taints ≡ true
differ_of_two n taints s t i j same differ =
    elim (Bool-cases (is_taint (last_taint s.key taints) s)) [
      | inr f ↦ taint_missing n taints i f
      | inl a ↦ elim (Bool-cases (is_taint (last_taint t.key taints) t)) [
        | inr f ↦ taint_missing n taints j f
        | inl b ↦
            let b' : is_taint (last_taint s.key taints) t ≡ true =
              subst (λ k. is_taint (last_taint k taints) t ≡ true) (sym same) b in
            let (v, e) = two_taints (last_taint s.key taints) s t a b' in
            elim differ [ inl d ↦ absurd (d v) | inr d ↦ absurd (d e) ]
      ]
    ]

-- A node whose configuration has two taints of one key, with different values or effects, is
-- outdated whatever its state is, also just after an update.
pub taints_never_fresh :
    (n : Node) (current : KubeNode) (taint_cp : Bool) (s t : Taint)
    → Memᴰ s n.taints
    → Memᴰ t n.taints
    → s.key ≡ t.key
    → (s.value ≢ t.value) ⊎ (s.effect ≢ t.effect)
    → node_is_outdated n current taint_cp ≡ true
unfolding node_is_outdated taints_outdated
taints_never_fresh n current taint_cp s t i j same differ =
    ground (arith, differ_of_two n current.taints s t i j same differ)
