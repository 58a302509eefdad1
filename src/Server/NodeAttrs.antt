-- ===== src/Server/NodeAttrs.antt =====
-- nodeIsOutdated, isInternal and OutdatedAttrsNodes of server/node_filter.go: the labels,
-- annotations and taints of the Kubernetes nodes. A map is an association list with its keys once.
pub mod Maps
pub mod Labels
pub mod Taints
pub mod Converge
use text.Mathlib.Text.{starts_with, find?}
use cke.Prelude.{
  collect, ℕ, String, Bool, true, false, not, ◌&&◌, ◌||◌, List, [], ◌∷◌, ◌++◌, Option, none, some,
  any, keep_if, str_eq, if◌then◌else◌,
}
use cke.Params.{find_key, is_value}
use cke.Cluster.{Node, Cluster, Taint, nodename}
use cke.Server.{NodeFilter, KubeNode, all_nodes}

abbrev pub cke_annotation_reboot : String
cke_annotation_reboot = "cke.cybozu.com/reboot"

abbrev pub cke_label_master : String
cke_label_master = "cke.cybozu.com/master"

abbrev pub cke_taint_master : String
cke_taint_master = "cke.cybozu.com/master"

abbrev found : Option ℕ → Bool
found none = false
found (some i) = true

abbrev pub Attrs : Type 0
Attrs = List (String × String)

abbrev pub has_attr : String → Attrs → Bool
has_attr k [] = false
has_attr k ((j, v) ∷ m) = str_eq j k || has_attr k m

unfoldable pub is_internal : String → Node → Bool
is_internal name n =
    if str_eq name cke_annotation_reboot
    then false
    else if starts_with name "cke.cybozu.com/"
    then true
    else if found (find? name ".cke.cybozu.com/")
    then true
    else if any (λ (k, v). starts_with k "node-role.kubernetes.io/" && str_eq name k) n.labels
    then true
    else str_eq name "node-role.kubernetes.io/master"
      || str_eq name "node-role.kubernetes.io/control-plane"

-- The map from keys to taints: a later taint replaces an earlier one of the same key.
abbrev pub last_taint : String → List Taint → Option Taint
last_taint k [] = none
last_taint k (t ∷ ts) = elim (last_taint k ts) [
  | some s ↦ some s
  | none ↦ if str_eq t.key k then some t else none
]

abbrev pub has_taint : String → List Taint → Bool
has_taint k ts = any (λ (t : Taint). str_eq t.key k) ts

abbrev pub prefer_no_schedule : String
prefer_no_schedule = "PreferNoSchedule"

-- A key for internal use that the cluster does not define.
abbrev pub stray_label : Node → String → Bool
stray_label n k = is_internal k n && (not (str_eq k cke_label_master) && not (has_attr k n.labels))

abbrev pub stray_annotation : Node → String → Bool
stray_annotation n k = is_internal k n && not (has_attr k n.annotations)

abbrev pub stray_taint : Node → Taint → Bool
stray_taint n t =
    is_internal t.key n && (not (str_eq t.key cke_taint_master) && not (has_taint t.key n.taints))

abbrev pub attrs_differ : Attrs → Attrs → Bool
attrs_differ wanted current = any (λ (k, v). not (is_value (find_key k current) v)) wanted

abbrev is_taint : Option Taint → Taint → Bool
is_taint none t = false
is_taint (some s) t = str_eq t.value s.value && str_eq t.effect s.effect

abbrev pub taints_differ : List Taint → List Taint → Bool
taints_differ wanted current = any (λ t. not (is_taint (last_taint t.key current) t)) wanted

abbrev is_prefer : Option Taint → Bool
is_prefer none = false
is_prefer (some t) = str_eq t.effect prefer_no_schedule

pub labels_outdated : Node → Attrs → Bool
labels_outdated n labels =
    if attrs_differ n.labels labels
    then true
    else if any (λ (k, v). stray_label n k) labels
    then true
    else if n.control_plane
    then not (is_value (find_key cke_label_master labels) "true")
    else has_attr cke_label_master labels

pub annotations_outdated : Node → Attrs → Bool
annotations_outdated n annotations =
    if attrs_differ n.annotations annotations
    then true
    else any (λ (k, v). stray_annotation n k) annotations

pub taints_outdated : Node → Bool → List Taint → Bool
taints_outdated n taint_cp taints =
    if taints_differ n.taints taints
    then true
    else if any (stray_taint n) taints
    then true
    else if taint_cp && n.control_plane
    then not (is_prefer (last_taint cke_taint_master taints))
    else has_taint cke_taint_master taints

unfoldable pub node_is_outdated : Node → KubeNode → Bool → Bool
unfolding labels_outdated annotations_outdated taints_outdated
node_is_outdated n current taint_cp =
    if labels_outdated n current.labels
    then true
    else if annotations_outdated n current.annotations
    then true
    else taints_outdated n taint_cp current.taints

abbrev pub set_attr : String → String → Attrs → Attrs
set_attr k v [] = (k, v) ∷ []
set_attr k v ((j, w) ∷ m) = if str_eq j k then (k, v) ∷ m else (j, w) ∷ set_attr k v m

-- maps.Copy
abbrev pub copy_attrs : Attrs → Attrs → Attrs
copy_attrs m [] = m
copy_attrs m ((k, v) ∷ src) = copy_attrs (set_attr k v m) src

pub new_labels : Node → Attrs → Attrs
new_labels n labels =
    let copied = copy_attrs (keep_if (λ (k, v). not (is_internal k n)) labels) n.labels in
    if n.control_plane then set_attr cke_label_master "true" copied else copied

pub new_annotations : Node → Attrs → Attrs
new_annotations n annotations =
    copy_attrs (keep_if (λ (k, v). not (is_internal k n)) annotations) n.annotations

abbrev pub master_taint : Taint
master_taint = record { key = cke_taint_master; value = ""; effect = prefer_no_schedule }

pub new_taints : Node → Bool → List Taint → List Taint
new_taints n taint_cp taints =
    n.taints
    ++ (keep_if (λ t. not (is_internal t.key n || has_taint t.key n.taints)) taints
        ++ (if taint_cp && n.control_plane then master_taint ∷ [] else []))

-- The node as OutdatedAttrsNodes writes it.
unfoldable pub updated : Node → Bool → KubeNode → KubeNode
unfolding new_labels new_annotations new_taints
updated n taint_cp current = record current {
  labels = new_labels n current.labels;
  annotations = new_annotations n current.annotations;
  taints = new_taints n taint_cp current.taints;
}

-- The map from names: a later node replaces an earlier one of the same name.
last_named : String → List KubeNode → Option KubeNode
last_named name [] = none
last_named name (k ∷ ks) = elim (last_named name ks) [
  | some j ↦ some j
  | none ↦ if str_eq k.name name then some k else none
]

-- `*current` is written: the node is replaced under its name.
replace_named : KubeNode → List KubeNode → List KubeNode
replace_named new [] = []
replace_named new (k ∷ ks) = (if str_eq k.name new.name then new else k) ∷ replace_named new ks

-- One turn of the loop: the nodes that the map refers to, and the name of the one that is returned.
turn_of : Node → Bool → List KubeNode → Option KubeNode → List KubeNode × List String
unfolding replace_named
turn_of n taint_cp ks none = (ks, [])
turn_of n taint_cp ks (some current) =
    if node_is_outdated n current taint_cp
    then (replace_named (updated n taint_cp current) ks, nodename n ∷ [])
    else (ks, [])

outdated_from : Bool → List KubeNode → List Node → List KubeNode × List String
unfolding last_named turn_of
outdated_from taint_cp ks [] = (ks, [])
outdated_from taint_cp ks (n ∷ ns) =
    let (after, name) = turn_of n taint_cp ks (last_named (nodename n) ks) in
    let (end, names) = outdated_from taint_cp after ns in (end, name ++ names)

abbrev one_of : Option KubeNode → List KubeNode
one_of none = []
one_of (some k) = k ∷ []

-- The result holds references: what the last write left is read.
unfoldable pub outdated_attrs_nodes : NodeFilter → List KubeNode
unfolding outdated_from
outdated_attrs_nodes nf =
    let (end, names) =
      outdated_from nf.cluster.taint_cp nf.status.kubernetes.nodes (all_nodes nf) in
    collect (λ name. one_of (last_named name end)) names
