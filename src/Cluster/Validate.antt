-- ===== src/Cluster/Validate.antt =====
-- The nodes and the trusted REST mappings in Validate of cluster.go, and LookupTrustedRESTMapping of
-- resource.go. What net.ParseIP and the validation of Kubernetes accept are arguments.
pub mod Mappings
pub mod Nodes
pub mod Names
pub mod Numbers
pub mod Options
pub mod Whole
mod Samples
use Prim.Native.String.{◌++◌ as str_append}
use cke.Prelude.{
  ℕ, ◌+◌, String, Bool, true, false, not, ◌&&◌, List, [], ◌∷◌, Option, none, some, any, str_eq,
  if◌then◌else◌,
}
use cke.Cluster.{Taint, Node, TrustedRestMapping}

pub data ConfigError : Type 0 where
  address_not_empty invalid_address user_empty invalid_labels invalid_annotations : ConfigError
  invalid_taint : ConfigError
  duplicate_address : String → ConfigError
  name_empty invalid_cidr invalid_toleration invalid_dns_service invalid_selector : ConfigError
  invalid_config invalid_domain cri_endpoint_empty : ConfigError
  cni_name_empty invalid_cni audit_policy_empty invalid_audit_policy : ConfigError
  unexpected_version wrong_kind : String → ConfigError
  invalid_file_name invalid_proxy_mode not_positive negative invalid_dns_server :
      String → ConfigError
  source_not_absolute destination_not_absolute : String → ConfigError
  version_empty kind_empty resource_empty duplicate_mapping : ℕ → ConfigError

-- `if err != nil { return err }`, and what follows it. `none` is a nil error.
abbrev pub and_then : Option ConfigError → Option ConfigError → Option ConfigError
and_then none next = next
and_then (some e) next = some e

abbrev pub unless : Bool → ConfigError → Option ConfigError
unless ok e = if ok then none else some e

-- What the libraries accept.
pub record Accepts : Type 0 where
  pub address : String → Bool
  pub labels : List (String × String) → Bool
  pub annotations : List (String × String) → Bool
  pub taint_key : String → Bool
  pub taint_value : String → Bool

module _ (accepts : Accepts) where
  abbrev pub is_effect : String → Bool
  is_effect effect = any (str_eq effect) ("NoSchedule" ∷ "PreferNoSchedule" ∷ "NoExecute" ∷ [])

  validate_taint : Taint → Option ConfigError
  validate_taint t =
      unless (accepts.taint_key t.key && (accepts.taint_value t.value && is_effect t.effect))
        invalid_taint

  pub validate_node_taints : List Taint → Option ConfigError
  unfolding validate_taint
  validate_node_taints [] = none
  validate_node_taints (t ∷ ts) = and_then (validate_taint t) (validate_node_taints ts)

  validate_address : Bool → String → Option ConfigError
  validate_address true address = unless (str_eq address "") address_not_empty
  validate_address false address = unless (accepts.address address) invalid_address

  validate_node : Bool → Node → Option ConfigError
  unfolding validate_node_taints validate_address
  validate_node is_template n = and_then (validate_address is_template n.address) (
      and_then (unless (not (str_eq n.user "")) user_empty) (
        and_then (unless (accepts.labels n.labels) invalid_labels) (
          and_then (unless (accepts.annotations n.annotations) invalid_annotations)
            (validate_node_taints n.taints))))

  abbrev pub remember : Bool → String → List String → List String
  remember true address seen = seen
  remember false address seen = address ∷ seen

  -- The loop over the nodes. `seen` are the keys of nodeAddressSet.
  pub validate_from : Bool → List String → List Node → Option ConfigError
  unfolding validate_node
  validate_from is_template seen [] = none
  validate_from is_template seen (n ∷ ns) = and_then (validate_node is_template n) (
      and_then (unless (not (any (str_eq n.address) seen)) (duplicate_address n.address))
        (validate_from is_template (remember is_template n.address seen) ns))

  unfoldable pub validate_nodes : Bool → List Node → Option ConfigError
  unfolding validate_from
  validate_nodes is_template nodes = validate_from is_template [] nodes

abbrev pub mapping_key : TrustedRestMapping → String
mapping_key m = str_append m.group (str_append "/" (str_append m.version (str_append "/" m.kind)))

-- The loop over the mappings from the i-th on. `seen` are the keys of the earlier ones.
validate_mappings_from : ℕ → List String → List TrustedRestMapping → Option ConfigError
validate_mappings_from i seen [] = none
validate_mappings_from i seen (m ∷ ms) =
    and_then (unless (not (str_eq m.version "")) (version_empty i)) (
      and_then (unless (not (str_eq m.kind "")) (kind_empty i)) (
        and_then (unless (not (str_eq m.resource "")) (resource_empty i)) (
          and_then (unless (not (any (str_eq (mapping_key m)) seen)) (duplicate_mapping i))
            (validate_mappings_from (i + 1) (mapping_key m ∷ seen) ms))))

unfoldable pub validate_trusted_rest_mappings : List TrustedRestMapping → Option ConfigError
unfolding validate_mappings_from
validate_trusted_rest_mappings mappings = validate_mappings_from 0 [] mappings

-- meta.RESTMapping, as it is made of a mapping and of what was looked up.
pub record RestMapping : Type 0 where
  pub resource_group : String
  pub resource_version : String
  pub resource : String
  pub group : String
  pub version : String
  pub kind : String
  pub namespaced : Bool

abbrev pub rest_mapping : TrustedRestMapping → String → String → String → RestMapping
rest_mapping m group version kind = record {
  resource_group = m.group;
  resource_version = m.version;
  resource = m.resource;
  group = group;
  version = version;
  kind = kind;
  namespaced = m.namespaced;
}

unfoldable pub lookup_trusted_rest_mapping :
    List TrustedRestMapping → String → String → String → Option RestMapping
lookup_trusted_rest_mapping [] group version kind = none
lookup_trusted_rest_mapping (m ∷ ms) group version kind =
    if str_eq m.group group && (str_eq m.version version && str_eq m.kind kind)
    then some (rest_mapping m group version kind)
    else lookup_trusted_rest_mapping ms group version kind
