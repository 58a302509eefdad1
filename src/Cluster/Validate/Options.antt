-- ===== src/Cluster/Validate/Options.antt =====
-- validateOptions and the three MergeConfig of cluster.go. What the libraries of Kubernetes, CNI and
-- YAML accept are arguments. A configuration of a component stands as its version, its kind and its
-- JSON text, and of what it is merged to the fields that are validated.
use text.Mathlib.Text.{starts_with}
use cke.Prelude.{
  ◌≡◌, String, Bool, true, not, ◌&&◌, ◌||◌, List, [], ◌∷◌, Option, none, some, ◌⊎◌, inl, inr, Memᴰ,
  str_eq, any, if◌then◌else◌,
}
use cke.Cluster.{Taint}
use cke.Params.{Mount}
use cke.Cluster.Validate.{
  ConfigError, unexpected_version, wrong_kind, invalid_config, invalid_domain, cri_endpoint_empty,
  cni_name_empty, invalid_cni, invalid_file_name, audit_policy_empty, invalid_audit_policy,
  invalid_proxy_mode, source_not_absolute, destination_not_absolute, Accepts, and_then, unless,
  validate_node_taints,
}
use cke.Cluster.Validate.Names.{all_name_chars, ext_from}
use cke.Cluster.Validate.Numbers.{and_then-none, unless-none}

-- unstructured.Unstructured
pub record Document : Type 0 where
  pub api_version : String
  pub kind : String
  pub content : String

-- The fields of Options that are validated.
pub record WrittenOptions : Type 0 where
  pub etcd_binds : List Mount
  pub api_server_binds : List Mount
  pub controller_manager_binds : List Mount
  pub scheduler_binds : List Mount
  pub proxy_binds : List Mount
  pub kubelet_binds : List Mount
  pub kubelet_config : Option Document
  pub cri_endpoint : String
  pub cni_name : String
  pub cni_content : String
  pub boot_taints : List Taint
  pub audit_log_enabled : Bool
  pub audit_log_policy : String
  pub scheduler_config : Option Document
  pub proxy_config : Option Document

pub record Libraries : Type 0 where
  pub kubelet_version : String
  pub scheduler_version : String
  pub proxy_version : String
  -- ClusterDomain of the configuration of kubelet, the configuration of the scheduler, and Mode of
  -- that of kube-proxy, where the document can be read as one.
  pub kubelet_domain : Document → Option String
  pub scheduler_config : Document → Option String
  pub proxy_mode : Document → Option String
  pub domain : String → Bool
  pub conf_list : String → Bool
  pub network_conf : String → Bool
  pub yaml : String → Bool

-- filepath.IsAbs on Unix.
abbrev pub is_absolute : String → Bool
is_absolute path = starts_with path "/"

unfoldable pub validate_binds : List Mount → Option ConfigError
validate_binds [] = none
validate_binds (m ∷ ms) = and_then (unless (is_absolute m.source) (source_not_absolute m.source)) (
    and_then (unless (is_absolute m.destination) (destination_not_absolute m.destination))
      (validate_binds ms))

-- MergeConfig: what the base holds where there is no configuration, or what can be read of it.
abbrev pub read_config : {A : Type 0} → Option A → ConfigError ⊎ A
read_config none = inl invalid_config
read_config (some a) = inr a

abbrev pub merge_config :
    {A : Type 0} → String → String → (Document → Option A) → A → Option Document → ConfigError ⊎ A
merge_config version kind read base none = inr base
merge_config version kind read base (some d) =
    if not (str_eq d.api_version version)
    then inl (unexpected_version d.api_version)
    else if not (str_eq d.kind kind)
    then inl (wrong_kind d.kind)
    else read_config (read d)

abbrev pub merged : {A : Type 0} → ConfigError ⊎ A → (A → Option ConfigError) → Option ConfigError
merged (inl e) k = some e
merged (inr a) k = k a

abbrev pub validate_proxy_mode : String → Option ConfigError
validate_proxy_mode mode =
    unless (any (str_eq mode) ("userspace" ∷ "iptables" ∷ "ipvs" ∷ [])) (invalid_proxy_mode mode)

module _ (accepts : Accepts) (libraries : Libraries) where
  validate_cni : String → String → Option ConfigError
  validate_cni name content =
      if str_eq name ""
      then none
      else and_then (unless (all_name_chars name) (invalid_file_name name)) (
          if str_eq (ext_from "" name) ".conflist"
          then unless (libraries.conf_list content) invalid_cni
          else unless (libraries.network_conf content) invalid_cni)

  validate_kubelet : WrittenOptions → Option ConfigError
  unfolding validate_cni
  validate_kubelet o =
      merged
        (merge_config libraries.kubelet_version "KubeletConfiguration" libraries.kubelet_domain ""
          o.kubelet_config)
        (λ domain. and_then (unless (str_eq domain "" || libraries.domain domain) invalid_domain) (
          and_then (unless (not (str_eq o.cri_endpoint "")) cri_endpoint_empty) (
            and_then (unless (str_eq o.cni_content "" || not (str_eq o.cni_name "")) cni_name_empty)
              (and_then (validate_cni o.cni_name o.cni_content)
                (validate_node_taints accepts o.boot_taints)))))

  validate_audit : WrittenOptions → Option ConfigError
  validate_audit o =
      and_then
        (unless (not (o.audit_log_enabled && str_eq o.audit_log_policy "")) audit_policy_empty)
        (unless (str_eq o.audit_log_policy "" || libraries.yaml o.audit_log_policy)
          invalid_audit_policy)

  validate_scheduler : WrittenOptions → Option ConfigError
  validate_scheduler o =
      merged
        (merge_config libraries.scheduler_version "KubeSchedulerConfiguration"
          libraries.scheduler_config "" o.scheduler_config)
        (λ _. none)

  validate_proxy : WrittenOptions → Option ConfigError
  validate_proxy o =
      merged
        (merge_config libraries.proxy_version "KubeProxyConfiguration" libraries.proxy_mode ""
          o.proxy_config)
        (λ mode. if str_eq mode "" then none else validate_proxy_mode mode)

  unfoldable pub validate_options : WrittenOptions → Option ConfigError
  unfolding validate_kubelet validate_audit validate_scheduler validate_proxy
  validate_options o = and_then (validate_binds o.etcd_binds) (
      and_then (validate_binds o.api_server_binds) (
        and_then (validate_binds o.controller_manager_binds) (
          and_then (validate_binds o.scheduler_binds) (
            and_then (validate_binds o.proxy_binds) (
              and_then (validate_binds o.kubelet_binds) (
                and_then (validate_kubelet o) (
                  and_then (validate_audit o)
                    (and_then (validate_scheduler o) (validate_proxy o)))))))))

-- The paths of the mounts are absolute.
abbrev pub Absolute : List Mount → Type 0
Absolute ms =
    (m : Mount) → Memᴰ m ms → (is_absolute m.source ≡ true) × (is_absolute m.destination ≡ true)

validate_binds-Absolute : (ms : List Mount) → validate_binds ms ≡ none → Absolute ms
unfolding validate_binds
validate_binds-Absolute [] h m t = elim t [ ]
validate_binds-Absolute (k ∷ ms) h m (Memᴰ.head e) =
    let (a, h₁) = and_then-none _ _ h in
    let (b, h₂) = and_then-none _ _ h₁ in rw e (unless-none _ _ a, unless-none _ _ b)
validate_binds-Absolute (k ∷ ms) h m (Memᴰ.tail t) =
    let (a, h₁) = and_then-none _ _ h in
    let (b, h₂) = and_then-none _ _ h₁ in validate_binds-Absolute ms h₂ m t

-- What the containers of the components rely on.
pub record OptionsSound (o : WrittenOptions) : Type 0 where
  pub etcd : Absolute o.etcd_binds
  pub api_server : Absolute o.api_server_binds
  pub controller_manager : Absolute o.controller_manager_binds
  pub scheduler : Absolute o.scheduler_binds
  pub proxy : Absolute o.proxy_binds
  pub kubelet : Absolute o.kubelet_binds

pub validate_options-OptionsSound :
    (accepts : Accepts) (libraries : Libraries) (o : WrittenOptions)
    → validate_options accepts libraries o ≡ none
    → OptionsSound o
unfolding validate_options
validate_options-OptionsSound accepts libraries o h =
    let (a, h₁) = and_then-none _ _ h in
    let (b, h₂) = and_then-none _ _ h₁ in
    let (c, h₃) = and_then-none _ _ h₂ in
    let (d, h₄) = and_then-none _ _ h₃ in
    let (e, h₅) = and_then-none _ _ h₄ in
    let (f, h₆) = and_then-none _ _ h₅ in
    record {
      etcd = validate_binds-Absolute _ a;
      api_server = validate_binds-Absolute _ b;
      controller_manager = validate_binds-Absolute _ c;
      scheduler = validate_binds-Absolute _ d;
      proxy = validate_binds-Absolute _ e;
      kubelet = validate_binds-Absolute _ f;
    }
