-- ===== src/Cluster/Validate/Samples.antt =====
-- Mappings and nodes that are refused and accepted_run.
use cke.Prelude.{
  ◌⊎◌, All, Ordered, ◌≡◌, refl, String, true, false, not, List, [], ◌∷◌, some, none, Memᴰ, str_eq,
}
use cke.Cluster.{TrustedRestMapping}
use cke.Samples.{host}
use cke.Cluster.Validate.{
  Accepts, duplicate_address, duplicate_mapping, negative, source_not_absolute, validate_nodes,
  validate_trusted_rest_mappings, lookup_trusted_rest_mapping, rest_mapping,
}
use cke.Cluster.Validate.Nodes.{IsNamed, Distinct}
use cke.Cluster.Validate.Mappings.{IsGiven, Differs, lookup-validate}
use cke.Cluster.Validate.Names.{all_name_chars, ext_from, fields}
use cke.Cluster.Validate.Numbers.{
  pos, negsuc, RebootSettings, RepairSettings, validate_reboot, validate_repair, RebootSound,
  RepairSound,
}
use cke.Cluster.Validate.Options.{
  Libraries, WrittenOptions, validate_binds, validate_options, OptionsSound,
}
use cke.Cluster.Validate.Whole.{WrittenCluster, validate, validate_lem}
use cke.Params.{Mount}

abbrev accepts : Accepts
accepts = record {
  address = λ a. not (str_eq a "");
  labels = λ _. true;
  annotations = λ _. true;
  taint_key = λ _. true;
  taint_value = λ _. true;
}

twice_run :
    validate_nodes accepts false (host "10.0.0.1" true ∷ host "10.0.0.1" false ∷ [])
    ≡ some (duplicate_address "10.0.0.1")
unfolding validate_nodes
twice_run = refl

template_run : validate_nodes accepts true (host "" true ∷ host "" false ∷ []) ≡ none
unfolding validate_nodes
template_run = refl

abbrev mapping : String → String → String → TrustedRestMapping
mapping group kind resource = record {
  group = group;
  version = "v1";
  kind = kind;
  resource = resource;
  namespaced = true;
}

abbrev mappings : List TrustedRestMapping
mappings = mapping "cilium.io" "Policy" "policies" ∷ mapping "" "Pod" "pods" ∷ []

accepted_run : validate_trusted_rest_mappings mappings ≡ none
unfolding validate_trusted_rest_mappings
accepted_run = refl

refused :
    validate_trusted_rest_mappings (mapping "" "Pod" "pods" ∷ mapping "" "Pod" "others" ∷ [])
    ≡ some (duplicate_mapping 1)
unfolding validate_trusted_rest_mappings
refused = refl

lookup-validate_example :
    lookup_trusted_rest_mapping mappings "" "v1" "Pod"
    ≡ some (rest_mapping (mapping "" "Pod" "pods") "" "v1" "Pod")
lookup-validate_example =
    lookup-validate mappings (mapping "" "Pod" "pods") accepted_run (Memᴰ.tail (Memᴰ.head refl))

abbrev mount : String → String → Mount
mount source destination = record {
  source = source;
  destination = destination;
  read_only = true;
  propagation = "";
  label = "";
}

abbrev written_options : WrittenOptions
written_options = record {
  etcd_binds = mount "/var/etcd" "/data" ∷ [];
  api_server_binds = [];
  controller_manager_binds = [];
  scheduler_binds = [];
  proxy_binds = [];
  kubelet_binds = mount "/etc/cni" "/etc/cni" ∷ [];
  kubelet_config = some (record {
    api_version = "kubelet/v1";
    kind = "KubeletConfiguration";
    content = "cluster.local";
  });
  cri_endpoint = "/run/containerd.sock";
  cni_name = "10-cni.conflist";
  cni_content = "{}";
  boot_taints = [];
  audit_log_enabled = true;
  audit_log_policy = "rules: []";
  scheduler_config = none;
  proxy_config = none;
}

abbrev libraries : Libraries
libraries = record {
  kubelet_version = "kubelet/v1";
  scheduler_version = "scheduler/v1";
  proxy_version = "proxy/v1";
  kubelet_domain = λ d. some d.content;
  scheduler_config = λ d. some d.content;
  proxy_mode = λ d. some d.content;
  domain = λ d. str_eq d "cluster.local";
  conf_list = λ c. str_eq c "{}";
  network_conf = λ _. false;
  yaml = λ _. true;
}

abbrev reboot_settings : RebootSettings
reboot_settings = record {
  max_concurrent_reboots = some (pos 2);
  eviction_timeout_seconds = some (pos 600);
  command_timeout_seconds = some (pos 0);
  command_retries = none;
  command_interval = none;
  evict_retries = some (pos 3);
  evict_interval = none;
  protected_namespaces = none;
  protected_job_pods = none;
}

abbrev repair_settings : RepairSettings
repair_settings = record {
  repair_procedures =
      record {
        machine_types = "virtual" ∷ [];
        repair_operations =
            record {
              operation = "reset";
              repair_steps =
                  record {
                    repair_command = "reset" ∷ [];
                    command_timeout_seconds = some (negsuc 4);
                    command_retries = none;
                    command_interval = none;
                    need_drain = true;
                    watch_seconds = some (pos 60);
                  }
                  ∷ [];
              health_check_command = "true" ∷ [];
              command_timeout_seconds = none;
              success_command = [];
              success_command_timeout = none;
            }
            ∷ [];
      }
      ∷ [];
  max_concurrent_repairs = some (pos 1);
  evict_retries = none;
  evict_interval = some (pos 10);
  eviction_timeout_seconds = none;
  protected_namespaces = none;
  protected_job_pods = none;
}

abbrev written : WrittenCluster
written = record {
  name = "tokyo";
  service_subnet = "10.1.0.0/16";
  nodes = host "10.0.0.1" true ∷ host "10.0.0.2" false ∷ [];
  cp_tolerations = "example.com/cp" ∷ [];
  dns_servers = "8.8.8.8" ∷ [];
  dns_service = "kube-system/dns";
  reboot = reboot_settings;
  repair = repair_settings;
  options = written_options;
  trusted_rest_mappings = mappings;
}

negative_run :
    validate accepts libraries
      (λ _. true)
      (λ _. true)
      false
      (record written { reboot = record reboot_settings { evict_retries = some (negsuc 0) } })
    ≡ some (negative "evict_retries")
unfolding validate validate_nodes validate_reboot fields
negative_run = refl

relative_run :
    validate accepts libraries
      (λ _. true)
      (λ _. true)
      false
      (record written {
        options = record written_options { proxy_binds = mount "etc" "/etc" ∷ [] };
      })
    ≡ some (source_not_absolute "etc")
unfolding validate validate_nodes validate_reboot validate_repair validate_options validate_binds
    fields
relative_run = refl

validate_example :
    RebootSound written.reboot
    × RepairSound written.repair
    × OptionsSound written.options
    × (All (IsNamed accepts false) written.nodes
        × ((false ≡ true) ⊎ Distinct accepts written.nodes))
    × (All IsGiven written.trusted_rest_mappings × Ordered Differs written.trusted_rest_mappings)
unfolding validate validate_nodes validate_reboot validate_repair validate_options validate_binds
    validate_trusted_rest_mappings fields all_name_chars ext_from
validate_example = validate_lem accepts libraries (λ _. true) (λ _. true) false written refl
