-- ===== src/Cluster.antt =====
-- cluster.go and constraints.go: the cluster configuration, as far as the decisions read it.
-- A pointer to a number is an Option. A count or a number of seconds is a natural number:
-- `validateReboot` and `validateRepair` refuse the negative ones among the settings of Reboot and
-- Repair, and the numbers of a repair operation and its steps are taken not to be negative, which
-- is not validated.
-- A map of texts is an association list.
pub mod Validate
use cke.Prelude.{ℕ, String, Bool, List, Option, if◌then◌else◌, ◌==◌, count_if, str_eq}
use cke.Params.{ServiceParams}

-- corev1.Taint, whose effect is a text.
pub record Taint : Type 0 where
  pub key : String
  pub value : String
  pub effect : String

pub record Node : Type 0 where
  pub address : String
  pub hostname : String
  pub user : String
  pub control_plane : Bool
  pub annotations : List (String × String)
  pub labels : List (String × String)
  pub taints : List Taint

unfoldable pub nodename : Node → String
nodename n = if str_eq n.hostname "" then n.address else n.hostname

-- Reboot: the label selectors are read by the Kubernetes client only, and left out.
pub record RebootConfig : Type 0 where
  pub reboot_command : List String
  pub boot_check_command : List String
  pub max_concurrent_reboots : Option ℕ
  pub eviction_timeout_seconds : Option ℕ
  pub command_timeout_seconds : Option ℕ
  pub command_retries : Option ℕ
  pub command_interval : Option ℕ
  pub evict_retries : Option ℕ
  pub evict_interval : Option ℕ

abbrev pub default_reboot_eviction_timeout_seconds : ℕ
default_reboot_eviction_timeout_seconds = 600

abbrev pub default_max_concurrent_reboots : ℕ
default_max_concurrent_reboots = 1

pub record RepairStep : Type 0 where
  pub repair_command : List String
  pub command_timeout_seconds : Option ℕ
  pub command_retries : Option ℕ
  pub command_interval : Option ℕ
  pub need_drain : Bool
  pub watch_seconds : Option ℕ

pub record RepairOperation : Type 0 where
  pub operation : String
  pub repair_steps : List RepairStep
  pub health_check_command : List String
  pub success_command : Option (List String)
  pub success_command_timeout : Option ℕ

pub record RepairProcedure : Type 0 where
  pub machine_types : List String
  pub repair_operations : List RepairOperation

pub record RepairConfig : Type 0 where
  pub repair_procedures : List RepairProcedure
  pub max_concurrent_repairs : Option ℕ
  pub evict_retries : Option ℕ
  pub evict_interval : Option ℕ
  pub eviction_timeout_seconds : Option ℕ

abbrev pub default_max_concurrent_repairs : ℕ
default_max_concurrent_repairs = 1

abbrev pub default_repair_eviction_timeout_seconds : ℕ
default_repair_eviction_timeout_seconds = 600

abbrev pub default_repair_command_timeout_seconds : ℕ
default_repair_command_timeout_seconds = 30

abbrev pub default_repair_success_command_timeout_seconds : ℕ
default_repair_success_command_timeout_seconds = 30

-- Options: of each component the parameters common to all, with the two switches that decisions
-- read.
pub record Options : Type 0 where
  pub etcd : ServiceParams
  pub rivers : ServiceParams
  pub etcd_rivers : ServiceParams
  pub api_server : ServiceParams
  pub controller_manager : ServiceParams
  pub scheduler : ServiceParams
  pub proxy : ServiceParams
  pub proxy_disable : Bool
  pub kubelet : ServiceParams
  pub kubelet_in_place_update : Bool

pub record TrustedRestMapping : Type 0 where
  pub group : String
  pub version : String
  pub kind : String
  pub resource : String
  pub namespaced : Bool

pub record Cluster : Type 0 where
  pub name : String
  pub nodes : List Node
  pub taint_cp : Bool
  pub cp_tolerations : List String
  pub service_subnet : String
  pub dns_servers : List String
  pub dns_service : String
  pub reboot : RebootConfig
  pub repair : RepairConfig
  pub options : Options
  pub trusted_rest_mappings : List TrustedRestMapping

pub record Constraints : Type 0 where
  pub control_plane_count : ℕ
  pub minimum_workers_rate : ℕ
  pub reboot_maximum_unreachable : ℕ
  pub maximum_repairs : ℕ
  pub repair_rebooting_seconds : ℕ

-- Constraints.Check: true where it returns no error.
unfoldable pub check : Constraints → Cluster → Bool
check c cluster = count_if (λ n. n.control_plane) cluster.nodes == c.control_plane_count

-- A time is a number of nanoseconds since the zero value of time.Time.
abbrev pub Time : Type 0
Time = ℕ

abbrev pub second : ℕ
second = 1_000_000_000
