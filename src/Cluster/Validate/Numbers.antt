-- ===== src/Cluster/Validate/Numbers.antt =====
-- validateReboot and validateRepair of cluster.go: the settings as they are written, which may be
-- negative. A label selector stands as its text, and what LabelSelectorAsSelector accepts is an
-- argument.
use cke.Prelude.{
  ℕ, zero, suc, ◌≡◌, refl, ◌≢◌, String, Bool, true, false, not, List, Option, none, some,
}
use cke.Cluster.Validate.{ConfigError, invalid_selector, not_positive, negative, and_then, unless}

-- An integer: `negsuc n` is - (n + 1).
pub data ℤ : Type 0 where
  pos negsuc : ℕ → ℤ

-- The fields of Reboot but for the two commands, which are not validated.
pub record RebootSettings : Type 0 where
  pub max_concurrent_reboots : Option ℤ
  pub eviction_timeout_seconds : Option ℤ
  pub command_timeout_seconds : Option ℤ
  pub command_retries : Option ℤ
  pub command_interval : Option ℤ
  pub evict_retries : Option ℤ
  pub evict_interval : Option ℤ
  pub protected_namespaces : Option String
  pub protected_job_pods : Option String

-- The steps, operations and procedures of repairs, as they are written.
pub record StepSettings : Type 0 where
  pub repair_command : List String
  pub command_timeout_seconds : Option ℤ
  pub command_retries : Option ℤ
  pub command_interval : Option ℤ
  pub need_drain : Bool
  pub watch_seconds : Option ℤ

pub record OperationSettings : Type 0 where
  pub operation : String
  pub repair_steps : List StepSettings
  pub health_check_command : List String
  pub command_timeout_seconds : Option ℤ
  pub success_command : List String
  pub success_command_timeout : Option ℤ

pub record ProcedureSettings : Type 0 where
  pub machine_types : List String
  pub repair_operations : List OperationSettings

-- Repair. Its procedures are not validated.
pub record RepairSettings : Type 0 where
  pub repair_procedures : List ProcedureSettings
  pub max_concurrent_repairs : Option ℤ
  pub evict_retries : Option ℤ
  pub evict_interval : Option ℤ
  pub eviction_timeout_seconds : Option ℤ
  pub protected_namespaces : Option String
  pub protected_job_pods : Option String

-- `x != nil && *x < 0`
abbrev is_negative : Option ℤ → Bool
is_negative (some (negsuc n)) = true
is_negative _ = false

-- `x != nil && *x <= 0`
abbrev is_not_positive : Option ℤ → Bool
is_not_positive (some (negsuc n)) = true
is_not_positive (some (pos zero)) = true
is_not_positive _ = false

abbrev must_be_positive : String → Option ℤ → Option ConfigError
must_be_positive name x = unless (not (is_not_positive x)) (not_positive name)

abbrev must_not_be_negative : String → Option ℤ → Option ConfigError
must_not_be_negative name x = unless (not (is_negative x)) (negative name)

module _ (selector : Option String → Bool) where
  unfoldable pub validate_reboot : RebootSettings → Option ConfigError
  validate_reboot r =
      and_then (must_be_positive "eviction_timeout_seconds" r.eviction_timeout_seconds) (
        and_then (must_not_be_negative "command_timeout_seconds" r.command_timeout_seconds) (
          and_then (must_not_be_negative "command_retries" r.command_retries) (
            and_then (must_not_be_negative "command_interval" r.command_interval) (
              and_then (must_not_be_negative "evict_retries" r.evict_retries) (
                and_then (must_not_be_negative "evict_interval" r.evict_interval) (
                  and_then (must_be_positive "max_concurrent_reboots" r.max_concurrent_reboots) (
                    and_then (unless (selector r.protected_namespaces) invalid_selector)
                      (unless (selector r.protected_job_pods) invalid_selector))))))))

  unfoldable pub validate_repair : RepairSettings → Option ConfigError
  validate_repair r =
      and_then (must_be_positive "max_concurrent_repairs" r.max_concurrent_repairs) (
        and_then (must_not_be_negative "evict_retries" r.evict_retries) (
          and_then (must_not_be_negative "evict_interval" r.evict_interval) (
            and_then (must_be_positive "eviction_timeout_seconds" r.eviction_timeout_seconds) (
              and_then (unless (selector r.protected_namespaces) invalid_selector)
                (unless (selector r.protected_job_pods) invalid_selector)))))

abbrev pub to_integer : Option ℕ → Option ℤ
to_integer none = none
to_integer (some n) = some (pos n)

-- A setting that is left out or a natural number.
abbrev pub Natural : Option ℤ → Type 0
Natural x = (o : Option ℕ) × (x ≡ to_integer o)

-- A setting that is left out or a positive number.
abbrev pub Positive : Option ℤ → Type 0
Positive x = (o : Option ℕ) × (x ≡ to_integer o) × (o ≢ some 0)

pub and_then-none : (a b : Option ConfigError) → and_then a b ≡ none → (a ≡ none) × (b ≡ none)
and_then-none none b e = (refl, e)
and_then-none (some a) b e = cc

pub unless-none : (b : Bool) (e : ConfigError) → unless b e ≡ none → b ≡ true
unless-none true e h = refl
unless-none false e h = cc

pub positive_lem : (name : String) (x : Option ℤ) → must_be_positive name x ≡ none → Positive x
positive_lem name none h = (none, refl, λ e. cc)
positive_lem name (some (pos zero)) h = cc
positive_lem name (some (pos (suc n))) h = (some (suc n), refl, λ e. cc)
positive_lem name (some (negsuc n)) h = cc

pub natural_lem : (name : String) (x : Option ℤ) → must_not_be_negative name x ≡ none → Natural x
natural_lem name none h = (none, refl)
natural_lem name (some (pos n)) h = (some n, refl)
natural_lem name (some (negsuc n)) h = cc

-- The settings of reboots that the rest of CKE relies on.
pub record RebootSound (r : RebootSettings) : Type 0 where
  pub eviction_timeout : Positive r.eviction_timeout_seconds
  pub command_timeout : Natural r.command_timeout_seconds
  pub retries : Natural r.command_retries
  pub interval : Natural r.command_interval
  pub evictions : Natural r.evict_retries
  pub eviction_interval : Natural r.evict_interval
  pub limit : Positive r.max_concurrent_reboots

pub validate_reboot-RebootSound :
    (selector : Option String → Bool) (r : RebootSettings)
    → validate_reboot selector r ≡ none
    → RebootSound r
unfolding validate_reboot
validate_reboot-RebootSound selector r h =
    let (a, h₁) = and_then-none _ _ h in
    let (b, h₂) = and_then-none _ _ h₁ in
    let (c, h₃) = and_then-none _ _ h₂ in
    let (d, h₄) = and_then-none _ _ h₃ in
    let (e, h₅) = and_then-none _ _ h₄ in
    let (f, h₆) = and_then-none _ _ h₅ in
    let (g, h₇) = and_then-none _ _ h₆ in
    record {
      eviction_timeout = positive_lem _ _ a;
      command_timeout = natural_lem _ _ b;
      retries = natural_lem _ _ c;
      interval = natural_lem _ _ d;
      evictions = natural_lem _ _ e;
      eviction_interval = natural_lem _ _ f;
      limit = positive_lem _ _ g;
    }

-- Nothing is known of the numbers of the procedures.
pub record RepairSound (r : RepairSettings) : Type 0 where
  pub limit : Positive r.max_concurrent_repairs
  pub evictions : Natural r.evict_retries
  pub eviction_interval : Natural r.evict_interval
  pub eviction_timeout : Positive r.eviction_timeout_seconds

pub validate_repair-RepairSound :
    (selector : Option String → Bool) (r : RepairSettings)
    → validate_repair selector r ≡ none
    → RepairSound r
unfolding validate_repair
validate_repair-RepairSound selector r h =
    let (a, h₁) = and_then-none _ _ h in
    let (b, h₂) = and_then-none _ _ h₁ in
    let (c, h₃) = and_then-none _ _ h₂ in
    let (d, h₄) = and_then-none _ _ h₃ in
    record {
      limit = positive_lem _ _ a;
      evictions = natural_lem _ _ b;
      eviction_interval = natural_lem _ _ c;
      eviction_timeout = positive_lem _ _ d;
    }
