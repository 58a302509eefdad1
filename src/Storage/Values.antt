-- ===== src/Storage/Values.antt =====
-- The single values of storage.go: the cluster with its revision, the constraints, the Vault
-- configuration, the certificates, the switches, and the settings of sabakan.
pub mod RoundTrip
use cke.Prelude.{
  ℕ, String, Bool, true, false, not, List, [], ◌∷◌, Option, none, some, if◌then◌else◌, str_append,
}
use cke.Etcd.{
  KeyValue, put, delete, Etcd, Call, get, get_both, txn, pure, fail, always, then_run, returns,
  fails, not_found, Outcome, World, Error, ◌>>=◌, ◌>>◌,
}
use cke.Storage.Numbers.{format_int, parse_int}
use cke.Storage.{Codec, require, unmissed, is_set, put_text, write_by_leader}

-- ConfigVersion
abbrev config_version : String
config_version = "2"

-- fmt.Sprint of a Boolean.
abbrev sprint : Bool → String
sprint true = "true"
sprint false = "false"

module _ (E : Etcd) where
  unfoldable pub get_string_value : String → Call E String
  get_string_value key = do kv ← get E key; found ← unmissed E kv; pure E found.value

  -- A missing version is the first.
  abbrev or_first : Outcome String → Outcome String
  or_first (fails not_found) = returns "1"
  or_first o = o

  unfoldable pub get_config_version : Call E String
  unfolding get_string_value
  get_config_version w = let r = get_string_value "config-version" w in (or_first r.0, r.1)

  unfoldable pub put_config_version : String → Call E Unit
  put_config_version leader_key =
      write_by_leader E leader_key (put "config-version" config_version ∷ [])

  -- The methods that put a value as JSON, and those that get one.
  unfoldable pub put_json : {A : Type 0} → Codec A → String → A → Call E Unit
  put_json codec key a = do text ← require E (codec.marshal a); put_text E key text

  unfoldable pub get_json : {A : Type 0} → Codec A → String → Call E A
  get_json codec key = do
    kv ← get E key
    found ← unmissed E kv
    require E (codec.unmarshal found.value)

  unfoldable pub put_cluster : {A : Type 0} → Codec A → A → Call E Unit
  put_cluster codec = put_json codec "cluster"

  unfoldable pub get_cluster : {A : Type 0} → Codec A → Call E A
  get_cluster codec = get_json codec "cluster"

  unfoldable pub put_constraints : {A : Type 0} → Codec A → A → Call E Unit
  put_constraints codec = put_json codec "constraints"

  unfoldable pub get_constraints : {A : Type 0} → Codec A → Call E A
  get_constraints codec = get_json codec "constraints"

  unfoldable pub put_vault_config : {A : Type 0} → Codec A → A → Call E Unit
  put_vault_config codec = put_json codec "vault"

  unfoldable pub get_vault_config : {A : Type 0} → Codec A → Call E A
  get_vault_config codec = get_json codec "vault"

  unfoldable pub set_sabakan_template : {A : Type 0} → Codec A → A → Call E Unit
  set_sabakan_template codec = put_json codec "sabakan/template"

  -- SetStatus, whose key is also bound to the lease of the session.
  unfoldable pub set_status : {A : Type 0} → Codec A → A → Call E Unit
  set_status codec = put_json codec "status"

  unfoldable pub get_status : {A : Type 0} → Codec A → Call E A
  get_status codec = get_json codec "status"

  -- PutClusterWithTemplateRevision
  unfoldable pub put_cluster_with_template_revision :
      {A : Type 0} → Codec A → A → ℕ → String → Call E Unit
  put_cluster_with_template_revision codec c rev leader_key = do
    text ← require E (codec.marshal c)
    write_by_leader E leader_key (put "cluster" text ∷ put "cluster-revision" (format_int rev) ∷ [])

  -- The revision is 0 where it is not stored.
  abbrev revision_in : Option KeyValue → Option ℕ
  revision_in none = some 0
  revision_in (some kv) = parse_int kv.value

  -- GetClusterWithRevision
  unfoldable pub get_cluster_with_revision : {A : Type 0} → Codec A → Call E (A × ℕ)
  get_cluster_with_revision codec = do
    kvs ← get_both E "cluster" "cluster-revision"
    found ← unmissed E kvs.0
    c ← require E (codec.unmarshal found.value)
    rev ← require E (revision_in kvs.1)
    pure E (c, rev)

  -- GetCACertificate, PutCACertificate
  unfoldable pub get_ca_certificate : String → Call E String
  get_ca_certificate name = get_string_value (str_append "ca/" name)

  unfoldable pub put_ca_certificate : String → String → Call E Unit
  put_ca_certificate name pem = put_text E (str_append "ca/" name) pem

  -- PutServiceAccountData
  unfoldable pub put_service_account_data : String → String → String → Call E Unit
  put_service_account_data leader_key cert key =
      write_by_leader E leader_key
        (put "service-account/certificate" cert ∷ put "service-account/key" key ∷ [])

  unfoldable pub get_service_account_cert : Call E String
  get_service_account_cert = get_string_value "service-account/certificate"

  unfoldable pub get_service_account_key : Call E String
  get_service_account_key = get_string_value "service-account/key"

  -- GetResource, SetResource, DeleteResource
  unfoldable pub get_resource : String → Call E (String × ℕ)
  get_resource key = do
    kv ← get E (str_append "resource/" key)
    found ← unmissed E kv
    pure E (found.value, found.mod_revision)

  unfoldable pub set_resource : String → String → Call E Unit
  set_resource key value = put_text E (str_append "resource/" key) value

  unfoldable pub delete_resource : String → Call E Unit
  delete_resource key = do txn E always (delete (str_append "resource/" key) ∷ []); pure E tt

  -- GetSabakanTemplate
  unfoldable pub get_sabakan_template : {A : Type 0} → Codec A → Call E (A × ℕ)
  get_sabakan_template codec = do
    kv ← get E "sabakan/template"
    found ← unmissed E kv
    tmpl ← require E (codec.unmarshal found.value)
    pure E (tmpl, found.mod_revision)

  unfoldable pub is_sabakan_disabled : Call E Bool
  is_sabakan_disabled = is_set E "sabakan/disabled"

  unfoldable pub enable_sabakan : Bool → Call E Unit
  enable_sabakan flag = put_text E "sabakan/disabled" (sprint (not flag))

  unfoldable pub is_auto_repair_disabled : Call E Bool
  is_auto_repair_disabled = is_set E "auto-repair/disabled"

  unfoldable pub enable_auto_repair : Bool → Call E Unit
  enable_auto_repair enable = put_text E "auto-repair/disabled" (sprint (not enable))

  unfoldable pub is_reboot_queue_running : Call E Bool
  is_reboot_queue_running = is_set E "reboots/running"

  unfoldable pub set_reboot_queue_running : Bool → Call E Unit
  set_reboot_queue_running flag = put_text E "reboots/running" (if flag then "true" else "false")

  unfoldable pub get_sabakan_query_variables : Call E String
  get_sabakan_query_variables = get_string_value "sabakan/query-variables"

  unfoldable pub set_sabakan_query_variables : String → Call E Unit
  set_sabakan_query_variables vars = put_text E "sabakan/query-variables" vars

  unfoldable pub get_sabakan_url : Call E String
  get_sabakan_url = get_string_value "sabakan/url"

  unfoldable pub set_sabakan_url : String → Call E Unit
  set_sabakan_url url = put_text E "sabakan/url" url

  unfoldable pub get_auto_repair_query_variables : Call E String
  get_auto_repair_query_variables = get_string_value "auto-repair/query-variables"

  unfoldable pub set_auto_repair_query_variables : String → Call E Unit
  set_auto_repair_query_variables vars = put_text E "auto-repair/query-variables" vars
