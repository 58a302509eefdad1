-- ===== src/Cluster/Validate/Whole.antt =====
-- Validate of cluster.go, and what a cluster that it accepts holds.
use cke.Prelude.{
  true, ◌⊎◌, All, Ordered, ◌≡◌, ◌==◌, ◌||◌, not, String, Bool, List, [], ◌∷◌, Option, none, str_eq,
}
use cke.Cluster.{Node, TrustedRestMapping}
use cke.Cluster.Validate.{
  ConfigError, name_empty, invalid_cidr, invalid_toleration, invalid_dns_service,
  invalid_dns_server, Accepts, and_then, unless, validate_nodes, validate_trusted_rest_mappings,
}
use cke.Cluster.Validate.Nodes.{IsNamed, Distinct, validate_nodes-Distinct}
use cke.Cluster.Validate.Mappings.{IsGiven, Differs, mappings-Differs}
use cke.Cluster.Validate.Names.{fields}
use cke.Cluster.Validate.Numbers.{
  RebootSettings, RepairSettings, validate_reboot, validate_repair, and_then-none, RebootSound,
  RepairSound, validate_reboot-RebootSound, validate_repair-RepairSound,
}
use cke.Cluster.Validate.Options.{
  Libraries, WrittenOptions, validate_options, OptionsSound, validate_options-OptionsSound,
}

-- The fields of Cluster that are validated, as they are written.
pub record WrittenCluster : Type 0 where
  pub name : String
  pub service_subnet : String
  pub nodes : List Node
  pub cp_tolerations : List String
  pub dns_servers : List String
  pub dns_service : String
  pub reboot : RebootSettings
  pub repair : RepairSettings
  pub options : WrittenOptions
  pub trusted_rest_mappings : List TrustedRestMapping

module _ (accepts : Accepts) (libraries : Libraries) (cidr : String → Bool)
    (selector : Option String → Bool) where
  validate_toleration_keys : List String → Option ConfigError
  validate_toleration_keys [] = none
  validate_toleration_keys (k ∷ ks) =
      and_then (unless (accepts.taint_key k) invalid_toleration) (validate_toleration_keys ks)

  validate_dns_servers : List String → Option ConfigError
  validate_dns_servers [] = none
  validate_dns_servers (a ∷ servers) =
      and_then (unless (accepts.address a) (invalid_dns_server a)) (validate_dns_servers servers)

  unfoldable pub validate : Bool → WrittenCluster → Option ConfigError
  unfolding validate_toleration_keys validate_dns_servers
  validate is_template c = and_then (unless (not (str_eq c.name "")) name_empty) (
      and_then (unless (cidr c.service_subnet) invalid_cidr) (
        and_then (validate_nodes accepts is_template c.nodes) (
          and_then (validate_toleration_keys c.cp_tolerations) (
            and_then (validate_dns_servers c.dns_servers) (
              and_then
                (unless (str_eq c.dns_service "" || fields c.dns_service == 2) invalid_dns_service)
                (and_then (validate_reboot selector c.reboot) (
                  and_then (validate_repair selector c.repair) (
                    and_then (validate_options accepts libraries c.options)
                      (validate_trusted_rest_mappings c.trusted_rest_mappings)))))))))

  -- In a cluster that is accepted: of the settings of reboots, the timeout of evictions and the
  -- maximum of reboots at once are left out or positive, and the timeout of commands, the retries and
  -- intervals of commands and of evictions left out or not negative; of the settings of repairs, the
  -- maximum of repairs at once and the timeout of evictions are left out or positive, and the retries
  -- and the interval of evictions left out or not negative, while nothing is said of the procedures of
  -- repairs, their operations and steps; the mounts of the components have absolute paths, but for
  -- those of the two rivers; every node has a user, and an accepted address of its own, or none in a
  -- template; and every trusted REST mapping has a version, a kind and a resource, and no two of them
  -- are of one group, version and kind.
  pub validate_lem :
      (is_template : Bool) (c : WrittenCluster)
      → validate is_template c ≡ none
      → RebootSound c.reboot
        × RepairSound c.repair
        × OptionsSound c.options
        × (All (IsNamed accepts is_template) c.nodes
            × ((is_template ≡ true) ⊎ Distinct accepts c.nodes))
        × (All IsGiven c.trusted_rest_mappings × Ordered Differs c.trusted_rest_mappings)
  unfolding validate
  validate_lem is_template c h =
      let (_, h₁) = and_then-none _ _ h in
      let (_, h₂) = and_then-none _ _ h₁ in
      let (nodes, h₃) = and_then-none _ _ h₂ in
      let (_, h₄) = and_then-none (validate_toleration_keys c.cp_tolerations) _ h₃ in
      let (_, h₅) = and_then-none (validate_dns_servers c.dns_servers) _ h₄ in
      let (_, h₆) =
        and_then-none
          (unless (str_eq c.dns_service "" || fields c.dns_service == 2) invalid_dns_service) _
          h₅ in
      let (reboot, h₇) = and_then-none _ _ h₆ in
      let (repair, h₈) = and_then-none _ _ h₇ in
      let (options, mappings) = and_then-none _ _ h₈ in
      (
        validate_reboot-RebootSound selector _ reboot,
        validate_repair-RepairSound selector _ repair,
        validate_options-OptionsSound accepts libraries _ options,
        validate_nodes-Distinct accepts is_template _ nodes,
        mappings-Differs _ mappings,
      )
