-- ===== src/Sysmgmt/Settings.antt =====
-- sysmgmt/sysmgmt.go: the settings of the host's management, and joining two of them.
use sardis.Common.{
  Bool, Option, none, some, List, [], ◌++◌, ◌∷◌, String, string_comparable, pointer_comparable,
}
use sardis.Extern.Erc.{Erc}
use sardis.Extern.System.{System, Entry}
use sardis.Util.Dots.{default}
use sardis.Sysmgmt.Packages.{ArchLinux}
use sardis.Sysmgmt.Arch.Building.{SettingsError, arch_validate}
use sardis.Sysmgmt.Systemd.{SystemdService, Error, configuration_validate}
use sardis.Sysmgmt.Links.{LinkDefinition, LinkDiscovery, LinkError, links_validate}

pub record GoPackage : Type 0 where
  pub name : String
  pub update : Bool
  pub version : String

pub record Configuration : Type 0 where
  pub go_packages : List GoPackage
  pub arch : ArchLinux
  pub services : List SystemdService
  pub links : List LinkDefinition
  pub discovery : Option LinkDiscovery
  pub services_legacy : List SystemdService

abbrev empty_discovery : LinkDiscovery
empty_discovery = record {
  search_paths = [];
  ignore_path_prefixes = [];
  ignore_target_prefixes = [];
  skip_missing_targets = none;
  skip_resolved_targets = none;
}

join_discovery : Option LinkDiscovery → Option LinkDiscovery → Option LinkDiscovery
unfolding default
join_discovery old none = old
join_discovery old (some new) =
    let conf : LinkDiscovery = elim old [ none ↦ empty_discovery | some d ↦ d ] in
    some (record {
      search_paths = conf.search_paths ++ new.search_paths;
      ignore_target_prefixes = conf.ignore_target_prefixes ++ new.ignore_target_prefixes;
      ignore_path_prefixes = conf.ignore_path_prefixes ++ new.ignore_path_prefixes;
      skip_resolved_targets = default new.skip_resolved_targets conf.skip_resolved_targets;
      skip_missing_targets = default new.skip_missing_targets conf.skip_missing_targets;
    })

-- `Join`
unfoldable pub system_join : Configuration → Configuration → Configuration
unfolding join_discovery
system_join conf mcf = record conf {
  discovery = join_discovery conf.discovery mcf.discovery;
  arch = record conf.arch { packages = conf.arch.packages ++ mcf.arch.packages };
  go_packages = conf.go_packages ++ mcf.go_packages;
  links = conf.links ++ mcf.links;
  services = conf.services ++ mcf.services;
}

pub data SystemError : Type 0 where
  of_arch : SettingsError → SystemError
  of_systemd : Error → SystemError
  of_links : LinkError → SystemError
  both : SystemError → SystemError → SystemError

abbrev pub wrap : {A B : Type 0} → (A → B) → Option A → Option B
wrap f none = none
wrap f (some a) = some (f a)

-- What the host says: whether it is Arch Linux, what stands at a path, and whether a directory
-- cannot be made there; `homedir.Expand`, with none for an error.
pub record Files : Type 0 where
  pub is_arch : Bool
  pub stat : String → Entry
  pub make_fails : Bool
  pub expand_home : String → Option String

pub record Collectors : Type 1 where
  pub of_arch_settings : Erc SettingsError
  pub of_services : Erc Error
  pub of_link_settings : Erc LinkError
  pub of_system : Erc SystemError

-- `Validate`; `none` is a panic.
unfoldable pub system_validate :
    System → Files → Collectors → Configuration → Option (Configuration × Option SystemError)
system_validate sys files ecs conf =
    let services = configuration_validate ecs.of_services conf.services in
    let (links, disco, bad_links) =
      links_validate ecs.of_link_settings sys files.expand_home files.stat conf.links
        conf.discovery in
    elim (arch_validate sys ecs.of_arch_settings files.is_arch files.stat files.make_fails
      conf.arch) [
        | none ↦ none
        | some arch ↦ some (
          record conf { arch = arch.0; links = links; discovery = some disco },
          ecs.of_system.resolve
              (wrap of_arch arch.1 ∷ wrap of_systemd services ∷ wrap of_links bad_links ∷ []),
        )
      ]
