-- ===== src/Examples/Configurations.antt =====
-- A configuration with old fields, a linked file, and a tag group.
use sardis.Common.{
  true, false, Option, none, some, ◌≡◌, ◌≢◌, refl, ◌⊎◌, [], ◌∷◌, String, string_comparable, ◌==◌,
  if◌then◌else◌, pointer_comparable,
}
use sardis.Common.Int.{pos, ltb_ℤ, leb_ℤ, int_comparable}
use sardis.Common.Maps.{load, store}
use sardis.Extern.Erc.{join_all}
use sardis.Extern.Sets.{list_sets, unique}
use sardis.Extern.System.{directory, plain_system}
use sardis.Util.Dots.{default}
use sardis.Util.Path.{try_expand_home_dir}
use sardis.Subexec.Group.Validate.{joined as joined_groups}
use sardis.Subexec.Configuration.{join_configuration}
use sardis.Repo.Configuration.{
  joined, index_repos, index_groups, store_tags, group_members, rebuild_indexes,
}
use sardis.Repo.Validation.{
  rebuild_once, validate_repos, finish_validate, do_validate, repos_join, extend_groups,
  store_groups,
}
use sardis.Srv.Network.{network_join}
use sardis.Srv.Logging.{both as both_notify, NotifySettings, setup_logging, standard_output, plain}
use sardis.Srv.Settings.{ShellHistory, settings_join}
use sardis.Srv.Settings.Completing.{
  several as several_settings, Libraries, fill_history, fill_history-bounds,
}
use sardis.Sysmgmt.Links.{both as both_links}
use sardis.Sysmgmt.Systemd.{joined as joined_services}
use sardis.Sysmgmt.Arch.Building.{several as several_arch, arch_validate}
use sardis.Sysmgmt.Settings.{both as both_system, system_validate, system_join}
use sardis.Application.{
  Configuration, no_settings, migrate, migrate_hosts, migrate_lists, join, join_with, join_settings,
  expand_operations, generated_groups,
}
use sardis.Application.Migrating.{migrate-migrate}
use sardis.Application.Loading.{
  FileSystem, panicked, choose, choose_local, finish, local_of, read_configuration,
}
use sardis.Application.Linking.{
  ConfigurationError, several as several_configuration, link_one, link_files, expand_linked_files,
  Environment, validate_parts, generate_and_validate, validate_configuration,
}
use sardis.Application.Linking.Adding.{Adds, linked, link_files-Adds}
use sardis.Application.Linking.Tagging.{validate_configuration-HasTagGroup}
use sardis.Examples.Validation.{all_kinds, collectors, laptop, notes}

-- Nothing but one repository.
abbrev plain_configuration : Configuration
plain_configuration = record {
  settings = none;
  repos = record { git_repos = notes ∷ []; projects = []; tag_groups = some [] };
  operations = record {
    commands = [];
    ssh_agent_socket_path = "";
    alacritty_socket_path = "";
    include_local_shh = none;
    allow_undefined_sockets = none;
  };
  system = record {
    go_packages = [];
    arch = record { build_path = ""; packages = [] };
    services = [];
    links = [];
    discovery = none;
    services_legacy = [];
  };
  network_compat = [];
  hosts_compat = [];
  blog_compat = [];
  commands_compat = [];
  repo_compat = [];
  links_compat = [];
  repo_indexes = none;
  operations_generated = false;
  linked_files_read = false;
  original_path = "";
}

abbrev networked : Configuration
networked = record plain_configuration { network_compat = laptop ∷ [] }

migrate-migrate_example : migrate (migrate networked) ≡ migrate networked
migrate-migrate_example = migrate-migrate networked

-- The hosts of the old network are there twice.
hosts_test : migrate networked ≡ record plain_configuration {
  settings = some (record no_settings { network = laptop ∷ laptop ∷ [] });
}
unfolding migrate migrate_hosts migrate_lists
hosts_test = refl

-- "/one" has one configuration; "/two" has one for this host, without a global one.
abbrev disk : FileSystem
disk = record {
  exists = λ p. true;
  unmarshal_file = λ p.
      if p == "/two"
      then some (record { local = some (("host", some networked) ∷ []); global = none })
      else some (record { local = none; global = some networked });
  unmarshal_configuration = λ p. none;
}

two_test : read_configuration plain_system disk "/two" ≡ panicked
unfolding read_configuration choose choose_local finish local_of load
two_test = refl

abbrev base : Configuration
base = record plain_configuration { settings = some no_settings }

-- The linked file adds its repository, and not its host.
abbrev with_file : Configuration
with_file = record base { repos = record base.repos { git_repos = notes ∷ notes ∷ [] } }

link_test : link_files plain_system disk ("/one" ∷ []) base ≡ some (with_file, none ∷ [])
unfolding link_files link_one read_configuration choose finish migrate migrate_hosts migrate_lists
    join join_with join_settings settings_join unique network_join join_configuration repos_join
    extend_groups store_groups system_join default try_expand_home_dir
link_test = refl

link_files-Adds_example : Adds (linked plain_system disk ("/one" ∷ [])) base with_file
link_files-Adds_example =
    link_files-Adds plain_system disk ("/one" ∷ []) base with_file (none ∷ []) link_test

abbrev libraries : Libraries
libraries = record {
  dmenu_path = "dmenu";
  background_color = "#000000";
  text_color = "#ffffff";
  expand_home = λ p. some p;
  unmarshal_credentials = λ p c. (c, false);
  telegram_is_zero = λ t. true;
  telegram_is_valid = λ t. true;
  connection_info = record { hostname = ""; username = ""; password = "" };
}

abbrev environment : Environment
environment = record {
  sys = plain_system;
  fs = disk;
  files = record {
    is_arch = false;
    stat = λ p. directory;
    make_fails = false;
    expand_home = λ p. some p;
  };
  lib = libraries;
  sets = list_sets;
  env_target = "";
  same_host = λ a b. true;
  memory = record { spare = λ g. []; grow = λ c n. [] };
  of_indexes = all_kinds joined;
  of_notifications = all_kinds both_notify;
  of_service_settings = all_kinds several_settings;
  of_management = record {
    of_arch_settings = all_kinds several_arch;
    of_services = all_kinds joined_services;
    of_link_settings = all_kinds both_links;
    of_system = all_kinds both_system;
  };
  of_repositories = collectors;
  of_groups = all_kinds joined_groups;
  of_all = all_kinds several_configuration;
}

-- A group of the one repository.
abbrev tagged : Configuration
tagged = record plain_configuration {
  repos = record {
    git_repos = notes ∷ [];
    projects = [];
    tag_groups = some (("all", "notes" ∷ []) ∷ []);
  };
}

abbrev Result : Type 0
Result = Configuration × Option ConfigurationError

abbrev result : Result
result = elim (validate_configuration environment tagged) [ none ↦ (tagged, none) | some r ↦ r ]

result_test : validate_configuration environment tagged ≡ some result
unfolding validate_configuration expand_linked_files migrate migrate_hosts migrate_lists link_files
    generate_and_validate expand_operations generated_groups rebuild_once rebuild_indexes
    index_repos index_groups store_tags group_members load store validate_parts system_validate
    arch_validate do_validate finish_validate validate_repos join_all
result_test = refl

validate_configuration-HasTagGroup_example : result.1 ≢ none
validate_configuration-HasTagGroup_example =
    validate_configuration-HasTagGroup environment tagged result.0 result.1
      ((("all", "notes" ∷ []), [], refl), refl) result_test

abbrev history : ShellHistory
history = record {
  min_length = pos 0;
  max_length = pos 2;
  paths = [];
  exclude_prefixes = [];
  exclude_substrings = [];
}

-- The shortest line that is kept is longer than the longest.
history_test : fill_history history ≡ record history { min_length = pos 4 }
unfolding fill_history default
history_test = refl

fill_history-bounds_example :
    (ltb_ℤ (pos 0) (fill_history history).max_length ≡ true)
    × ((leb_ℤ (fill_history history).min_length (fill_history history).max_length ≡ true)
        ⊎ ((history.min_length ≡ pos 0) × ((fill_history history).min_length ≡ pos 4)))
fill_history-bounds_example = fill_history-bounds history

abbrev notify : NotifySettings
notify = record {
  name = "";
  target = "me@chat";
  host = "chat";
  user = "me";
  password = "";
  disabled = none;
}

abbrev chat : String
chat = "chat"

abbrev me : String
me = "me"

abbrev target : String
target = "me@chat"

abbrev nothing : String
nothing = ""

-- Settings that ask for JSON log without it.
logging_test :
    setup_logging false (record no_settings.logging { enable_json_formating = some true })
    ≡ (standard_output ∷ [], plain)
unfolding setup_logging
logging_test = refl
