-- ===== src/Application.antt =====
-- conf.go: the configuration of the application, which the files of several hosts and versions make
-- up: migrating the old fields, joining two configurations, and adding the generated groups.
-- Log messages are left out.
pub mod Migrating
pub mod Loading
pub mod Linking
use sardis.Common.{
  Bool, true, false, not, ◌&&◌, Option, none, some, List, [], ◌∷◌, ◌++◌, map, String, if◌then◌else◌,
}
use sardis.Common.Int.{pos}
use sardis.Extern.Erc.{Erc}
use sardis.Extern.Sets.{Sets}
use sardis.Extern.System.{System}
use sardis.Subexec.Group.{Group}
use sardis.Subexec.Configuration.{Configuration as Operations, join_configuration}
use sardis.Repo.Configuration.{
  Configuration as Repositories, GitRepository, Indexes, Error, concrete_task_groups,
}
use sardis.Repo.Projects.{Project}
use sardis.Repo.Synthetic.{synthetic_task_groups}
use sardis.Repo.Validation.{repos_join, rebuild_once}
use sardis.Srv.Network.{HostDefinition, network_join}
use sardis.Srv.Settings.{Settings, settings_join}
use sardis.Sysmgmt.Links.{LinkDefinition}
use sardis.Sysmgmt.Systemd.{task_groups}
use sardis.Sysmgmt.Settings.{Configuration as Management, system_join}

pub record Configuration : Type 0 where
  pub settings : Option Settings
  pub repos : Repositories
  pub operations : Operations
  pub system : Management
  pub network_compat : List HostDefinition
  pub hosts_compat : List HostDefinition
  pub blog_compat : List Project
  pub commands_compat : List Group
  pub repo_compat : List GitRepository
  pub links_compat : List LinkDefinition
  pub repo_indexes : Option Indexes
  pub operations_generated : Bool
  pub linked_files_read : Bool
  pub original_path : String

-- `&srv.Configuration{}`
abbrev pub no_settings : Settings
no_settings = record {
  logging = record {
    disable_standard_output = none;
    enable_json_formating = none;
    enable_json_color_formatting = none;
    disable_syslog = none;
    priority = 0;
  };
  credentials = record {
    path = "";
    twitter = record {
      username = "";
      consumer_key = "";
      consumer_secret = "";
      oauth_token = "";
      oauth_secret = "";
    };
    jira = record { username = ""; password = ""; url = ""; token = "" };
    github = record { username = ""; password = ""; url = ""; token = "" };
    aws = [];
  };
  notify = record { name = ""; target = ""; host = ""; user = ""; password = ""; disabled = none };
  telegram = record { name = ""; target = ""; token = ""; client = none };
  network = [];
  config_paths = [];
  dmenu_flags = record {
    background_color = "";
    font = "";
    lines = pos 0;
    path = "";
    text_color = "";
    prompt = "";
    monitor = pos 0;
    window_id = "";
  };
  with_annotations = false;
  annotation_separator = "";
  shell_history = record {
    min_length = pos 0;
    max_length = pos 0;
    paths = [];
    exclude_prefixes = [];
    exclude_substrings = [];
  };
}

abbrev is_empty : List HostDefinition → Bool
is_empty [] = true
is_empty (h ∷ hosts) = false

abbrev is_set : Option Settings → Bool
is_set none = false
is_set (some s) = true

abbrev as_blog : Project → Project
as_blog p = record p { kind = "blog" }

-- The lists of `Migrate` that have a place in the other parts.
unfoldable pub migrate_lists : Configuration → Configuration
migrate_lists conf = record conf {
  repos = record conf.repos {
    projects = conf.repos.projects ++ map as_blog conf.blog_compat;
    git_repos = conf.repos.git_repos ++ conf.repo_compat;
  };
  operations = record conf.operations {
    commands = conf.operations.commands ++ conf.commands_compat;
  };
  system = record conf.system {
    links = conf.system.links ++ conf.links_compat;
    services = conf.system.services ++ conf.system.services_legacy;
    services_legacy = [];
  };
  blog_compat = [];
  commands_compat = [];
  repo_compat = [];
  links_compat = [];
}

-- The hosts of `Migrate`, once those of the old network are appended to themselves.
unfoldable pub migrate_hosts : Option Settings → List HostDefinition → Configuration → Configuration
migrate_hosts none hosts conf = record conf { settings = none; network_compat = hosts }
migrate_hosts (some s) hosts conf = record conf {
  settings = some (record s { network = (s.network ++ conf.hosts_compat) ++ hosts });
  hosts_compat = [];
  network_compat = [];
}

-- `Migrate`
unfoldable pub migrate : Configuration → Configuration
unfolding migrate_lists migrate_hosts
migrate conf =
    let hosts = conf.network_compat ++ conf.network_compat in
    let settings =
      if not (is_set conf.settings) && not (is_empty hosts)
      then some no_settings
      else conf.settings in
    migrate_hosts settings hosts (migrate_lists conf)

module _ (sys : System) (file_exists : String → Bool) where
  -- `conf.Settings.Join(mcf.Settings)`; the outer `none` is the panic where only the second is set.
  unfoldable pub join_settings : Option Settings → Option Settings → Option (Option Settings)
  join_settings old none = some old
  join_settings none (some new) = none
  join_settings (some old) (some new) = some (some (settings_join sys file_exists old new))

  -- `Join`, with a configuration that is not nil; none is a panic.
  unfoldable pub join_with : Configuration → Configuration → Option Configuration
  join_with conf mcf = elim (join_settings conf.settings mcf.settings) [
    | none ↦ none
    | some settings ↦ elim (repos_join conf.repos mcf.repos) [
      | none ↦ none
      | some repos ↦ some (record conf {
        network_compat = network_join conf.network_compat mcf.network_compat;
        settings = settings;
        system = system_join conf.system mcf.system;
        repos = repos;
        operations = join_configuration conf.operations mcf.operations;
      })
    ]
  ]

  -- `Join`
  unfoldable pub join : Configuration → Option Configuration → Option Configuration
  unfolding join_with
  join conf none = some conf
  join conf (some mcf) = join_with conf mcf

-- The groups that `expandOperations` appends, with the indexes of the repositories; `none` is the panic of the indexes, whose errors are
-- dropped here.
unfoldable pub generated_groups : Sets → Erc Error → Configuration → Option (List Group × Indexes)
generated_groups sets erc conf = elim (rebuild_once sets erc conf.repo_indexes conf.repos) [
  | none ↦ none
  | some ix ↦ some (
    concrete_task_groups conf.repos
        ++ (synthetic_task_groups ix.0 ++ task_groups conf.system.services),
    ix.0,
  )
]

-- `expandOperations`: the flag is its error.
unfoldable pub expand_operations : Sets → Erc Error → Configuration → Option (Configuration × Bool)
unfolding generated_groups
expand_operations sets erc conf =
    if conf.operations_generated
    then some (record conf { operations_generated = true }, true)
    else (elim (generated_groups sets erc conf) [
      | none ↦ none
      | some made ↦ some (
        record conf {
          operations = record conf.operations { commands = conf.operations.commands ++ made.0 };
          repo_indexes = some made.1;
          operations_generated = true;
        },
        false,
      )
    ])
