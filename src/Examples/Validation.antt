-- ===== src/Examples/Validation.antt =====
-- Validating the settings of the repositories and of the hosts, and the groups of their tags.
use sardis.Common.{
  none, true, false, some, ◌≡◌, refl, List, [], ◌∷◌, map, keep, Bool, ◌↔◌, String,
  string_comparable,
}
use sardis.Common.Maps.{load, store}
use sardis.Extern.Erc.{Erc, chain, join_all}
use sardis.Extern.Sets.{list_sets}
use sardis.Extern.System.{plain_system}
use sardis.Repo.Configuration.{
  joined, GitRepository, Configuration, Indexes, index_repos, index_groups, store_tags,
  group_members, rebuild_indexes,
}
use sardis.Repo.Jobs.{both as both_problems, repository_validate}
use sardis.Repo.Projects.{
  both as both_projects, Project, duplicate_name, duplicate_repo, check_projects, projects_validate,
  full_name, full_repo_name,
}
use sardis.Repo.Synthetic.{HasActive, synthetic_task_groups, names_of, synthetic_task_groups-names}
use sardis.Repo.Validation.{
  rebuild_once, check_tags, several, group_is_tag, unknown_tag, Collectors, validate_repos,
  finish_validate, check_groups, do_validate,
}
use sardis.Srv.Network.{
  both as both_hosts, no_user, host_validate, HostDefinition, network_validate,
}

abbrev pub all_kinds : {Error : Type 0} → (Error → Error → Error) → Erc Error
all_kinds join = chain join (λ a b. Unit {0}) (λ e. tt) (λ a b e h. tt) (λ a b e h. tt)

abbrev pub collectors : Collectors
collectors = record {
  of_projects = all_kinds both_projects;
  of_repository = all_kinds both_problems;
  of_groups = all_kinds joined;
  of_all = all_kinds several;
}

abbrev pub notes : GitRepository
notes = record {
  name = "notes";
  path = "/notes";
  remote = "git";
  remote_name = "origin";
  branch = "main";
  local_sync = false;
  fetch = true;
  notify = false;
  disabled = false;
  logs = "none";
  pre = [];
  post = [];
  mirrors = [];
  tags = "home" ∷ [];
}

abbrev configuration : Configuration
configuration = record {
  git_repos = notes ∷ [];
  projects = [];
  tag_groups = some (("all", "notes" ∷ []) ∷ []);
}

abbrev indexes : Indexes
indexes = record {
  tags = ("home", "notes" ∷ []) ∷ ("all", "notes" ∷ []) ∷ [];
  lookup = ("notes", notes) ∷ [];
}

abbrev project : String → String → Project
project name repo = record {
  name = name;
  kind = "blog";
  repo_name = repo;
  notify = false;
  enabled = true;
  deploy_commands = [];
}

-- A second project without a name clashes with the first one of its repository.
projects_test :
    projects_validate list_sets collectors.of_projects (project "a" "r" ∷ project "" "r" ∷ [])
    ≡ some (both_projects duplicate_name duplicate_repo)
unfolding projects_validate check_projects full_name full_repo_name join_all
projects_test = refl

validate_test :
    do_validate plain_system list_sets collectors none configuration
    ≡ some (configuration, indexes, some (several (group_is_tag "all") (unknown_tag "all")))
unfolding do_validate rebuild_once validate_repos finish_validate check_groups check_tags
    rebuild_indexes index_repos index_groups store_tags group_members repository_validate
    projects_validate check_projects load store join_all
validate_test = refl

synthetic_task_groups-names_example :
    (selects : List String → Bool) × ((names : List String)
      → (selects names ≡ true) ↔ HasActive indexes names)
    × (map (λ g. names_of g.commands) (synthetic_task_groups indexes)
        ≡ map (λ t. t.0) (keep (λ t. selects t.1) indexes.tags)
          ∷ map (λ t. t.0) (keep (λ t. selects t.1) indexes.tags)
          ∷ [])
synthetic_task_groups-names_example = synthetic_task_groups-names indexes

abbrev pub laptop : HostDefinition
laptop = record {
  name = "laptop";
  user = "";
  hostname = "laptop.local";
  port = 22;
  protocol = "ssh";
  sardis = true;
}

user_test : network_validate (all_kinds both_hosts) (laptop ∷ []) ≡ some no_user
unfolding network_validate host_validate join_all
user_test = refl
