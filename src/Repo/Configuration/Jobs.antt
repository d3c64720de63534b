-- ===== src/Repo/Configuration/Jobs.antt =====
-- Which repositories get commands (repo/subexec.go, `ConcreteTaskGroups`).
use sardis.Common.{
  ℕ, ◌+◌, Bool, not, ◌&&◌, ◌||◌, ◌≡◌, refl, List, [], ◌∷◌, map, String, arith, keep,
}
use sardis.Subexec.Command.{Command}
use sardis.Subexec.Group.{Group}
use sardis.Repo.Configuration.{GitRepository, Configuration, add_commands, concrete_task_groups}
use sardis.Repo.Configuration.Lookups.{repo_names}

-- The repository is in use, and something is to be done with it.
abbrev is_active : GitRepository → Bool
is_active repo = not repo.disabled && (repo.fetch || repo.local_sync)

abbrev pub command_names : Group → List String
command_names g = map (λ cmd. cmd.name) g.commands

add_commands-names :
    (idx : ℕ) (repos : List GitRepository)
    → (map (λ (cmd : Command). cmd.name) (add_commands idx repos).0
        ≡ repo_names (keep (λ r. is_active r && r.local_sync) repos))
      × (map (λ (cmd : Command). cmd.name) (add_commands idx repos).1
          ≡ repo_names (keep is_active repos))
unfolding add_commands
add_commands-names idx [] = (refl, refl)
add_commands-names idx (repo ∷ repos) = ground (arith, add_commands-names (idx + 1) repos)

-- The group of updates has a command for each repository that is not disabled and is synced, the group
-- of pulls for each that is not disabled and is synced or fetched, in the order of the configuration;
-- there are no other groups.
concrete_task_groups-names :
    (conf : Configuration)
    → map command_names (concrete_task_groups conf)
      ≡ repo_names (keep (λ r. is_active r && r.local_sync) conf.git_repos)
        ∷ repo_names (keep is_active conf.git_repos)
        ∷ []
unfolding concrete_task_groups
concrete_task_groups-names conf = ground (arith, add_commands-names 0 conf.git_repos)
