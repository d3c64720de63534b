-- ===== src/Application/Linking.antt =====
-- conf.go: reading the linked files, and validating the whole. Validation is that of a first call;
-- its result is kept.
pub mod Adding
pub mod Keeping
pub mod Tagging
use sardis.Common.{
  Bool, true, false, not, Option, none, some, List, [], ◌∷◌, ◌++◌, map, String, if◌then◌else◌,
}
use sardis.Extern.Erc.{Erc}
use sardis.Extern.Sets.{Sets}
use sardis.Extern.System.{System}
use sardis.Util.Path.{try_expand_home_dir}
use sardis.Subexec.Group.{Group}
use sardis.Subexec.Group.Validate.{Error as GroupError}
use sardis.Subexec.Aliases.{Memory}
use sardis.Subexec.Validating.{operations_validate}
use sardis.Repo.Configuration.{Error as IndexError}
use sardis.Repo.Validation.{ValidationError, Collectors as RepositoryCollectors, do_validate}
use sardis.Srv.Logging.{NotifyError}
use sardis.Srv.Settings.{Settings}
use sardis.Srv.Settings.Completing.{SettingsError, Libraries, settings_validate}
use sardis.Sysmgmt.Settings.{SystemError, Files, Collectors as SystemCollectors, system_validate}
use sardis.Application.{Configuration, no_settings, migrate, join, expand_operations}
use sardis.Application.Loading.{
  LoadError, FileSystem, Outcome, loaded, failed, panicked, read_configuration,
}

pub data ConfigurationError : Type 0 where
  unreadable : LoadError → ConfigurationError
  nested_settings generated_twice : ConfigurationError
  of_settings : SettingsError → ConfigurationError
  of_system : SystemError → ConfigurationError
  of_repos : ValidationError → ConfigurationError
  of_operations : GroupError → ConfigurationError
  several : ConfigurationError → ConfigurationError → ConfigurationError

module _ (sys : System) (fs : FileSystem) where
  -- The switch of `expandLinkedFiles`: the configuration, and what is pushed; `none` is a panic.
  unfoldable pub link_one :
      Configuration → Outcome → Option (Configuration × Option ConfigurationError)
  link_one conf panicked = none
  link_one conf (failed e) = some (conf, some (unreadable e))
  link_one conf (loaded iconf) = elim iconf.settings [
    | some s ↦ some (conf, some nested_settings)
    | none ↦ elim (join sys fs.exists conf (some (migrate iconf))) [
      | none ↦ none
      | some joined ↦ some (joined, none)
    ]
  ]

  -- The loop of `expandLinkedFiles`.
  unfoldable pub link_files :
      List String → Configuration → Option (Configuration × List (Option ConfigurationError))
  unfolding link_one
  link_files [] conf = some (conf, [])
  link_files (fn ∷ fns) conf =
      elim (link_one conf (read_configuration sys fs (try_expand_home_dir sys fn))) [
        | none ↦ none
        | some step ↦ elim (link_files fns step.0) [
          | none ↦ none
          | some rest ↦ some (rest.0, step.1 ∷ rest.1)
        ]
      ]

  -- `expandLinkedFiles`; without settings it panics.
  unfoldable pub expand_linked_files :
      Erc ConfigurationError → Configuration → Option (Configuration × Option ConfigurationError)
  unfolding link_files
  expand_linked_files erc conf =
      if conf.linked_files_read then some (conf, none) else (elim (migrate conf).settings [
        | none ↦ none
        | some s ↦ elim (link_files s.config_paths (migrate conf)) [
          | none ↦ none
          | some linked ↦ some (record linked.0 { linked_files_read = true }, erc.resolve linked.1)
        ]
      ])

abbrev pub wrap : {A : Type 0} → (A → ConfigurationError) → Option A → Option ConfigurationError
wrap f none = none
wrap f (some a) = some (f a)

-- The collectors of the parts, and what the libraries and the host say.
pub record Environment : Type 1 where
  pub sys : System
  pub fs : FileSystem
  pub files : Files
  pub lib : Libraries
  pub sets : Sets
  pub env_target : String
  pub same_host : Group → Group → Bool
  pub memory : Memory
  pub of_indexes : Erc IndexError
  pub of_notifications : Erc NotifyError
  pub of_service_settings : Erc SettingsError
  pub of_management : SystemCollectors
  pub of_repositories : RepositoryCollectors
  pub of_groups : Erc GroupError
  pub of_all : Erc ConfigurationError

module _ (env : Environment) where
  -- The last checks of `doValidate`, with what was pushed before.
  unfoldable pub validate_parts :
      List (Option ConfigurationError)
      → Settings
      → Configuration
      → Option (Configuration × Option ConfigurationError)
  validate_parts errs s conf =
      let (settings, e3) =
        settings_validate env.sys env.lib env.of_notifications env.of_service_settings
          env.env_target s in
      let (operations, e6) =
        operations_validate env.same_host env.memory env.sys env.of_groups conf.operations in
      elim (system_validate env.sys env.files env.of_management conf.system) [
        | none ↦ none
        | some system ↦
            elim (do_validate env.sys env.sets env.of_repositories conf.repo_indexes conf.repos) [
              | none ↦ none
              | some repos ↦ some (
                record conf {
                  settings = some settings;
                  system = system.0;
                  repos = repos.0;
                  repo_indexes = some repos.1;
                  operations = operations;
                },
                env.of_all.resolve (
                    errs
                    ++ (wrap of_settings e3
                        ∷ wrap of_system system.1
                        ∷ wrap of_repos repos.2
                        ∷ wrap of_operations e6
                        ∷ [])),
              )
            ]
      ]

  unfoldable pub generate_and_validate :
      Option ConfigurationError → Configuration → Option (Configuration × Option ConfigurationError)
  unfolding validate_parts
  generate_and_validate e1 conf = elim (expand_operations env.sets env.of_indexes conf) [
    | none ↦ none
    | some (expanded, twice) ↦ elim expanded.settings [
      | none ↦ none
      | some s ↦
          validate_parts (e1 ∷ (if twice then some generated_twice else none) ∷ []) s expanded
    ]
  ]

  -- `doValidate`
  unfoldable pub validate_configuration :
      Configuration → Option (Configuration × Option ConfigurationError)
  unfolding generate_and_validate expand_linked_files
  validate_configuration conf =
      let settings : Settings = elim conf.settings [ none ↦ no_settings | some s ↦ s ] in
      elim (expand_linked_files env.sys env.fs env.of_all
        (record conf { settings = some settings })) [
          | none ↦ none
          | some linked ↦ generate_and_validate linked.1 linked.0
        ]
