-- ===== src/Repo/Validation.antt =====
-- repo/conf.go: validating and joining the configuration of the repositories.
pub mod TagGroups
use sardis.Common.{
  ℕ, Bool, true, false, not, ◌&&◌, ◌||◌, Option, none, some, ◌≡◌, ◌≢◌, refl, sym, ◌∙◌, ap,
  Bool-cases, Option-cases, inl, inr, ◌⊎◌, List, [], ◌∷◌, ◌++◌, map, String, string_comparable,
  ◌==◌, nat_beq, arith, eq_iff, if◌then◌else◌, All, All-split,
}
use sardis.Common.Maps.{load, store, load-store}
use sardis.Extern.Erc.{Erc, when, resolve-eq-none_iff}
use sardis.Extern.Sets.{Sets}
use sardis.Extern.System.{System}
use sardis.Repo.Projects.{ProjectError, projects_validate}
use sardis.Repo.Configuration.{
  GitRepository, Configuration, entries, Error, Indexes, knows, group_members, index_groups,
  rebuild_indexes,
}
use sardis.Repo.Jobs.{Problem, repository_validate}

pub data ValidationError : Type 0 where
  bad_projects : ProjectError → ValidationError
  bad_repository : Problem → ValidationError
  bad_groups : Error → ValidationError
  group_is_repository group_is_tag unknown_repository unknown_tag : String → ValidationError
  several : ValidationError → ValidationError → ValidationError

abbrev pub wrap {ℓ} : {A : Type ℓ} → (A → ValidationError) → Option A → Option ValidationError
wrap f none = none
wrap f (some a) = some (f a)

-- A tag group has an entry among the tags.
abbrev pub is_tag : Indexes → String → Bool
is_tag ix name = elim (load name ix.tags) [ none ↦ false | some names ↦ true ]

-- The checks of the tag groups.
unfoldable pub check_tags : Indexes → (group : String) → List String → List (Option ValidationError)
check_tags ix group [] = []
check_tags ix group (tg ∷ tags) =
    when (not (knows ix tg)) (unknown_repository tg)
    ∷ when (not (is_tag ix tg)) (unknown_tag group)
    ∷ check_tags ix group tags

unfoldable pub check_groups : Indexes → List (String × List String) → List (Option ValidationError)
unfolding check_tags
check_groups ix [] = []
check_groups ix ((group, tags) ∷ groups) =
    when (knows ix group) (group_is_repository group)
      ∷ when (is_tag ix group) (group_is_tag group)
      ∷ check_tags ix group tags
    ++ check_groups ix groups

-- The loop over the repositories: the completed ones, and what is pushed.
unfoldable pub validate_repos :
    System → Erc Problem → List GitRepository → List GitRepository × List (Option ValidationError)
unfolding repository_validate
validate_repos sys erc [] = ([], [])
validate_repos sys erc (rp ∷ repos) =
    let (filled, err) = repository_validate sys erc rp in
    let (rest, errs) = validate_repos sys erc repos in
    (filled ∷ rest, wrap bad_repository err ∷ errs)

-- The error collectors of the parts.
pub record Collectors : Type 1 where
  pub of_projects : Erc ProjectError
  pub of_repository : Erc Problem
  pub of_groups : Erc Error
  pub of_all : Erc ValidationError

-- The checks after the indexes are rebuilt; `none` is the panic for a name that is used twice.
unfoldable pub finish_validate :
    Collectors
    → Configuration
    → List (Option ValidationError)
    → Option (Indexes × Option Error)
    → Option (Configuration × Indexes × Option ValidationError)
unfolding check_groups
finish_validate ecs conf errs none = none
finish_validate ecs conf errs (some (ix, err)) = some (
  conf,
  ix,
  ecs.of_all.resolve (errs ++ (wrap bad_groups err ∷ check_groups ix (entries conf.tag_groups))),
)

-- `rebuildIndexes`, which keeps the indexes that were built before.
unfoldable pub rebuild_once :
    Sets → Erc Error → Option Indexes → Configuration → Option (Indexes × Option Error)
rebuild_once sets erc (some ix) conf = some (ix, none)
rebuild_once sets erc none conf = rebuild_indexes sets erc conf

-- `doValidate`, with the indexes that were built before.
unfoldable pub do_validate :
    System
    → Sets
    → Collectors
    → (built : Option Indexes) → Configuration
    → Option (Configuration × Indexes × Option ValidationError)
do_validate sys sets ecs built conf =
    let (repos, errs) = validate_repos sys ecs.of_repository conf.git_repos in
    let conf' = record conf { git_repos = repos } in
    let projects = projects_validate sets ecs.of_projects conf.projects in
    finish_validate ecs conf' (wrap bad_projects projects ∷ errs)
      (rebuild_once sets ecs.of_groups built conf')

unfoldable pub store_groups :
    List (String × List String) → List (String × List String) → List (String × List String)
unfolding store
store_groups [] out = out
store_groups ((group, tags) ∷ groups) out = store_groups groups (store group tags out)

-- `TagGroups.Extend`: assigning to a nil map panics, which is none.
unfoldable pub extend_groups :
    Option (List (String × List String))
    → Option (List (String × List String))
    → Option (Option (List (String × List String)))
unfolding store_groups
extend_groups (some groups) more = some (some (store_groups (entries more) groups))
extend_groups none more = elim (entries more) [ [] ↦ some none | g ∷ gs ↦ none ]

-- `Join`; the projects of the other configuration are left behind. None is the panic.
unfoldable pub repos_join : Configuration → Configuration → Option Configuration
unfolding extend_groups
repos_join conf mcf = elim (extend_groups conf.tag_groups mcf.tag_groups) [
  | none ↦ none
  | some groups ↦
      some (record conf { git_repos = conf.git_repos ++ mcf.git_repos; tag_groups = groups })
]
