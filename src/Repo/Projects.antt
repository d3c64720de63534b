-- ===== src/Repo/Projects.antt =====
-- repo/blog.go: the projects that are deployed from a repository.
use sardis.Common.{
  Bool, ◌&&◌, ◌||◌, Option, none, some, List, [], ◌∷◌, String, string_comparable, ◌==◌,
  if◌then◌else◌,
}
use sardis.Extern.Erc.{Erc, when}
use sardis.Extern.Sets.{Sets}
use sardis.Util.Dots.{default}

pub record Project : Type 0 where
  pub name : String
  pub kind : String
  pub repo_name : String
  pub notify : Bool
  pub enabled : Bool
  pub deploy_commands : List String

pub data ProjectError : Type 0 where
  nameless duplicate_name duplicate_repo : ProjectError
  both : ProjectError → ProjectError → ProjectError

-- The name and the repository's name, each of which stands in for the other.
unfoldable pub full_name : Project → String
unfolding default
full_name bc = default bc.name bc.repo_name

unfoldable pub full_repo_name : Project → String
unfolding default full_name
full_repo_name bc = default bc.repo_name (full_name bc)

module _ (sets : Sets) where
  -- The loop of `projectsValidate`: what it pushes.
  unfoldable pub check_projects : List Project → sets.Set → List (Option ProjectError)
  unfolding full_name full_repo_name
  check_projects [] set = []
  check_projects (bc ∷ projects) set =
      let n = full_name bc in
      let r = full_repo_name bc in
      let nameless_project = bc.name == "" && bc.repo_name == "" in
      let set' = if nameless_project then set else (sets.add r (sets.add n set).0).0 in
      let rest = check_projects projects set' in
      if nameless_project
      then some nameless ∷ rest
      else when (sets.check n set) duplicate_name ∷ when (sets.check r set) duplicate_repo ∷ rest

  unfoldable pub projects_validate : Erc ProjectError → List Project → Option ProjectError
  unfolding check_projects
  projects_validate erc projects = erc.resolve (check_projects projects sets.empty)

-- `ProjectsByName`; the names are not completed here.
projects_by_name : String → List Project → Option Project
projects_by_name name [] = none
projects_by_name name (bc ∷ projects) =
    let rest = projects_by_name name projects in
    if bc.name == name || bc.repo_name == name then some bc else rest
