-- ===== src/Repo/Configuration.antt =====
-- repo/conf.go and repo/subexec.go: the indexes of repositories by name and by tag, the lookups, and
-- the groups of commands. A job is told by a number.
pub mod Indexing
pub mod Lookups
pub mod Jobs
use sardis.Common.{
  ℕ, zero, suc, ◌+◌, ◌*◌, Bool, true, false, not, ◌&&◌, ◌||◌, Option, none, some, List, [], ◌∷◌,
  ◌++◌, String, string_comparable, ◌==◌, nat_beq, if◌then◌else◌, length,
}
use sardis.Common.Int.{ℤ, pos, negsuc}
use sardis.Common.Maps.{load, store, empty_map}
use sardis.Extern.Erc.{Erc, when}
use sardis.Extern.Sets.{Sets}
use sardis.Subexec.Command.{Command}
use sardis.Subexec.Group.{Group}
use sardis.Repo.Projects.{Project}

pub record GitRepository : Type 0 where
  pub name : String
  pub path : String
  pub remote : String
  pub remote_name : String
  pub branch : String
  pub local_sync : Bool
  pub fetch : Bool
  pub notify : Bool
  pub disabled : Bool
  pub logs : String
  pub pre : List String
  pub post : List String
  pub mirrors : List String
  pub tags : List String

-- `TagGroups` in the order in which Go ranges over it.
pub record Configuration : Type 0 where
  pub git_repos : List GitRepository
  pub projects : List Project
  -- None is a nil map.
  pub tag_groups : Option (List (String × List String))

-- What ranging over a map gives.
abbrev pub entries : Option (List (String × List String)) → List (String × List String)
entries none = []
entries (some groups) = groups

pub data Error : Type 0 where
  empty_group : (group : String) → Error
  joined : Error → Error → Error

-- The fields of `caches`.
pub record Indexes : Type 0 where
  pub tags : List (String × List String)
  pub lookup : List (String × GitRepository)

abbrev pub no_indexes : Indexes
no_indexes = record { tags = empty_map; lookup = empty_map }

-- `tags[key]`, nil for a missing key.
abbrev at_tag : String → Indexes → List String
at_tag key ix = elim (load key ix.tags) [ none ↦ [] | some names ↦ names ]

abbrev pub knows : Indexes → String → Bool
knows ix name = elim (load name ix.lookup) [ none ↦ false | some rp ↦ true ]

-- The repository joins each of its tags.
unfoldable pub store_tags : (name : String) → List String → Indexes → Indexes
store_tags name [] ix = ix
store_tags name (tg ∷ tags) ix =
    store_tags name tags (record ix { tags = store tg (at_tag tg ix ++ name ∷ []) ix.tags })

-- The loop over the repositories; `none` is the panic for a name that is used twice.
unfoldable pub index_repos : List GitRepository → Indexes → Option Indexes
unfolding store_tags
index_repos [] ix = some ix
index_repos (rp ∷ repos) ix = elim (knows ix rp.name) [
  | true ↦ none
  | false ↦
      index_repos repos
        (store_tags rp.name rp.tags (record ix { lookup = store rp.name rp ix.lookup }))
]

module _ (sets : Sets) where
  abbrev pub extend : List String → sets.Set → sets.Set
  extend [] s = s
  extend (x ∷ xs) s = extend xs (sets.add x s).0

  -- The repositories of a group of tags.
  unfoldable pub group_members : Indexes → List String → sets.Set → sets.Set
  group_members ix [] group = group
  group_members ix (tag ∷ tags) group =
      let tagged = extend (at_tag tag ix) group in
      group_members ix tags (if knows ix tag then (sets.add tag tagged).0 else tagged)

  unfoldable pub index_groups :
      List (String × List String) → Indexes → Indexes × List (Option Error)
  unfolding group_members
  index_groups [] ix = (ix, [])
  index_groups ((gt, tags) ∷ groups) ix =
      let group = group_members ix tags sets.empty in
      let (ix', errors) =
        index_groups groups (record ix { tags = store gt (sets.to_list group) ix.tags }) in
      (ix', when (nat_beq (sets.len group) 0) (empty_group gt) ∷ errors)

  -- `rebuildIndexes` of a configuration that was not processed before.
  unfoldable pub rebuild_indexes : Erc Error → Configuration → Option (Indexes × Option Error)
  unfolding index_repos index_groups
  rebuild_indexes erc conf = elim (index_repos conf.git_repos no_indexes) [
    | none ↦ none
    | some ix ↦
        let (ix', errors) = index_groups (entries conf.tag_groups) ix in
        some (ix', erc.resolve errors)
  ]

  -- The inner loop of `FindAll`.
  unfoldable pub find_tagged : Indexes → List String → sets.Set → List GitRepository × sets.Set
  find_tagged ix [] seen = ([], seen)
  find_tagged ix (rtn ∷ rtns) seen =
      let (seen', had) = sets.add rtn seen in
      let (rest, after) = find_tagged ix rtns seen' in
      elim (load rtn ix.lookup) [
        | none ↦ (rest, after)
        | some rp ↦ if had then (rest, after) else (rp ∷ rest, after)
      ]

  unfoldable pub find_from : Indexes → List String → sets.Set → List GitRepository
  unfolding find_tagged
  find_from ix [] seen = []
  find_from ix (id ∷ ids) seen = elim (load id ix.lookup) [
    | some rp ↦
        let (seen', had) = sets.add rp.name seen in
        let rest = find_from ix ids seen' in if had then rest else rp ∷ rest
    | none ↦
        let (found, seen') = find_tagged ix (at_tag id ix) seen in found ++ find_from ix ids seen'
  ]

  -- `FindAll`
  unfoldable pub find_all : Indexes → List String → List GitRepository
  unfolding find_from
  find_all ix ids = find_from ix ids sets.empty

-- What `FindOne` gives; `loops` is for the recursion only.
pub data Found : Type 0 where
  repository : GitRepository → Found
  several : ℕ → Found
  missing : Found
  loops : Found

unfoldable pub find_one : (fuel : ℕ) → Indexes → String → Found
find_one zero ix name = loops
find_one (suc fuel) ix name = elim (load name ix.lookup) [
  | some rp ↦ repository rp
  | none ↦ elim (at_tag name ix) [
    | [] ↦ missing
    | only ∷ rest ↦ elim rest [
      | [] ↦ find_one fuel ix only
      | second ∷ more ↦ several (suc (suc (length more)))
    ]
  ]
]

-- The commands of `ConcreteTaskGroups`; a job is told by the index of its repository.
abbrev job_command : GitRepository → ℤ → ℕ → Command
job_command repo hint job = record {
  name = repo.name;
  group_name = "";
  group_category = "";
  directory = "";
  environment = none;
  command = "";
  arg = "";
  commands = [];
  override_default = false;
  notify = some repo.notify;
  background = none;
  sort_hint = hint;
  logs = "";
  worker_definition = some job;
  unaliased_name = "";
}

add_commands : ℕ → List GitRepository → List Command × List Command
add_commands idx [] = ([], [])
add_commands idx (repo ∷ repos) =
    let (update, pull) = add_commands (idx + 1) repos in
    if repo.disabled
    then (update, pull)
    else if not repo.fetch && not repo.local_sync
    then (update, pull)
    else (
      if repo.local_sync then job_command repo (pos 16) (2 * idx + 1) ∷ update else update,
      job_command repo (negsuc 3) (2 * idx) ∷ pull,
    )

abbrev repo_group : String → ℤ → List Command → Group
repo_group name hint commands = record {
  category = "repo";
  name = name;
  aliases = [];
  directory = "";
  environment = none;
  cmd_name_prefix = "";
  command = "";
  notify = none;
  background = none;
  host = none;
  commands = commands;
  menu_selections = [];
  sort_hint = hint;
  synthetic = true;
}

pub concrete_task_groups : Configuration → List Group
unfolding add_commands
concrete_task_groups conf =
    let (update, pull) = add_commands 0 conf.git_repos in
    repo_group "update" (pos 16) update ∷ repo_group "pull" (negsuc 7) pull ∷ []
