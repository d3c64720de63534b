-- ===== src/Examples/Repositories.antt =====
-- Two repositories with tags.
use sardis.Common.{
  true, false, ◌&&◌, none, some, ◌≡◌, refl, List, [], ◌∷◌, String, string_comparable,
}
use sardis.Common.Maps.{load, store}
use sardis.Extern.Erc.{Erc, chain, join_all}
use sardis.Extern.Sets.{list_sets, member}
use sardis.Subexec.Filter.Counting.{AreDistinct}
use sardis.Repo.Configuration.{
  GitRepository, Configuration, Error, joined, Indexes, knows, rebuild_indexes, index_repos,
  index_groups, store_tags, group_members, find_all, find_from, find_tagged,
}
use sardis.Repo.Configuration.Lookups.{repo_names, all_meant, find_all-AreDistinct, member-find_all}

data Wraps : Error → Error → Type 0 where
  itself : {e : Error} → Wraps e e
  left : {a b e : Error} → Wraps a e → Wraps (joined a b) e
  right : {a b e : Error} → Wraps b e → Wraps (joined a b) e

abbrev errors : Erc Error
errors = chain joined Wraps (λ e. itself) (λ a b e h. left h) (λ a b e h. right h)

abbrev repo_tagged : String → List String → GitRepository
repo_tagged name tags = record {
  name = name;
  path = "";
  remote = "git";
  remote_name = "origin";
  branch = "main";
  local_sync = true;
  fetch = false;
  notify = false;
  disabled = false;
  logs = "";
  pre = [];
  post = [];
  mirrors = [];
  tags = tags;
}

abbrev dots : GitRepository
dots = repo_tagged "dots" ("home" ∷ [])

abbrev notes : GitRepository
notes = repo_tagged "notes" ("home" ∷ "text" ∷ [])

abbrev configuration : Configuration
configuration = record {
  git_repos = dots ∷ notes ∷ [];
  projects = [];
  tag_groups = some (("all", "home" ∷ []) ∷ []);
}

abbrev indexes : Indexes
indexes = record {
  tags =
      ("home", "dots" ∷ "notes" ∷ [])
      ∷ ("text", "notes" ∷ [])
      ∷ ("all", "notes" ∷ "dots" ∷ [])
      ∷ [];
  lookup = ("dots", dots) ∷ ("notes", notes) ∷ [];
}

rebuild_test : rebuild_indexes list_sets errors configuration ≡ some (indexes, none)
unfolding rebuild_indexes index_repos index_groups store_tags group_members load store join_all
rebuild_test = refl

find_test : repo_names (find_all list_sets indexes ("notes" ∷ "all" ∷ [])) ≡ "notes" ∷ "dots" ∷ []
unfolding find_all find_from find_tagged load
find_test = refl

find_all-AreDistinct_example :
    AreDistinct (repo_names (find_all list_sets indexes ("notes" ∷ "all" ∷ [])))
find_all-AreDistinct_example =
    find_all-AreDistinct list_sets errors configuration indexes none ("notes" ∷ "all" ∷ [])
      rebuild_test

member-find_all_example :
    member "dots" (repo_names (find_all list_sets indexes ("notes" ∷ "all" ∷ [])))
    ≡ (knows indexes "dots" && member "dots" (all_meant indexes ("notes" ∷ "all" ∷ [])))
member-find_all_example =
    member-find_all list_sets errors configuration indexes none ("notes" ∷ "all" ∷ []) "dots"
      rebuild_test
