-- ===== src/Sysmgmt/Links.antt =====
-- sysmgmt/links.go, with `Validate` of sysmgmt/discovery.go: the symbolic links that the
-- configuration manages. Walking the file system for links is not modelled; log messages are left
-- out.
pub mod Settings
pub mod Creating
use sardis.Common.{
  ℕ, Bool, true, false, not, ◌&&◌, ◌||◌, Option, none, some, List, [], ◌∷◌, ◌++◌, map, String,
  string_comparable, ◌==◌, if◌then◌else◌, length,
}
use sardis.Common.Maps.{store}
use sardis.Common.Sorting.{sort_by}
use sardis.Common.Text.{replace_all, str_ltb}
use sardis.Common.FilePath.{dir, base, join_path}
use sardis.Extern.Erc.{Erc, when}
use sardis.Extern.System.{System, Entry, absent, unreadable, directory, other}
use sardis.Util.Path.{try_expand_home_dir}

pub record LinkDefinition : Type 0 where
  pub name : String
  pub path : String
  pub target : String
  pub update : Bool
  pub require_sudo : Bool
  pub defined : Bool
  pub path_exists : Bool
  pub target_exists : Bool

pub record LinkDiscovery : Type 0 where
  pub search_paths : List String
  pub ignore_path_prefixes : List String
  pub ignore_target_prefixes : List String
  pub skip_missing_targets : Option Bool
  pub skip_resolved_targets : Option Bool

-- `failed` is an error of the host; `panicked` is one that a deferred `Recover` caught.
pub data LinkError : Type 0 where
  no_target no_name no_location no_search_tree not_a_tree panicked : LinkError
  failed : ℕ → LinkError
  both : LinkError → LinkError → LinkError

-- `LessThan`
less_than : LinkDefinition → LinkDefinition → Bool
unfolding str_ltb
less_than lnd second =
    str_ltb lnd.path second.path
    || (not lnd.path_exists && second.path_exists)
    || (not lnd.target_exists && second.target_exists)

-- The loop of `Resolve`.
store_links : List LinkDefinition → List (String × LinkDefinition) → List (String × LinkDefinition)
unfolding store
store_links [] out = out
store_links (link ∷ links) out = store_links links (store link.path link out)

resolve_links : List LinkDefinition → List (String × LinkDefinition)
unfolding store_links
resolve_links links = store_links links []

-- The two parts of `LinkDefinition.Validate` that fill in a field, with what they push.
pub fill_name : LinkDefinition → LinkDefinition × Option LinkError
unfolding dir
fill_name lnd =
    if lnd.name == ""
    then if not (dir lnd.path == "")
      then (record lnd { name = dir lnd.path }, none)
      else (lnd, some no_name)
    else (lnd, none)

pub fill_path : LinkDefinition → LinkDefinition × Option LinkError
unfolding dir base
fill_path lnd =
    if lnd.path == ""
    then if not (base lnd.name == "") && not (dir lnd.name == "")
      then (record lnd { path = base lnd.name; name = dir lnd.name }, none)
      else (lnd, some no_location)
    else (lnd, none)

module _ (erc : Erc LinkError) where
  -- `LinkDefinition.Validate`
  pub link_validate : LinkDefinition → LinkDefinition × Option LinkError
  unfolding fill_name fill_path
  link_validate lnd =
      let (named, e1) = fill_name lnd in
      let (placed, e2) = fill_path named in
      (placed, erc.resolve (when (lnd.target == "") no_target ∷ e1 ∷ e2 ∷ []))

  -- The loop of `expand`; `homedir.Expand` gives none for an error, and the link stays as it is.
  module _ (sys : System) (expand_home : String → Option String) where
    expand_link : LinkDefinition → LinkDefinition × Option LinkError
    unfolding replace_all
    expand_link lnd = elim (expand_home (replace_all lnd.target "{{hostname}}" sys.hostname)) [
      | none ↦ (lnd, some (failed 0))
      | some target ↦ elim (expand_home (replace_all lnd.path "{{hostname}}" sys.hostname)) [
        | none ↦ (lnd, some (failed 0))
        | some path ↦ (record lnd { target = target; path = path }, none)
      ]
    ]

    expand_links : List LinkDefinition → List LinkDefinition × List (Option LinkError)
    unfolding expand_link
    expand_links [] = ([], [])
    expand_links (lnd ∷ links) =
        let (lnd', err) = expand_link lnd in
        let (links', errs) = expand_links links in (lnd' ∷ links', err ∷ errs)

    validate_all : List LinkDefinition → List LinkDefinition × List (Option LinkError)
    unfolding link_validate
    validate_all [] = ([], [])
    validate_all (lnd ∷ links) =
        let (lnd', err) = link_validate lnd in
        let (links', errs) = validate_all links in (lnd' ∷ links', err ∷ errs)

    -- The search paths of `LinkDiscovery.Validate`: `stat` is nil where it fails, and
    -- asking it panics.
    check_trees : (String → Entry) → List String → List (Option LinkError) × Bool
    check_trees stat [] = ([], false)
    check_trees stat (path ∷ paths) = elim (stat path) [
      | absent ↦ (some no_search_tree ∷ some panicked ∷ [], true)
      | unreadable ↦ (none ∷ some panicked ∷ [], true)
      | directory ↦ let (errs, stopped) = check_trees stat paths in (none ∷ none ∷ errs, stopped)
      | other ↦
          let (errs, stopped) = check_trees stat paths in (none ∷ some not_a_tree ∷ errs, stopped)
    ]

    -- `slices.Compact`
    compact : List String → List String
    compact [] = []
    compact (x ∷ []) = x ∷ []
    compact (x ∷ y ∷ xs) = let rest = compact (y ∷ xs) in if x == y then rest else x ∷ rest

    abbrev expanded : LinkDiscovery → LinkDiscovery
    expanded disco = record {
      search_paths =
          map (try_expand_home_dir sys)
            (elim disco.search_paths [ [] ↦ sys.home_dir ∷ [] | p ∷ ps ↦ p ∷ ps ]);
      ignore_path_prefixes = map (try_expand_home_dir sys) disco.ignore_path_prefixes;
      ignore_target_prefixes = map (try_expand_home_dir sys) disco.ignore_target_prefixes;
      skip_missing_targets = disco.skip_missing_targets;
      skip_resolved_targets = disco.skip_resolved_targets;
    }

    discovery_validate : (String → Entry) → LinkDiscovery → LinkDiscovery × Option LinkError
    unfolding try_expand_home_dir check_trees sort_by str_ltb compact
    discovery_validate stat disco =
        let ready = expanded disco in
        let (errs, stopped) = check_trees stat ready.search_paths in
        (
          if stopped
              then ready
              else record ready { search_paths = compact (sort_by str_ltb ready.search_paths) },
          erc.resolve errs,
        )

    abbrev no_discovery : LinkDiscovery
    no_discovery = record {
      search_paths = [];
      ignore_path_prefixes = [];
      ignore_target_prefixes = [];
      skip_missing_targets = none;
      skip_resolved_targets = none;
    }

    -- `LinkConfiguration.Validate`
    unfoldable pub links_validate :
        (String → Entry)
        → List LinkDefinition
        → Option LinkDiscovery
        → List LinkDefinition × LinkDiscovery × Option LinkError
    unfolding expand_links validate_all discovery_validate
    links_validate stat links discovery =
        let (expanded_links, errs) = expand_links links in
        let (valid, more) = validate_all expanded_links in
        let (disco, err) =
          discovery_validate stat (elim discovery [ none ↦ no_discovery | some d ↦ d ]) in
        (valid, disco, erc.resolve (erc.resolve errs ∷ more ++ err ∷ []))

-- The file system and the commands of a link's job. `eval_symlinks` is none for an error.
pub record Files : Type 1 where
  pub World : Type 0
  pub exists : String → World → Bool
  pub eval_symlinks : String → World → Option String
  pub remove : String → World → World × Option ℕ
  pub mkdir_all : String → World → World × Option ℕ
  pub symlink : (target path : String) → World → World × Option ℕ
  -- A command that sudo runs, as its argument lists.
  pub sudo : List (List String) → World → World × Option ℕ

module _ (fs : Files) (erc : Erc LinkError) where
  abbrev pub failure : Option ℕ → Option LinkError
  failure none = none
  failure (some n) = some (failed n)

  -- The last part of `CreateLinkJob`, after the errors that were pushed: with sudo, and without.
  pub make_sudo : LinkDefinition → List (Option LinkError) → fs.World → fs.World × Option LinkError
  make_sudo lnd errs w =
      let link_dir = dir lnd.target in
      let mkdir = "mkdir" ∷ "-p" ∷ link_dir ∷ [] in
      let ln = "ln" ∷ "-s" ∷ lnd.target ∷ lnd.path ∷ [] in
      let (w', err) = fs.sudo (if fs.exists link_dir w then ln ∷ [] else mkdir ∷ ln ∷ []) w in
      (w', erc.resolve (errs ++ failure err ∷ []))

  unfoldable pub make_dir : String → fs.World → fs.World × Option ℕ
  make_dir link_dir w = if fs.exists link_dir w then (w, none) else fs.mkdir_all link_dir w

  unfoldable pub make_plain :
      LinkDefinition → List (Option LinkError) → fs.World → fs.World × Option LinkError
  make_plain lnd errs w =
      let (w1, e1) = make_dir (dir lnd.target) w in
      let (w2, e2) = fs.symlink lnd.target lnd.path w1 in
      (w2, erc.resolve (errs ++ failure e1 ∷ failure e2 ∷ []))

  unfoldable pub make_link :
      LinkDefinition → List (Option LinkError) → fs.World → fs.World × Option LinkError
  make_link lnd errs w = if lnd.require_sudo then make_sudo lnd errs w else make_plain lnd errs w

  -- What is removed is the link's name under its path.
  pub remove_old : LinkDefinition → fs.World → fs.World × Option ℕ
  remove_old lnd w =
      let dst = join_path lnd.path lnd.name in
      if lnd.require_sudo then fs.sudo (("rm" ∷ dst ∷ []) ∷ []) w else fs.remove dst w

  pub replace_link : LinkDefinition → fs.World → fs.World × Option LinkError
  replace_link lnd w = elim (fs.eval_symlinks lnd.path w) [
    | none ↦ (w, erc.resolve (some (failed 0) ∷ []))
    | some target ↦
        let (w1, err) = remove_old lnd w in
        if not (target == lnd.target) then make_link lnd (failure err ∷ []) w1 else (w, none)
  ]

  -- `CreateLinkJob`; the deferred function replaces the error by what was collected.
  unfoldable pub create_link_job : LinkDefinition → fs.World → fs.World × Option LinkError
  create_link_job lnd w =
      if not (fs.exists lnd.target w)
      then (w, none)
      else if fs.exists lnd.path w
      then if not lnd.update then (w, none) else replace_link lnd w
      else make_link lnd [] w
