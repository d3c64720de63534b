-- ===== src/Sysmgmt/Arch.antt =====
-- sysmgmt/arch.go: what discovery collects about the packages, and what is resolved and exported
-- from it. The caches hold sets of names; `Sets` stands for them. What a command prints is a
-- parameter. Times are numbers; log messages are left out.
pub mod Sources
pub mod Exports
pub mod Building
use Prim.Native.String.{◌++◌ as append}
use sardis.Common.{
  ℕ, Bool, true, false, not, ◌&&◌, ◌||◌, Option, none, some, List, [], ◌∷◌, ◌++◌, map, ◌⊎◌, inl,
  inr, String, string_comparable, ◌==◌, if◌then◌else◌,
}
use sardis.Common.Maps.{load, store, empty_map}
use sardis.Common.Text.{replace_first, str_ltb}
use sardis.Common.FilePath.{join_path}
use sardis.Common.Scanning.{scan_two, trim_of, contains_any}
use sardis.Common.Sorting.{sort_by}
use sardis.Extern.Erc.{Erc}
use sardis.Extern.Sets.{Sets}
use sardis.Sysmgmt.Packages.{
  PackageState, ArchPackage, ArchPackageIndex, ArchLinux, package_of, Output, ArchError,
  command_failed, package_names, store_versions, abs_name,
}

module _ (sets : Sets) where
  pub record Cache : Type 0 where
    pub materialized_at : Option ℕ
    pub materialization : ArchPackageIndex
    pub indexed_at : Option ℕ
    pub versions : List (String × String)
    pub explicitly_installed : sets.Set
    pub in_sync_db : sets.Set
    pub abs_packages : sets.Set
    pub not_in_sync_db : sets.Set
    pub dependencies : sets.Set

  abbrev pub no_cache : Cache
  no_cache = record {
    materialized_at = none;
    materialization = record { abs = []; aur = []; dep = []; usr = [] };
    indexed_at = none;
    versions = empty_map;
    explicitly_installed = sets.empty;
    in_sync_db = sets.empty;
    abs_packages = sets.empty;
    not_in_sync_db = sets.empty;
    dependencies = sets.empty;
  }

  unfoldable pub add_all : List String → sets.Set → sets.Set
  add_all [] set = set
  add_all (name ∷ names) set = add_all names (sets.add name set).0

  -- `processPackages` with a callback that adds to a set.
  unfoldable pub process_packages : Output → sets.Set → sets.Set × Option ArchError
  unfolding package_names add_all
  process_packages (inl lines) set = (add_all (package_names lines) set, none)
  process_packages (inr n) set = (set, some (command_failed n))

  unfoldable pub collect_versions :
      Output → List (String × String) → List (String × String) × Option ArchError
  unfolding store_versions
  collect_versions (inl lines) versions = (store_versions lines versions, none)
  collect_versions (inr n) versions = (versions, some (command_failed n))

  -- One path of `collectCurrentUsersABS`: a name of the foreign packages is added.
  unfoldable pub add_build :
      (build_path : String) → (foreign : sets.Set) → String → sets.Set → sets.Set
  unfolding abs_name contains_any
  add_build build_path foreign path set =
      let name = abs_name build_path path in
      if contains_any (b'/' ∷ []) name
      then set
      else if sets.check name foreign
      then (sets.add name set).0
      else set

  unfoldable pub add_builds :
      (build_path : String) → (foreign : sets.Set) → List String → sets.Set → sets.Set
  unfolding add_build
  add_builds build_path foreign [] set = set
  add_builds build_path foreign (path ∷ paths) set =
      add_builds build_path foreign paths (add_build build_path foreign path set)

  unfoldable pub collect_builds :
      String → Output → (foreign : sets.Set) → sets.Set → sets.Set × Option ArchError
  unfolding add_builds
  collect_builds build_path (inl paths) foreign set =
      (add_builds build_path foreign paths set, none)
  collect_builds build_path (inr n) foreign set = (set, some (command_failed n))

  -- The last part of discovery: the second job runs only if the first has no error.
  unfoldable pub collect_foreign :
      String
      → (run : String → Output) → (foreign abs : sets.Set) → sets.Set × sets.Set × Option ArchError
  unfolding process_packages collect_builds
  collect_foreign build_path run foreign abs =
      let (foreign', err) = process_packages (run "pacman --query --foreign") foreign in
      let find = append "sudo find " (append build_path " -name \"PKGBUILD\"") in
      let (abs', find_err) = collect_builds build_path (run find) foreign' abs in
      elim err [ some e ↦ (foreign', abs, some e) | none ↦ (foreign', abs', find_err) ]

  -- `doDiscovery`, which ends at the given time.
  unfoldable pub do_discovery :
      Erc ArchError
      → ArchLinux
      → (run : String → Output) → (now : ℕ) → Cache
      → Cache × Option ArchError
  unfolding collect_versions process_packages collect_foreign
  do_discovery erc conf run now cache =
      let (versions, e1) = collect_versions (run "pacman --query") cache.versions in
      let (explicit, e2) =
        process_packages (run "pacman --query --explicit") cache.explicitly_installed in
      let (in_sync, e3) = process_packages (run "pacman --query --native") cache.in_sync_db in
      let (dependencies, e4) = process_packages (run "pacman --query --deps") cache.dependencies in
      let (foreign, abs, e5) =
        collect_foreign conf.build_path run cache.not_in_sync_db cache.abs_packages in
      (
        record cache {
          indexed_at = some now;
          versions = versions;
          explicitly_installed = explicit;
          in_sync_db = in_sync;
          dependencies = dependencies;
          not_in_sync_db = foreign;
          abs_packages = abs;
        },
        erc.resolve (e1 ∷ e2 ∷ e3 ∷ e4 ∷ e5 ∷ []),
      )

  -- `Get` of the map of versions: the empty text for a name that is not there.
  abbrev version_of : Cache → String → String
  version_of cache name = elim (load name cache.versions) [ none ↦ "" | some version ↦ version ]

  abbrev is_installed : Cache → String → Bool
  is_installed cache name = elim (load name cache.versions) [ none ↦ false | some version ↦ true ]

  -- `populatePackage`
  pub populate_package : ArchLinux → Cache → ArchPackage → ArchPackage
  unfolding load join_path
  populate_package conf cache ap =
      let in_dist = sets.check ap.name cache.in_sync_db in
      let in_abs = sets.check ap.name cache.abs_packages in
      record ap {
        state = record {
          in_dist_repos = in_dist;
          in_users_abs = in_abs;
          from_aur = sets.check ap.name cache.not_in_sync_db;
          aur_package_without_abs = not in_dist && not in_abs;
          explicitly_installed = sets.check ap.name cache.explicitly_installed;
          is_dependency = sets.check ap.name cache.dependencies;
          installed = is_installed cache ap.name;
          configured = ap.state.configured;
        };
        path_abs =
            if in_abs && not (ap.path_abs == "")
            then join_path conf.build_path ap.name
            else ap.path_abs;
      }

  -- What `ResolvePackages` yields, after discovery: the installed packages, then the configured.
  unfoldable pub resolve_packages : (hostname : String) → ArchLinux → Cache → List ArchPackage
  unfolding populate_package
  resolve_packages hostname conf cache =
      map (λ kv. populate_package conf cache (package_of kv.0 kv.1 hostname)) cache.versions
      ++ map
          (λ ap.
            populate_package conf cache
              (record ap { state = record ap.state { configured = true } }))
          conf.packages

  abbrev listed : (hostname : String) → Cache → sets.Set → List ArchPackage
  listed hostname cache set =
      map (λ name. package_of name (version_of cache name) hostname) (sets.to_list set)

  -- `Export`; `none` is the panic where nothing was collected.
  unfoldable pub export :
      (hostname : String) → (now : ℕ) → Cache → Option (ArchPackageIndex × Cache)
  unfolding load
  export hostname now cache = elim cache.materialized_at [
    | some at ↦ some (cache.materialization, cache)
    | none ↦ elim cache.indexed_at [
      | none ↦ none
      | some at ↦
          let out : ArchPackageIndex = record {
            abs = listed hostname cache cache.abs_packages;
            aur = listed hostname cache cache.not_in_sync_db;
            dep = listed hostname cache cache.dependencies;
            usr = listed hostname cache cache.explicitly_installed;
          } in
          some (out, record cache { materialization = out; materialized_at = some now })
    ]
  ]
