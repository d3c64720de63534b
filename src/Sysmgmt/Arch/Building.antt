-- ===== src/Sysmgmt/Arch/Building.antt =====
-- sysmgmt/arch.go: the settings, and fetching, building and installing packages. The time, the
-- nonce and the log messages of the jobs are left out.
pub mod Fetches
use sardis.Common.{
  Bool, true, false, not, ◌&&◌, ◌||◌, Option, none, some, List, [], ◌∷◌, ◌++◌, map, keep, String,
  string_comparable, ◌==◌, if◌then◌else◌, ℕ,
}
use sardis.Common.Text.{contains}
use sardis.Common.FilePath.{join_path}
use sardis.Extern.Erc.{Erc, when}
use sardis.Extern.System.{System, Entry, absent, unreadable, directory, other}
use sardis.Util.Path.{try_expand_home_dir}
use sardis.Repo.Configuration.{GitRepository}
use sardis.Repo.Commands.{Step, args, Invocation, sprint}
use sardis.Repo.Jobs.{Problem, JobError, Ending, returned, panicked, Host, path_exists, fetch_job}
use sardis.Sysmgmt.Packages.{ArchPackage, ArchLinux}

pub data SettingsError : Type 0 where
  making not_a_directory no_name invalid_character : SettingsError
  several : SettingsError → SettingsError → SettingsError

-- The checks of the packages.
check_packages : List ArchPackage → List (Option SettingsError)
unfolding contains
check_packages [] = []
check_packages (pkg ∷ packages) =
    when (pkg.name == "") no_name
    ∷ when (contains pkg.name ".+=") invalid_character
    ∷ check_packages packages

-- What is pushed about the build path; `none` is the panic where it cannot be looked at. The flag
-- tells whether making the directory fails.
check_build_path : Entry → (fails : Bool) → Option (Option SettingsError)
check_build_path absent fails = some (when fails making)
check_build_path unreadable fails = none
check_build_path directory fails = some none
check_build_path other fails = some (some not_a_directory)

pub data ArchJobError : Type 0 where
  unnamed not_resolved : ArchJobError
  of_fetch : JobError → ArchJobError
  of_build : ℕ → ArchJobError

-- `RepoPackages`
repo_packages : ArchLinux → List String
repo_packages conf = map (λ pkg. pkg.name) (keep (λ pkg. pkg.state.in_dist_repos) conf.packages)

-- What `InstallPackages` runs.
install_arguments : ArchLinux → List String
unfolding repo_packages
install_arguments conf = "pacman" ∷ "--sync" ∷ "--refresh" ∷ repo_packages conf

-- The repository of a package's build files.
pub aur_repository : ArchLinux → String → GitRepository
unfolding join_path
aur_repository conf name = record {
  name = name;
  path = join_path conf.build_path name;
  remote = sprint ("https://aur.archlinux.org/" ∷ name ∷ ".git" ∷ []);
  remote_name = sprint ("aur." ∷ name ∷ []);
  branch = "master";
  local_sync = false;
  fetch = true;
  notify = false;
  disabled = false;
  logs = "";
  pre = [];
  post = [];
  mirrors = [];
  tags = [];
}

build_invocation : ArchLinux → String → Invocation
unfolding join_path
build_invocation conf name = record {
  directory = join_path conf.build_path name;
  steps = args ("makepkg" ∷ "--syncdeps" ∷ "--force" ∷ "--install" ∷ "--noconfirm" ∷ []) ∷ [];
}

module _ (sys : System) where
  abbrev with_build_path : ArchLinux → ArchLinux
  with_build_path conf = record conf {
    build_path =
        if conf.build_path == ""
        then join_path sys.home_dir "abs"
        else try_expand_home_dir sys conf.build_path;
  }

  -- The checks of `Validate`, after the build path is completed.
  check_settings :
      Erc SettingsError
      → (stat : String → Entry) → (make_fails : Bool) → ArchLinux
      → Option (ArchLinux × Option SettingsError)
  unfolding check_packages check_build_path
  check_settings erc stat make_fails conf =
      elim (check_build_path (stat conf.build_path) make_fails) [
        | none ↦ none
        | some pushed ↦ some (conf, erc.resolve (pushed ∷ check_packages conf.packages))
      ]

  -- `ArchLinux.Validate`; the flags tell whether this is Arch Linux, and whether a directory cannot
  -- be made.
  unfoldable pub arch_validate :
      Erc SettingsError
      → (is_arch : Bool) → (stat : String → Entry) → (make_fails : Bool) → ArchLinux
      → Option (ArchLinux × Option SettingsError)
  unfolding check_settings join_path try_expand_home_dir
  arch_validate erc is_arch stat make_fails conf =
      if not is_arch
      then some (conf, none)
      else check_settings erc stat make_fails (with_build_path conf)

  module _ (erc : Erc Problem) (h : Host) where
    abbrev fetch_ending : Ending JobError → Ending ArchJobError
    fetch_ending (returned none) = returned none
    fetch_ending (returned (some e)) = returned (some (of_fetch e))
    fetch_ending panicked = panicked

    -- `FetchPackageFromAUR`; its second argument is not used.
    fetch_package_from_aur : ℕ → ArchLinux → String → h.World → h.World × Ending ArchJobError
    fetch_package_from_aur fuel conf name w =
        if name == ""
        then (w, returned (some unnamed))
        else (let (repo, w', end) = fetch_job sys erc h fuel (aur_repository conf name) w in
            (w', fetch_ending end))

    -- `BuildPackageInABS`, after the fetch.
    build_fetched :
        ArchLinux → String → h.World × Ending ArchJobError → h.World × Ending ArchJobError
    unfolding build_invocation join_path
    build_fetched conf name (w, panicked) = (w, panicked)
    build_fetched conf name (w, returned (some e)) = (w, returned (some e))
    build_fetched conf name (w, returned none) =
        if not (path_exists h (join_path (join_path conf.build_path name) "PKGBUILD") w)
        then (w, returned (some not_resolved))
        else (let (w', err) = h.run (build_invocation conf name) w in
            (w', returned (elim err [ none ↦ none | some n ↦ some (of_build n) ])))

    -- `BuildPackageInABS`
    pub build_package_in_abs : ℕ → ArchLinux → String → h.World → h.World × Ending ArchJobError
    unfolding fetch_package_from_aur build_fetched
    build_package_in_abs fuel conf name w =
        if name == ""
        then (w, returned (some unnamed))
        else build_fetched conf name (fetch_package_from_aur fuel conf name w)
