-- ===== src/Examples/Packages.antt =====
-- The packages of a host with one foreign package that has a build directory.
use sardis.Common.{
  none, some, true, ◌≡◌, refl, List, [], ◌∷◌, ◌++◌, inl, inr, String, string_comparable, ◌==◌,
  if◌then◌else◌, eq_iff, arith,
}
use sardis.Common.Maps.{load, store}
use sardis.Common.Text.{replace_first}
use sardis.Common.FilePath.{join_path}
use sardis.Common.Scanning.{scan_two, trim_of, contains_any}
use sardis.Extern.Erc.{Erc, chain}
use sardis.Extern.Sets.{list_sets}
use sardis.Extern.System.{plain_system, absent, other}
use sardis.Util.Path.{try_expand_home_dir}
use sardis.Repo.Commands.{Invocation, pull_invocation, clone_invocation}
use sardis.Repo.Jobs.{failed, returned, Host, path_exists}
use sardis.Sysmgmt.Packages.{
  ArchPackageIndex, ArchLinux, Output, ArchError, both, package_of, package_names, store_versions,
  abs_name,
}
use sardis.Sysmgmt.Arch.{
  Cache, no_cache, add_all, process_packages, collect_versions, add_build, add_builds,
  collect_builds, collect_foreign, do_discovery, export,
}
use sardis.Sysmgmt.Arch.Exports.{
  AbsIsForeign, fresh, discovered, export-AbsIsForeign, export-do_discovery,
}
use sardis.Sysmgmt.Arch.Building.{of_fetch, of_build, not_resolved, build_package_in_abs}
use sardis.Sysmgmt.Arch.Building.Fetches.{makepkg, logged_repository, build_package_in_abs_runs}
use sardis.Examples.Jobs.{problems_of}

abbrev errors : Erc ArchError
errors = chain both (λ a b. Unit {0}) (λ e. tt) (λ a b e h. tt) (λ a b e h. tt)

abbrev arch : ArchLinux
arch = record { build_path = "/abs"; packages = package_of "vim" "" "" ∷ [] }

abbrev pacman : String → Output
pacman command =
    if command == "pacman --query"
    then inl ("yay 12" ∷ "vim 9.1" ∷ "broken" ∷ [])
    else if command == "pacman --query --foreign"
    then inl ("yay 12" ∷ [])
    else if command == "sudo find /abs -name \"PKGBUILD\""
    then inl ("/abs/yay/PKGBUILD" ∷ "/abs/vim/PKGBUILD" ∷ "/abs/yay/src/PKGBUILD" ∷ [])
    else if command == "pacman --query --native"
    then inl ("vim 9.1" ∷ [])
    else inr 1

abbrev found : Cache list_sets
found = (do_discovery list_sets errors arch pacman 5 (no_cache list_sets)).0

abbrev index : ArchPackageIndex
index = record {
  abs = package_of "yay" "12" "host" ∷ [];
  aur = package_of "yay" "12" "host" ∷ [];
  dep = [];
  usr = [];
}

found_test : found ≡ record {
  materialized_at = none;
  materialization = record { abs = []; aur = []; dep = []; usr = [] };
  indexed_at = some 5;
  versions = ("yay", "12") ∷ ("vim", "9.1") ∷ [];
  explicitly_installed = [];
  in_sync_db = "vim" ∷ [];
  abs_packages = "yay" ∷ [];
  not_in_sync_db = "yay" ∷ [];
  dependencies = [];
}
unfolding do_discovery collect_versions process_packages collect_foreign collect_builds add_builds
    add_build add_all package_names store_versions abs_name scan_two trim_of contains_any
    replace_first store
found_test = refl

abbrev exported_cache : Cache list_sets
exported_cache = record found { materialization = index; materialized_at = some 6 }

export_test : export list_sets "host" 6 found ≡ some (index, exported_cache)
unfolding export do_discovery collect_versions process_packages collect_foreign collect_builds
    add_builds add_build add_all package_names store_versions abs_name scan_two trim_of contains_any
    replace_first store load
export_test = refl

export-AbsIsForeign_example : AbsIsForeign index
export-AbsIsForeign_example =
    export-AbsIsForeign list_sets errors arch "host" 6 found exported_cache index
      (discovered pacman 5 fresh) export_test

export-do_discovery_example :
    export list_sets "host" 9 (do_discovery list_sets errors arch pacman 8 exported_cache).0
    ≡ some (index, (do_discovery list_sets errors arch pacman 8 exported_cache).0)
export-do_discovery_example =
    export-do_discovery list_sets errors arch pacman "host" "host" 6 8 9 found exported_cache index
      export_test

-- A host on which every command is recorded and succeeds, and the first brings the build files.
abbrev builder : Host
builder = record {
  World = List Invocation;
  stat = λ p w. elim w [
    | [] ↦ absent
    | inv ∷ invs ↦ if p == "/abs/yay/PKGBUILD" then other else absent
  ];
  run = λ inv w. (w ++ inv ∷ [], none);
  is_clean = λ p w. inr true;
}

build_package_in_abs_runs_example :
    let repo = logged_repository arch "yay" in
    let git =
      builder.run
        (if path_exists builder repo.path [] then pull_invocation repo else clone_invocation repo)
        [] in
    build_package_in_abs plain_system problems_of builder 1 arch "yay" [] ≡ elim git.1 [
      | some n ↦ (git.0, returned (some (of_fetch (failed n))))
      | none ↦
          if path_exists builder (join_path (join_path arch.build_path "yay") "PKGBUILD") git.0
          then (let (built, err) = builder.run (makepkg arch "yay") git.0 in
              (built, returned (elim err [ none ↦ none | some n ↦ some (of_build n) ])))
          else (git.0, returned (some not_resolved))
    ]
unfolding try_expand_home_dir join_path
build_package_in_abs_runs_example =
    build_package_in_abs_runs plain_system problems_of arch "yay" refl builder 0 []
      (λ same. ground (arith, eq_iff "yay" ""))
