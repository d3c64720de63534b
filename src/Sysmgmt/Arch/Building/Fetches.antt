-- ===== src/Sysmgmt/Arch/Building/Fetches.antt =====
-- What building a package from its build files runs (sysmgmt/arch.go).
use sardis.Common.{
  ℕ, suc, false, Option, none, some, Bool-cases, [], ◌∷◌, ◌≡◌, ◌≢◌, refl, inl, inr, String,
  string_comparable, ◌==◌, arith, eq_iff, if◌then◌else◌,
}
use sardis.Common.Text.{join, nonempty_append}
use sardis.Common.FilePath.{join_path}
use sardis.Extern.Erc.{Erc}
use sardis.Extern.System.{System}
use sardis.Util.Dots.{default}
use sardis.Util.Path.{try_expand_home_dir}
use sardis.Subexec.Command.{logging_errors_only}
use sardis.Repo.Configuration.{GitRepository}
use sardis.Repo.Commands.{args, Invocation, pull_invocation, clone_invocation}
use sardis.Repo.Jobs.{Problem, failed, returned, Host, path_exists, failure, repository_validate}
use sardis.Repo.Jobs.Settings.{repository_validate_iff}
use sardis.Repo.Jobs.Fetching.{fetch_job_runs}
use sardis.Sysmgmt.Packages.{ArchLinux}
use sardis.Sysmgmt.Arch.Building.{
  not_resolved, of_fetch, of_build, aur_repository, fetch_ending, build_invocation,
  fetch_package_from_aur, build_fetched, build_package_in_abs,
}

abbrev pub logged_repository : ArchLinux → String → GitRepository
logged_repository conf name = record (aur_repository conf name) { logs = logging_errors_only }

abbrev pub makepkg : ArchLinux → String → Invocation
makepkg conf name = record {
  directory = join_path conf.build_path name;
  steps = args ("makepkg" ∷ "--syncdeps" ∷ "--force" ∷ "--install" ∷ "--noconfirm" ∷ []) ∷ [];
}

remote_name_set : (conf : ArchLinux) (name : String) → (aur_repository conf name).remote_name ≢ ""
unfolding aur_repository join
remote_name_set conf name = nonempty_append "a" "ur." _

remote_set : (conf : ArchLinux) (name : String) → (aur_repository conf name).remote ≢ ""
unfolding aur_repository join
remote_set conf name = nonempty_append "h" "ttps://aur.archlinux.org/" _

named : (conf : ArchLinux) (name : String) → ((aur_repository conf name).remote_name == "") ≡ false
named conf name =
    let set = remote_name_set conf name in
    ground (arith, eq_iff (aur_repository conf name).remote_name "")

module _ (sys : System) (erc : Erc Problem) (conf : ArchLinux) (name : String)
    (absolute : try_expand_home_dir sys (join_path conf.build_path name)
      ≡ join_path conf.build_path name) where
  aur_filled :
      (repository_validate sys erc (aur_repository conf name)).0 ≡ logged_repository conf name
  unfolding repository_validate aur_repository default
  aur_filled = rw (absolute, named conf name) refl

  aur_again :
      repository_validate sys erc (logged_repository conf name)
      ≡ (logged_repository conf name, (repository_validate sys erc (aur_repository conf name)).1)
  unfolding repository_validate aur_repository default
  aur_again = rw (absolute, named conf name) refl

  aur_quiet : (repository_validate sys erc (aur_repository conf name)).1 ≡ none
  unfolding aur_repository
  aur_quiet =
      (repository_validate_iff sys erc (aur_repository conf name)).1
        (inl refl, remote_set conf name, inr refl)

  -- What the rest of the build makes of how git ended.
  after_git :
      (h : Host) (git : h.World × Option ℕ)
      → build_fetched sys erc h conf name (git.0, fetch_ending sys erc h (returned (failure git.1)))
        ≡ elim git.1 [
          | some n ↦ (git.0, returned (some (of_fetch (failed n))))
          | none ↦
              if path_exists h (join_path (join_path conf.build_path name) "PKGBUILD") git.0
              then (let (built, err) = h.run (makepkg conf name) git.0 in
                  (built, returned (elim err [ none ↦ none | some n ↦ some (of_build n) ])))
              else (git.0, returned (some not_resolved))
        ]
  unfolding build_fetched build_invocation
  after_git h (w, some n) = refl
  after_git h (w, none) =
      elim (Bool-cases (path_exists h (join_path (join_path conf.build_path name) "PKGBUILD") w)) [
        | inl there ↦ rw there refl
        | inr missing ↦ rw missing refl
      ]

  -- What a build of a named package runs, where the path of its build files is absolute: git first,
  -- which pulls the build files if they are there and clones them from the AUR otherwise. If git
  -- fails, nothing else runs, and its error is the build's. Else, if there is no PKGBUILD, nothing
  -- else runs and the package is not resolved. Else makepkg runs in that directory, and the build
  -- ends with its error or with none.
  pub build_package_in_abs_runs :
      (h : Host) (fuel : ℕ) (w : h.World)
      → name ≢ ""
      → let repo = logged_repository conf name in
        let git =
          h.run
            (if path_exists h repo.path w then pull_invocation repo else clone_invocation repo)
            w in
        build_package_in_abs sys erc h (suc fuel) conf name w ≡ elim git.1 [
          | some n ↦ (git.0, returned (some (of_fetch (failed n))))
          | none ↦
              if path_exists h (join_path (join_path conf.build_path name) "PKGBUILD") git.0
              then (let (built, err) = h.run (makepkg conf name) git.0 in
                  (built, returned (elim err [ none ↦ none | some n ↦ some (of_build n) ])))
              else (git.0, returned (some not_resolved))
        ]
  unfolding build_package_in_abs fetch_package_from_aur
  build_package_in_abs_runs h fuel w set =
      let repo = logged_repository conf name in
      let good : repository_validate sys erc (aur_repository conf name) ≡ (repo, none) =
        cc (aur_filled, aur_quiet) in
      let again : repository_validate sys erc repo ≡ (repo, none) = cc (aur_again, aur_quiet) in
      let nonempty : (name == "") ≡ false = ground (arith, eq_iff name "") in
      rw (nonempty, fetch_job_runs sys erc h (aur_repository conf name) repo good again fuel w)
        (after_git h (
          h.run (if path_exists h repo.path w then pull_invocation repo else clone_invocation repo)
            w))
