-- ===== src/Sysmgmt/Arch/Sources.antt =====
-- How the sets that discovery fills relate (sysmgmt/arch.go).
use Prim.Native.String.{◌++◌ as append}
use sardis.Common.{
  ℕ, true, ◌||◌, ◌≡◌, refl, Bool-cases, Option-cases, inl, inr, List, [], ◌∷◌, String,
  string_comparable, arith, eq_iff,
}
use sardis.Common.Scanning.{contains_any}
use sardis.Extern.Erc.{Erc}
use sardis.Extern.Sets.{Sets, member}
use sardis.Sysmgmt.Packages.{ArchLinux, Output, ArchError, package_names, abs_name}
use sardis.Sysmgmt.Arch.{
  Cache, add_all, process_packages, add_build, add_builds, collect_builds, collect_foreign,
  do_discovery,
}

module _ (sets : Sets) where
  -- Every package with a build directory is a foreign one.
  abbrev pub Within : (abs foreign : sets.Set) → Type 0
  Within abs foreign = (name : String) → sets.check name abs ≡ true → sets.check name foreign ≡ true

  add-Within :
      (abs foreign : sets.Set) (name : String)
      → sets.check name foreign ≡ true
      → Within abs foreign
      → Within (sets.add name abs).0 foreign
  add-Within abs foreign name known inside other h =
      ground (arith, sets.check-add name other abs, eq_iff name other, inside other)

  add_build-Within :
      (build_path path : String) (abs foreign : sets.Set)
      → Within abs foreign
      → Within (add_build sets build_path foreign path abs) foreign
  unfolding add_build
  add_build-Within build_path path abs foreign inside =
      let name = abs_name build_path path in
      elim (Bool-cases (contains_any (b'/' ∷ []) name)) [
        | inl nested ↦ rw nested inside
        | inr plain ↦ elim (Bool-cases (sets.check name foreign)) [
          | inl known ↦ rw (plain, known) (add-Within abs foreign name known inside)
          | inr unknown ↦ rw (plain, unknown) inside
        ]
      ]

  add_builds-Within :
      (build_path : String) (foreign : sets.Set) (paths : List String) (abs : sets.Set)
      → Within abs foreign
      → Within (add_builds sets build_path foreign paths abs) foreign
  unfolding add_builds
  add_builds-Within build_path foreign [] abs inside = inside
  add_builds-Within build_path foreign (path ∷ paths) abs inside =
      add_builds-Within build_path foreign paths _
        (add_build-Within build_path path abs foreign inside)

  collect_builds-Within :
      (build_path : String) (out : Output) (abs foreign : sets.Set)
      → Within abs foreign
      → Within (collect_builds sets build_path out foreign abs).0 foreign
  unfolding collect_builds
  collect_builds-Within build_path (inl paths) abs foreign inside =
      add_builds-Within build_path foreign paths abs inside
  collect_builds-Within build_path (inr n) abs foreign inside = inside

  -- Discovery only adds to a set.
  check-add_all :
      (names : List String) (set : sets.Set) (name : String)
      → sets.check name (add_all sets names set) ≡ (member name names || sets.check name set)
  unfolding add_all
  check-add_all [] set name = refl
  check-add_all (n ∷ names) set name =
      ground (arith, sets.check-add n name set, check-add_all names (sets.add n set).0 name)

  process_packages-grows :
      (out : Output) (set : sets.Set) → Within set (process_packages sets out set).0
  unfolding process_packages
  process_packages-grows (inl lines) set name h =
      ground (arith, check-add_all (package_names lines) set name)
  process_packages-grows (inr n) set name h = h

  collect_foreign-Within :
      (build_path : String) (run : String → Output) (foreign abs : sets.Set)
      → Within abs foreign
      → let after = collect_foreign sets build_path run foreign abs in Within after.1 after.0
  unfolding collect_foreign
  collect_foreign-Within build_path run foreign abs inside =
      let (foreign', err) = process_packages sets (run "pacman --query --foreign") foreign in
      let find = run (append "sudo find " (append build_path " -name \"PKGBUILD\"")) in
      let grown : Within abs foreign' = λ name h.
        process_packages-grows (run "pacman --query --foreign") foreign name (inside name h) in
      elim (Option-cases err) [
        | inl e ↦ rw (collect_foreign, e) (collect_builds-Within build_path find abs foreign' grown)
        | inr (x, e) ↦ rw (collect_foreign, e) grown
      ]

  -- A package that has a build directory is foreign: discovery keeps it so.
  pub do_discovery-Within :
      (erc : Erc ArchError) (conf : ArchLinux) (run : String → Output) (now : ℕ)
      (cache : Cache sets)
      → Within cache.abs_packages cache.not_in_sync_db
      → let after = (do_discovery sets erc conf run now cache).0 in
        Within after.abs_packages after.not_in_sync_db
  unfolding do_discovery
  do_discovery-Within erc conf run now cache inside =
      collect_foreign-Within conf.build_path run cache.not_in_sync_db cache.abs_packages inside
