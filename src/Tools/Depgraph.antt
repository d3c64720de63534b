-- ===== src/Tools/Depgraph.antt =====
-- tools/depgraph/depgraph.go: the packages of a Go module and their imports. What the loader of
-- packages gives is a parameter; the imports come in the order in which Go ranges over their map.
pub mod Imports
use sardis.Common.{
  ℕ, ◌+◌, Bool, true, false, not, ◌&&◌, ◌||◌, Option, none, some, ◌≡◌, refl, sym, ◌∙◌, ap, subst,
  Option-cases, Bool-cases, inl, inr, ◌⊎◌, List, [], ◌∷◌, ◌++◌, map, keep, String,
  string_comparable, ◌==◌, if◌then◌else◌, arith, eq_iff,
}
use sardis.Common.Maps.{load, store, load-store, empty_map}
use sardis.Common.Text.{has_prefix, str_ltb}
use sardis.Common.Sorting.{insert_by, sort_by}
use sardis.Extern.Erc.{Erc}
use sardis.Extern.Sets.{member, unique, member-unique}

-- An imported package: its path, and the one that the type checker tells, if it ran.
pub record Import : Type 0 where
  pub pkg_path : String
  pub types_path : Option String

pub record Package : Type 0 where
  pub pkg_path : String
  pub module_path : Option String
  pub imports : List Import
  pub errors : List String

pub data ScanError : Type 0 where
  of_package : String → ScanError
  both : ScanError → ScanError → ScanError

-- `DepGraph.Packages`
pub packages : List (String × List String) → List String
unfolding sort_by str_ltb
packages g = sort_by str_ltb (map (λ e. e.0) g)

-- `pkgPath`
abbrev pkg_path_of : Import → String
pkg_path_of imp = elim imp.types_path [ none ↦ imp.pkg_path | some path ↦ path ]

-- The test of a module path, which `intraModuleDeps` makes of the importing package, too.
abbrev is_within : (module_path : String) → Package → Bool
is_within module_path pkg = module_path == "" || has_prefix pkg.pkg_path module_path

-- `intraModuleDeps`
unfoldable pub intra_module_deps : Package → (module_path : String) → List String
intra_module_deps pkg module_path =
    sort_by str_ltb
      (keep (λ path. is_within module_path pkg) (unique (map pkg_path_of pkg.imports)))

-- `firstModulePath`
unfoldable pub first_module_path : List Package → String
first_module_path [] = ""
first_module_path (pkg ∷ pkgs) = elim pkg.module_path [
  | none ↦ first_module_path pkgs
  | some path ↦ path
]

-- The loop of `Scan`: the graph, and the errors.
unfoldable pub scan_packages :
    (module_path : String)
    → List Package
    → List (String × List String)
    → List (String × List String)
unfolding intra_module_deps store
scan_packages module_path [] graph = graph
scan_packages module_path (pkg ∷ pkgs) graph = scan_packages module_path pkgs (
    if is_within module_path pkg
    then store pkg.pkg_path (intra_module_deps pkg module_path) graph
    else graph)

unfoldable pub package_errors : List Package → List (Option ScanError)
package_errors [] = []
package_errors (pkg ∷ pkgs) = map (λ e. some (of_package e)) pkg.errors ++ package_errors pkgs

-- `Scan`, of what was loaded; an error takes the place of the graph.
unfoldable pub scan : Erc ScanError → List Package → List (String × List String) ⊎ ScanError
unfolding first_module_path scan_packages package_errors
scan erc pkgs = elim (erc.resolve (package_errors pkgs)) [
  | some e ↦ inr e
  | none ↦ inl (scan_packages (first_module_path pkgs) pkgs empty_map)
]
