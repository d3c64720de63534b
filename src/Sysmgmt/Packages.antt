-- ===== src/Sysmgmt/Packages.antt =====
-- sysmgmt/arch.go: the packages of Arch Linux, their index, and what is read from the lines that
-- pacman and find print.
use sardis.Common.{
  ℕ, Bool, false, none, some, List, [], ◌∷◌, ◌⊎◌, String, string_comparable, ◌==◌, if◌then◌else◌,
}
use sardis.Common.Maps.{store}
use sardis.Common.Text.{replace_first, str_ltb}
use sardis.Common.Scanning.{scan_two, trim_of}
use sardis.Common.Sorting.{sort_by}

pub record PackageState : Type 0 where
  pub in_dist_repos : Bool
  pub in_users_abs : Bool
  pub from_aur : Bool
  pub aur_package_without_abs : Bool
  pub explicitly_installed : Bool
  pub is_dependency : Bool
  pub installed : Bool
  pub configured : Bool

pub record ArchPackage : Type 0 where
  pub name : String
  pub version : String
  pub path_abs : String
  pub hostname : String
  pub should_update : Bool
  pub state : PackageState

pub record ArchPackageIndex : Type 0 where
  pub abs : List ArchPackage
  pub aur : List ArchPackage
  pub dep : List ArchPackage
  pub usr : List ArchPackage

-- `compare` is negative; the order of slices.SortFunc.
package_less : ArchPackage → ArchPackage → Bool
unfolding str_ltb
package_less lh rh =
    if lh.name == rh.name then str_ltb lh.version rh.version else str_ltb lh.name rh.name

-- `Sort`
unfoldable pub sort_index : ArchPackageIndex → ArchPackageIndex
unfolding sort_by package_less
sort_index pi = record {
  abs = sort_by package_less pi.abs;
  aur = sort_by package_less pi.aur;
  dep = sort_by package_less pi.dep;
  usr = sort_by package_less pi.usr;
}

pub record ArchLinux : Type 0 where
  pub build_path : String
  pub packages : List ArchPackage

abbrev no_state : PackageState
no_state = record {
  in_dist_repos = false;
  in_users_abs = false;
  from_aur = false;
  aur_package_without_abs = false;
  explicitly_installed = false;
  is_dependency = false;
  installed = false;
  configured = false;
}

abbrev pub package_of : (name version hostname : String) → ArchPackage
package_of name version hostname = record {
  name = name;
  version = version;
  path_abs = "";
  hostname = hostname;
  should_update = false;
  state = no_state;
}

-- The lines that a command prints, or its error.
abbrev pub Output : Type 0
Output = List String ⊎ ℕ

pub data ArchError : Type 0 where
  command_failed : ℕ → ArchError
  both : ArchError → ArchError → ArchError

-- The loop of `processPackages`: the names on the lines; others are skipped.
unfoldable pub package_names : List String → List String
unfolding scan_two
package_names [] = []
package_names (line ∷ lines) = elim (scan_two line) [
  | none ↦ package_names lines
  | some (key, value) ↦ key ∷ package_names lines
]

-- The loop of `collectVersions`.
unfoldable pub store_versions : List String → List (String × String) → List (String × String)
unfolding scan_two store
store_versions [] versions = versions
store_versions (line ∷ lines) versions = elim (scan_two line) [
  | none ↦ store_versions lines versions
  | some (key, value) ↦ store_versions lines (store key value versions)
]

-- What `collectCurrentUsersABS` makes of the path of a PKGBUILD.
unfoldable pub abs_name : (build_path path : String) → String
unfolding replace_first trim_of
abs_name build_path path =
    trim_of (b' ' ∷ b'/' ∷ []) (replace_first (replace_first path build_path "") "/PKGBUILD" "")
