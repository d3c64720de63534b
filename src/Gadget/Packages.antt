-- ===== src/Gadget/Packages.antt =====
-- tools/gadget/daggen.go: packages, their indexes and their graph. Collecting packages from the
-- Go toolchain is not modelled.
use sardis.Common.{none, some, List, [], ◌∷◌, map, String, string_comparable}
use sardis.Common.Maps.{load, store, empty_map}

pub record PackageInfo : Type 0 where
  pub module_name : String
  pub package_name : String
  pub local_directory : String
  pub dependencies : List String

abbrev zero_info : PackageInfo
zero_info = record { module_name = ""; package_name = ""; local_directory = ""; dependencies = [] }

abbrev pub Packages : Type 0
Packages = List PackageInfo

-- The loop that fills an index, by a key of each package.
unfoldable pub index_by :
    (PackageInfo → String) → List (String × PackageInfo) → Packages → List (String × PackageInfo)
index_by key out [] = out
index_by key out (info ∷ p) = index_by key (store (key info) info out) p

unfoldable pub index_by_local_directory : Packages → List (String × PackageInfo)
unfolding index_by
index_by_local_directory p = index_by (λ info. info.local_directory) empty_map p

unfoldable pub index_by_package_name : Packages → List (String × PackageInfo)
unfolding index_by
index_by_package_name p = index_by (λ info. info.package_name) empty_map p

-- `index[key]`, with the zero value for a missing key.
at_key : String → List (String × PackageInfo) → PackageInfo
at_key key index = elim (load key index) [ none ↦ zero_info | some info ↦ info ]

unfoldable pub convert_paths_to_packages : Packages → List String → List String
unfolding at_key
convert_paths_to_packages p paths =
    map (λ path. (at_key path (index_by_local_directory p)).package_name) paths

unfoldable pub convert_packages_to_paths : Packages → List String → List String
unfolding at_key
convert_packages_to_paths p names =
    map (λ name. (at_key name (index_by_package_name p)).local_directory) names

-- `Graph`
unfoldable pub graph : Packages → List (String × List String)
graph p = map (λ info. (info.package_name, info.dependencies)) p
