-- ===== src/Examples/Graphs.antt =====
-- The graph of a module with one package, which imports one of the standard library.
use sardis.Common.{none, some, ◌≡◌, refl, List, [], ◌∷◌, inl, String, string_comparable}
use sardis.Common.Maps.{load, store}
use sardis.Common.Text.{has_prefix, str_ltb}
use sardis.Common.Sorting.{insert_by, sort_by}
use sardis.Extern.Erc.{Erc, chain, join_all}
use sardis.Extern.Sets.{unique}
use sardis.Tools.Depgraph.{
  Import, Package, ScanError, both, intra_module_deps, first_module_path, scan_packages,
  package_errors, scan,
}
use sardis.Tools.Depgraph.Imports.{ListsImports, scan-ListsImports}

abbrev errors : Erc ScanError
errors = chain both (λ a b. Unit {0}) (λ e. tt) (λ a b e h. tt) (λ a b e h. tt)

abbrev imports : List Import
imports =
    record { pkg_path = "fmt"; types_path = none }
    ∷ record { pkg_path = "example.com/m/b"; types_path = some "example.com/m/b" }
    ∷ []

abbrev package_a : Package
package_a = record {
  pkg_path = "example.com/m/a";
  module_path = some "example.com/m";
  imports = imports;
  errors = [];
}

abbrev graph : List (String × List String)
graph = ("example.com/m/a", "example.com/m/b" ∷ "fmt" ∷ []) ∷ []

-- The standard library is in the graph.
scan_test : scan errors (package_a ∷ []) ≡ inl graph
unfolding scan scan_packages first_module_path package_errors intra_module_deps unique sort_by
    insert_by str_ltb has_prefix store join_all
scan_test = refl

load_test : load "example.com/m/a" graph ≡ some ("example.com/m/b" ∷ "fmt" ∷ [])
unfolding load
load_test = refl

scan-ListsImports_example :
    ListsImports (package_a ∷ []) "example.com/m/a" ("example.com/m/b" ∷ "fmt" ∷ [])
scan-ListsImports_example =
    scan-ListsImports errors (package_a ∷ []) graph "example.com/m/a"
      ("example.com/m/b" ∷ "fmt" ∷ []) scan_test load_test
