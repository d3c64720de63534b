-- ===== src/Examples/Building.antt =====
-- A module of three packages, and its build order.
use sardis.Common.{◌≤◌, ◌≡◌, ◌≢◌, refl, List, [], ◌∷◌, String, string_comparable, arith, eq_iff}
use sardis.Common.Maps.{load, store}
use sardis.Common.Text.{str_ltb}
use sardis.Extern.Sets.{list_sets}
use sardis.Gadget.Packages.{PackageInfo, Packages, index_by, index_by_package_name, graph}
use sardis.Gadget.BuildOrder.{
  BuildOrder, built, out_of_fuel, irresolvable_dependency, get_build_order, rounds, step, flushed,
  flush, add_all, sort_strings, insert_string, collect_zero, pop_front, visit, complete, start,
}
use sardis.Gadget.BuildOrder.Groups.{concat}
use sardis.Gadget.BuildOrder.Layers.{Layered, get_build_order-Layered}
use sardis.Gadget.BuildOrder.Counts.{occurs}
use sardis.Gadget.BuildOrder.Once.{package_names, get_build_order-occurs}
use sardis.Gadget.BuildOrder.Ending.{get_build_order-ends}

abbrev a_package : String → List String → PackageInfo
a_package name deps = record {
  module_name = "m";
  package_name = name;
  local_directory = name;
  dependencies = deps;
}

abbrev packages : Packages
packages = a_package "c" ("b" ∷ []) ∷ a_package "b" ("a" ∷ []) ∷ a_package "a" [] ∷ []

abbrev order : BuildOrder
order = record {
  order = ("a" ∷ []) ∷ ("b" ∷ []) ∷ ("c" ∷ []) ∷ [];
  packages = packages;
  path = "p";
}

order_test : get_build_order list_sets "p" packages ≡ built order
unfolding get_build_order index_by_package_name graph collect_zero rounds step flushed flush add_all
    sort_strings insert_string pop_front visit complete start load store index_by str_ltb
order_test = refl

circular_test :
    get_build_order list_sets "p" (a_package "a" ("b" ∷ []) ∷ a_package "b" ("a" ∷ []) ∷ [])
    ≡ irresolvable_dependency
unfolding get_build_order index_by_package_name graph collect_zero rounds step flushed flush add_all
    sort_strings insert_string pop_front visit complete start load store index_by str_ltb
circular_test = refl

get_build_order-Layered_example :
    Layered (index_by_package_name packages) [] order.order × (order.packages ≡ packages)
get_build_order-Layered_example = get_build_order-Layered list_sets "p" packages order order_test

distinct_names : (x : String) → occurs x (package_names packages) ≤ 1
distinct_names x = ground (
  arith,
  eq_iff "c" x,
  eq_iff "b" x,
  eq_iff "a" x,
  eq_iff "a" "b",
  eq_iff "a" "c",
  eq_iff "b" "c",
)

get_build_order-occurs_example :
    occurs "b" (concat order.order) ≡ occurs "b" (package_names packages)
get_build_order-occurs_example =
    get_build_order-occurs list_sets "p" packages order distinct_names order_test "b"

get_build_order-ends_example : get_build_order list_sets "p" packages ≢ out_of_fuel
get_build_order-ends_example = get_build_order-ends list_sets "p" packages
