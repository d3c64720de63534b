-- ===== src/Tools/Depgraph/Imports.antt =====
-- What the graph of a module lists (tools/depgraph/depgraph.go).
use sardis.Common.{
  Bool, true, ◌||◌, some, ◌≡◌, refl, ◌∙◌, ap, subst, Option-cases, Bool-cases, inl, inr, ◌⊎◌, List,
  [], ◌∷◌, map, keep, String, string_comparable, ◌==◌, if◌then◌else◌, arith, eq_iff,
}
use sardis.Common.Maps.{load, store, load-store, load-empty, empty_map}
use sardis.Common.Text.{str_ltb}
use sardis.Common.Sorting.{insert_by, sort_by}
use sardis.Extern.Erc.{Erc}
use sardis.Extern.Sets.{member, unique, member-unique}
use sardis.Tools.Depgraph.{
  Package, ScanError, pkg_path_of, is_within, intra_module_deps, first_module_path, scan_packages,
  package_errors, scan,
}

-- The package is among those that were loaded.
abbrev Occurs : Package → List Package → Type 0
Occurs pkg [] = ⊥
Occurs pkg (p ∷ ps) = (p ≡ pkg) ⊎ Occurs pkg ps

-- The entry lists exactly the imports of a package.
abbrev pub ListsImports : List Package → String → List String → Type 0
ListsImports pkgs name deps =
    (pkg : Package) × Occurs pkg pkgs
    × (pkg.pkg_path ≡ name)
    × ((x : String) → member x deps ≡ member x (map pkg_path_of pkg.imports))

member-insert_by :
    (x y : String) (ys : List String) → member x (insert_by str_ltb y ys) ≡ (y == x || member x ys)
unfolding insert_by
member-insert_by x y [] = refl
member-insert_by x y (z ∷ zs) = ground (arith, member-insert_by x y zs)

member-sort_by : (x : String) (ys : List String) → member x (sort_by str_ltb ys) ≡ member x ys
unfolding sort_by
member-sort_by x [] = refl
member-sort_by x (y ∷ ys) =
    ground (arith, member-insert_by x y (sort_by str_ltb ys), member-sort_by x ys)

keep_all : (test : Bool) (xs : List String) → test ≡ true → keep (λ x. test) xs ≡ xs
keep_all test [] h = refl
keep_all test (x ∷ xs) h = ground (arith, keep_all test xs h)

member-intra_module_deps :
    (pkg : Package) (module_path x : String)
    → is_within module_path pkg ≡ true
    → member x (intra_module_deps pkg module_path) ≡ member x (map pkg_path_of pkg.imports)
unfolding intra_module_deps
member-intra_module_deps pkg module_path x within =
    let all = keep_all (is_within module_path pkg) (unique (map pkg_path_of pkg.imports)) within in
    member-sort_by x _ ∙ (ap (member x) all ∙ member-unique x (map pkg_path_of pkg.imports))

-- An entry of the graph was there before, or lists the imports of a package.
scan_packages-ListsImports :
    (module_path : String) (pkgs : List Package) (graph : List (String × List String))
    (name : String) (deps : List String)
    → load name (scan_packages module_path pkgs graph) ≡ some deps
    → (load name graph ≡ some deps) ⊎ ListsImports pkgs name deps
unfolding scan_packages
scan_packages-ListsImports module_path [] graph name deps found = inl found
scan_packages-ListsImports module_path (pkg ∷ pkgs) graph name deps found =
    let own = intra_module_deps pkg module_path in
    let next = if is_within module_path pkg then store pkg.pkg_path own graph else graph in
    elim (scan_packages-ListsImports module_path pkgs next name deps found) [
      | inr (p, there, named, lists) ↦ inr (p, inr there, named, lists)
      | inl before ↦ elim (Bool-cases (is_within module_path pkg)) [
        | inr outside ↦ inl (ground arith)
        | inl within ↦
            let looked = load-store pkg.pkg_path name own graph in
            elim (Bool-cases (pkg.pkg_path == name)) [
              | inl mine ↦ inr (
                pkg,
                inl refl,
                (eq_iff pkg.pkg_path name).0 mine,
                λ x.
                    subst (λ ds. member x ds ≡ member x (map pkg_path_of pkg.imports))
                      (ground arith) (member-intra_module_deps pkg module_path x within),
              )
              | inr other ↦ inl (ground arith)
            ]
      ]
    ]

-- Every entry of a graph that `Scan` returns lists all the imports of a package, of whichever module.
pub scan-ListsImports :
    (erc : Erc ScanError) (pkgs : List Package) (graph : List (String × List String))
    (name : String) (deps : List String)
    → scan erc pkgs ≡ inl graph
    → load name graph ≡ some deps
    → ListsImports pkgs name deps
unfolding scan
scan-ListsImports erc pkgs graph name deps scanned found =
    elim (Option-cases (erc.resolve (package_errors pkgs))) [
      | inr (e, fails) ↦ absurd (ground arith)
      | inl quiet ↦
          let same : scan_packages (first_module_path pkgs) pkgs empty_map ≡ graph = ground arith in
          let here = ap (load name) same ∙ found in
          elim (scan_packages-ListsImports (first_module_path pkgs) pkgs empty_map name deps here) [
            | inl before ↦ absurd (ground (arith, load-empty {V = List String} name))
            | inr lists ↦ lists
          ]
    ]
