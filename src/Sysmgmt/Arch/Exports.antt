-- ===== src/Sysmgmt/Arch/Exports.antt =====
-- What the index of packages holds, whatever happened before (sysmgmt/arch.go).
use sardis.Common.{
  ℕ, true, some, ◌≡◌, refl, sym, ◌∙◌, ap, subst, Option-cases, inl, inr, List, [], ◌∷◌, map, String,
  string_comparable, arith,
}
use sardis.Extern.Erc.{Erc}
use sardis.Extern.Sets.{Sets, member}
use sardis.Sysmgmt.Packages.{
  ArchPackage, ArchPackageIndex, ArchLinux, Output, ArchError, package_of,
}
use sardis.Sysmgmt.Arch.{Cache, no_cache, do_discovery, version_of, listed, export}
use sardis.Sysmgmt.Arch.Sources.{Within, do_discovery-Within}

abbrev package_names_of : List ArchPackage → List String
package_names_of = map (λ p. p.name)

-- Each package with a build directory is listed among the foreign ones, too.
abbrev pub AbsIsForeign : ArchPackageIndex → Type 0
AbsIsForeign out =
    (name : String)
    → member name (package_names_of out.abs) ≡ true
    → member name (package_names_of out.aur) ≡ true

module _ (sets : Sets) where
  listed-names :
      (hostname : String) (cache : Cache sets) (names : List String)
      → package_names_of (map (λ name. package_of name (version_of sets cache name) hostname) names)
        ≡ names
  listed-names hostname cache [] = refl
  listed-names hostname cache (n ∷ names) = ap (◌∷◌ n) (listed-names hostname cache names)

  member-listed :
      (hostname : String) (cache : Cache sets) (set : sets.Set) (name : String)
      → member name (package_names_of (listed sets hostname cache set)) ≡ sets.check name set
  member-listed hostname cache set name =
      rw (listed-names hostname cache (sets.to_list set)) (sets.member-to_list name set)

  -- What a cache goes through: discovery and exports, in any order.
  pub data Reach (erc : Erc ArchError) (conf : ArchLinux) : Cache sets → Type 0 where
    fresh : Reach erc conf (no_cache sets)
    discovered :
        {cache : Cache sets} (run : String → Output) (now : ℕ)
        → Reach erc conf cache
        → Reach erc conf (do_discovery sets erc conf run now cache).0
    exported :
        {cache next : Cache sets} {out : ArchPackageIndex} (hostname : String) (now : ℕ)
        → Reach erc conf cache
        → export sets hostname now cache ≡ some (out, next)
        → Reach erc conf next

  abbrev IsSound : Cache sets → Type 0
  IsSound cache =
      Within sets cache.abs_packages cache.not_in_sync_db × AbsIsForeign cache.materialization

  listed-AbsIsForeign :
      (hostname : String) (cache : Cache sets)
      → Within sets cache.abs_packages cache.not_in_sync_db
      → (name : String)
      → member name (package_names_of (listed sets hostname cache cache.abs_packages)) ≡ true
      → member name (package_names_of (listed sets hostname cache cache.not_in_sync_db)) ≡ true
  listed-AbsIsForeign hostname cache inside name h =
      let there = sym (member-listed hostname cache cache.abs_packages name) ∙ h in
      member-listed hostname cache cache.not_in_sync_db name ∙ inside name there

  -- An export of a sound cache gives a sound index and leaves the cache sound.
  export-IsSound :
      (hostname : String) (now : ℕ) (cache next : Cache sets) (out : ArchPackageIndex)
      → IsSound cache
      → export sets hostname now cache ≡ some (out, next)
      → AbsIsForeign out × IsSound next
  unfolding export
  export-IsSound hostname now cache next out (inside, sorted) made =
      elim (Option-cases cache.materialized_at) [
        | inr (at, e) ↦
            let given : cache.materialization ≡ out = ground arith in
            let kept : cache ≡ next = ground arith in
            (subst AbsIsForeign given sorted, subst IsSound kept (inside, sorted))
        | inl e ↦ elim (Option-cases cache.indexed_at) [
          | inl panics ↦ absurd (ground arith)
          | inr (at, indexed) ↦
              let listing : ArchPackageIndex = record {
                abs = listed sets hostname cache cache.abs_packages;
                aur = listed sets hostname cache cache.not_in_sync_db;
                dep = listed sets hostname cache cache.dependencies;
                usr = listed sets hostname cache cache.explicitly_installed;
              } in
              let filled : Cache sets = record cache {
                materialization = listing;
                materialized_at = some now;
              } in
              let given : listing ≡ out = ground arith in
              let stored : filled ≡ next = ground arith in
              let fits = listed-AbsIsForeign hostname cache inside in
              (subst AbsIsForeign given fits, subst IsSound stored (inside, fits))
        ]
      ]

  Reach-IsSound :
      (erc : Erc ArchError) (conf : ArchLinux) (cache : Cache sets)
      → Reach erc conf cache
      → IsSound cache
  unfolding do_discovery
  Reach-IsSound erc conf cache fresh = (λ name h. h, λ name h. h)
  Reach-IsSound erc conf cache (discovered {cache = before} run now r) =
      let (inside, sorted) = Reach-IsSound erc conf before r in
      (do_discovery-Within sets erc conf run now before inside, sorted)
  Reach-IsSound erc conf cache (exported hostname now r made) =
      (export-IsSound hostname now _ _ _ (Reach-IsSound erc conf _ r) made).1

  -- After any discoveries and exports, each package that an export lists with a build directory is
  -- listed as a foreign package, too.
  pub export-AbsIsForeign :
      (erc : Erc ArchError) (conf : ArchLinux) (hostname : String) (now : ℕ)
      (cache next : Cache sets) (out : ArchPackageIndex)
      → Reach erc conf cache
      → export sets hostname now cache ≡ some (out, next)
      → AbsIsForeign out
  export-AbsIsForeign erc conf hostname now cache next out r made =
      (export-IsSound hostname now cache next out (Reach-IsSound erc conf cache r) made).0

  -- What an export leaves in the cache: the index that it gave, with a time.
  export-stores :
      (hostname : String) (now : ℕ) (cache next : Cache sets) (out : ArchPackageIndex)
      → export sets hostname now cache ≡ some (out, next)
      → (next.materialization ≡ out) × (at : ℕ) × (next.materialized_at ≡ some at)
  unfolding export
  export-stores hostname now cache next out made = elim (Option-cases cache.materialized_at) [
    | inr (at, e) ↦
        let given : cache.materialization ≡ out = ground arith in
        let kept : cache ≡ next = ground arith in
        subst (λ c. (c.materialization ≡ out) × (t : ℕ) × (c.materialized_at ≡ some t)) kept
          (given, at, e)
    | inl e ↦ elim (Option-cases cache.indexed_at) [
      | inl panics ↦ absurd (ground arith)
      | inr (at, indexed) ↦ (ground arith, now, ground arith)
    ]
  ]

  export-held :
      (hostname : String) (now : ℕ) (cache : Cache sets) (at : ℕ)
      → cache.materialized_at ≡ some at
      → export sets hostname now cache ≡ some (cache.materialization, cache)
  unfolding export
  export-held hostname now cache at held = rw held refl

  -- An index is exported once: discovery never changes what later exports give.
  pub export-do_discovery :
      (erc : Erc ArchError) (conf : ArchLinux) (run : String → Output) (hostname host : String)
      (now next_time later : ℕ) (cache next : Cache sets) (out : ArchPackageIndex)
      → export sets hostname now cache ≡ some (out, next)
      → let found = (do_discovery sets erc conf run next_time next).0 in
        export sets host later found ≡ some (out, found)
  unfolding do_discovery
  export-do_discovery erc conf run hostname host now next_time later cache next out made =
      let (given, at, stored) = export-stores hostname now cache next out made in
      let found = (do_discovery sets erc conf run next_time next).0 in
      export-held host later found at stored ∙ ap (λ o. some (o, found)) given
