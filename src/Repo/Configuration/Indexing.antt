-- ===== src/Repo/Configuration/Indexing.antt =====
-- What the indexes of repositories hold (repo/conf.go, `rebuildIndexes`).
use sardis.Common.{
  Bool, true, false, Option, none, some, ◌≡◌, refl, sym, ap, ◌∙◌, List, [], ◌∷◌, String,
  string_comparable, arith, eq_iff,
}
use sardis.Common.Maps.{load, store, load-store, load-empty}
use sardis.Extern.Erc.{Erc}
use sardis.Extern.Sets.{Sets}
use sardis.Repo.Configuration.{
  entries, GitRepository, Configuration, Error, Indexes, no_indexes, knows, store_tags, index_repos,
  index_groups, rebuild_indexes,
}

-- Each entry of the index by name has that name.
abbrev pub AreKeyed : Indexes → Type 0
AreKeyed ix = (name : String) (rp : GitRepository) → load name ix.lookup ≡ some rp → rp.name ≡ name

store_tags-lookup :
    (name : String) (tags : List String) (ix : Indexes)
    → (store_tags name tags ix).lookup ≡ ix.lookup
unfolding store_tags
store_tags-lookup name [] ix = refl
store_tags-lookup name (tg ∷ tags) ix = store_tags-lookup name tags _

store-AreKeyed :
    (rp : GitRepository) (ix : Indexes)
    → AreKeyed ix
    → AreKeyed (record ix { lookup = store rp.name rp ix.lookup })
store-AreKeyed rp ix keyed name r found =
    ground (arith, load-store rp.name name rp ix.lookup, keyed name r, eq_iff rp.name name, found)

store_tags-AreKeyed :
    (name : String) (tags : List String) (ix : Indexes)
    → AreKeyed ix
    → AreKeyed (store_tags name tags ix)
store_tags-AreKeyed name tags ix keyed n rp found =
    keyed n rp (sym (ap (load n) (store_tags-lookup name tags ix)) ∙ found)

index_repos-AreKeyed :
    (repos : List GitRepository) (ix ix' : Indexes)
    → AreKeyed ix
    → index_repos repos ix ≡ some ix'
    → AreKeyed ix'
unfolding index_repos
index_repos-AreKeyed [] ix ix' keyed h = λ name rp found. ground (arith, keyed name rp, h, found)
index_repos-AreKeyed (rp ∷ repos) ix ix' keyed h =
    on_known (knows ix rp.name)
      (index_repos-AreKeyed repos next ix'
        (store_tags-AreKeyed rp.name rp.tags _ (store-AreKeyed rp ix keyed)))
      h
  where
    next : Indexes
    next = store_tags rp.name rp.tags (record ix { lookup = store rp.name rp ix.lookup })

    on_known :
        (b : Bool)
        → (index_repos repos next ≡ some ix' → AreKeyed ix')
        → (elim b as (λ _. Option Indexes) [ true ↦ none | false ↦ index_repos repos next ])
          ≡ some ix'
        → AreKeyed ix'
    on_known true ih h = absurd (ground arith)
    on_known false ih h = ih h

index_groups-lookup :
    (sets : Sets) (groups : List (String × List String)) (ix : Indexes)
    → (index_groups sets groups ix).0.lookup ≡ ix.lookup
unfolding index_groups
index_groups-lookup sets [] ix = refl
index_groups-lookup sets ((gt, tags) ∷ groups) ix = index_groups-lookup sets groups _

no_indexes-AreKeyed : AreKeyed no_indexes
no_indexes-AreKeyed n r h = absurd (ground (arith, load-empty {V = GitRepository} n, h))

-- Rebuilding the indexes keys every repository by its own name.
pub rebuild_indexes-AreKeyed :
    (sets : Sets) (erc : Erc Error) (conf : Configuration) (ix : Indexes) (e : Option Error)
    → rebuild_indexes sets erc conf ≡ some (ix, e)
    → AreKeyed ix
unfolding rebuild_indexes
rebuild_indexes-AreKeyed sets erc conf ix e h name rp found =
    on_repos (index_repos conf.git_repos no_indexes) refl h
  where
    on_repos :
        (o : Option Indexes)
        → index_repos conf.git_repos no_indexes ≡ o
        → (elim o as (λ _. Option (Indexes × Option Error)) [
          | none ↦ none
          | some ix1 ↦
              let (ix2, errors) = index_groups sets (entries conf.tag_groups) ix1 in
              some (ix2, erc.resolve errors)
        ])
          ≡ some (ix, e)
        → rp.name ≡ name
    on_repos none built h = absurd (ground arith)
    on_repos (some ix1) built h =
        let same : ix.lookup ≡ ix1.lookup =
          ground (arith, h, index_groups-lookup sets (entries conf.tag_groups) ix1) in
        index_repos-AreKeyed conf.git_repos no_indexes ix1 no_indexes-AreKeyed built name rp
          (ap (load name) (sym same) ∙ found)
