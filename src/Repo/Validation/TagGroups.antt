-- ===== src/Repo/Validation/TagGroups.antt =====
-- Why no configuration with a tag group is valid (repo/conf.go).
use sardis.Common.{
  true, Option, none, some, ◌≡◌, ◌≢◌, refl, sym, ◌∙◌, ap, subst, Option-cases, inl, inr, List, [],
  ◌∷◌, ◌++◌, String, string_comparable, arith, eq_iff, All-split,
}
use sardis.Common.Maps.{store, load-store}
use sardis.Extern.Erc.{Erc, when, resolve-eq-none_iff}
use sardis.Extern.Sets.{Sets}
use sardis.Extern.System.{System}
use sardis.Repo.Configuration.{
  entries, Configuration, Error, Indexes, group_members, index_groups, index_repos, no_indexes,
  rebuild_indexes,
}
use sardis.Repo.Validation.{
  ValidationError, bad_groups, group_is_tag, wrap, is_tag, validate_repos, check_groups, Collectors,
  finish_validate, rebuild_once, do_validate,
}

is_tag-store :
    (g k : String) (names : List String) (ix : Indexes)
    → is_tag ix g ≡ true
    → is_tag (record ix { tags = store k names ix.tags }) g ≡ true
is_tag-store g k names ix h = ground (arith, load-store k g names ix.tags)

is_tag-stored :
    (g : String) (names : List String) (ix : Indexes)
    → is_tag (record ix { tags = store g names ix.tags }) g ≡ true
is_tag-stored g names ix = ground (arith, load-store g g names ix.tags, eq_iff g g)

module _ (sets : Sets) where
  -- A tag stays one while groups are indexed.
  index_groups-keeps :
      (g : String) (groups : List (String × List String)) (ix : Indexes)
      → is_tag ix g ≡ true
      → is_tag (index_groups sets groups ix).0 g ≡ true
  unfolding index_groups
  index_groups-keeps g [] ix h = h
  index_groups-keeps g ((gt, tags) ∷ groups) ix h =
      index_groups-keeps g groups _
        (is_tag-store g gt (sets.to_list (group_members sets ix tags sets.empty)) ix h)

  -- Indexing makes each group a tag, with the first group among the checks that fail.
  index_groups-first :
      (group : String) (tags : List String) (groups : List (String × List String)) (ix : Indexes)
      → is_tag (index_groups sets ((group, tags) ∷ groups) ix).0 group ≡ true
  unfolding index_groups
  index_groups-first group tags groups ix =
      index_groups-keeps group groups _
        (is_tag-stored group (sets.to_list (group_members sets ix tags sets.empty)) ix)

  -- Rebuilding the indexes makes the first group a tag.
  pub rebuild_indexes-first :
      (erc : Erc Error) (conf : Configuration) (group : String) (tags : List String)
      (groups : List (String × List String)) (ix : Indexes) (err : Option Error)
      → entries conf.tag_groups ≡ (group, tags) ∷ groups
      → rebuild_indexes sets erc conf ≡ some (ix, err)
      → is_tag ix group ≡ true
  unfolding rebuild_indexes
  rebuild_indexes-first erc conf group tags groups ix err has made =
      elim (Option-cases (index_repos conf.git_repos no_indexes)) [
        | inl failed ↦ absurd (ground arith)
        | inr (start, indexed) ↦
            let same : (index_groups sets (entries conf.tag_groups) start).0 ≡ ix = ground arith in
            let whole = ap (λ gs. (index_groups sets gs start).0) (sym has) ∙ same in
            subst (λ i. is_tag i group ≡ true) whole (index_groups-first group tags groups start)
      ]

  -- The check for an existing tag meets the group itself.
  check_groups-fails :
      (ecs : Collectors) (errs : List (Option ValidationError)) (e : Option ValidationError)
      (ix : Indexes) (group : String) (tags : List String) (groups : List (String × List String))
      → is_tag ix group ≡ true
      → ecs.of_all.resolve (errs ++ (e ∷ check_groups ix ((group, tags) ∷ groups))) ≢ none
  unfolding check_groups
  check_groups-fails ecs errs e ix group tags groups tagged quiet =
      let all = (resolve-eq-none_iff ecs.of_all _).0 quiet in
      let mine = (All-split (λ o. o ≡ none) errs _ all).1.1.1.0 in
      let raised : when (is_tag ix group) (group_is_tag group) ≡ some (group_is_tag group) =
        rw tagged refl in
      cc

  finish-fails :
      (ecs : Collectors) (conf conf' : Configuration) (errs : List (Option ValidationError))
      (group : String) (tags : List String) (groups : List (String × List String))
      (rebuilt : Option (Indexes × Option Error)) (ix : Indexes) (err : Option ValidationError)
      → entries conf.tag_groups ≡ (group, tags) ∷ groups
      → ((i : Indexes) (e : Option Error) → rebuilt ≡ some (i, e) → is_tag i group ≡ true)
      → finish_validate ecs conf errs rebuilt ≡ some (conf', ix, err)
      → err ≢ none
  unfolding finish_validate
  finish-fails ecs conf conf' errs group tags groups none ix err has tagged made quiet =
      absurd (ground arith)
  finish-fails ecs conf conf' errs group tags groups (some (i, e)) ix err has tagged made quiet =
      let fails =
        check_groups-fails ecs errs (wrap bad_groups e) i group tags groups (tagged i e refl) in
      let same : ecs.of_all.resolve
            (errs ++ (wrap bad_groups e ∷ check_groups i (entries conf.tag_groups)))
          ≡ err =
        ground arith in
      let moved =
        ap (λ gs. ecs.of_all.resolve (errs ++ (wrap bad_groups e ∷ check_groups i gs))) (sym has) in
      fails (moved ∙ same ∙ quiet)

  -- The indexes make the first group a tag, whether they were built before or not.
  rebuild_once-first :
      (erc : Erc Error) (built : Option Indexes) (conf : Configuration) (group : String)
      (tags : List String) (groups : List (String × List String)) (ix : Indexes)
      (err : Option Error)
      → entries conf.tag_groups ≡ (group, tags) ∷ groups
      → ((i : Indexes) → built ≡ some i → is_tag i group ≡ true)
      → rebuild_once sets erc built conf ≡ some (ix, err)
      → is_tag ix group ≡ true
  unfolding rebuild_once
  rebuild_once-first erc none conf group tags groups ix err has before made =
      rebuild_indexes-first erc conf group tags groups ix err has made
  rebuild_once-first erc (some i) conf group tags groups ix err has before made =
      let same : i ≡ ix = ground arith in subst (λ j. is_tag j group ≡ true) same (before i refl)

  -- A configuration with a tag group is never valid, where the indexes that were built before have the
  -- group among the tags: where validation comes to an end, it reports an error.
  pub do_validate-tag_groups :
      (sys : System) (ecs : Collectors) (built : Option Indexes) (conf conf' : Configuration)
      (ix : Indexes) (err : Option ValidationError) (group : String) (tags : List String)
      (groups : List (String × List String))
      → entries conf.tag_groups ≡ (group, tags) ∷ groups
      → ((i : Indexes) → built ≡ some i → is_tag i group ≡ true)
      → do_validate sys sets ecs built conf ≡ some (conf', ix, err)
      → err ≢ none
  unfolding do_validate
  do_validate-tag_groups sys ecs built conf conf' ix err group tags groups has before made =
      let ready = record conf {
        git_repos = (validate_repos sys ecs.of_repository conf.git_repos).0;
      } in
      finish-fails ecs ready conf' _ group tags groups (rebuild_once sets ecs.of_groups built ready)
        ix err has
        (λ i e h. rebuild_once-first ecs.of_groups built ready group tags groups i e has before h)
        made
