-- ===== src/Application/Linking/Tagging.antt =====
-- No configuration with a group of tags is valid (conf.go).
use sardis.Common.{
  Bool, true, Option, none, some, ◌≡◌, ◌≢◌, refl, sym, ◌∙◌, ap, subst, Bool-cases, Option-cases,
  inl, inr, List, [], ◌∷◌, ◌++◌, String, string_comparable, if◌then◌else◌, arith, All-split,
}
use sardis.Extern.Erc.{resolve-eq-none_iff}
use sardis.Srv.Settings.{Settings}
use sardis.Srv.Settings.Completing.{settings_validate}
use sardis.Sysmgmt.Settings.{system_validate}
use sardis.Subexec.Validating.{operations_validate}
use sardis.Repo.Validation.{is_tag, rebuild_once, do_validate}
use sardis.Repo.Validation.TagGroups.{rebuild_indexes-first, do_validate-tag_groups}
use sardis.Repo.Configuration.{entries, Indexes, Error, rebuild_indexes}
use sardis.Subexec.Group.{Group}
use sardis.Application.{Configuration, expand_operations, generated_groups, no_settings}
use sardis.Application.Linking.{
  ConfigurationError, of_settings, of_system, of_repos, of_operations, generated_twice, wrap,
  expand_linked_files, Environment, validate_parts, generate_and_validate, validate_configuration,
}
use sardis.Application.Linking.Keeping.{HasTagGroup, expand_linked_files-HasTagGroup}

-- There is a tag group, and the indexes have it among the tags, if they were built.
abbrev IsIndexed : Configuration → Type 0
IsIndexed conf =
    (group : String) × (tags : List String) × (more : List (String × List String)) × (entries
        conf.repos.tag_groups
      ≡ (group, tags) ∷ more)
    × ((i : Indexes) → conf.repo_indexes ≡ some i → is_tag i group ≡ true)

wrap-none : {A : Type 0} (f : A → ConfigurationError) (o : Option A) → wrap f o ≡ none → o ≡ none
wrap-none f none h = refl
wrap-none f (some a) h = absurd (ground arith)

module _ (env : Environment) where
  generated_groups-built :
      (conf : Configuration) (groups : List Group) (ix : Indexes)
      → conf.repo_indexes ≡ none
      → generated_groups env.sets env.of_indexes conf ≡ some (groups, ix)
      → (err : Option Error) × (rebuild_indexes env.sets env.of_indexes conf.repos ≡ some (ix, err))
  unfolding generated_groups rebuild_once
  generated_groups-built conf groups ix unbuilt made =
      elim (Option-cases (rebuild_once env.sets env.of_indexes conf.repo_indexes conf.repos)) [
        | inl panics ↦ absurd (ground arith)
        | inr ((i, err), built) ↦
            let same : i ≡ ix = ground arith in
            let fresh =
              ap (λ o. rebuild_once env.sets env.of_indexes o conf.repos) (sym unbuilt) ∙ built in
            (
              err,
              subst (λ j. rebuild_indexes env.sets env.of_indexes conf.repos ≡ some (j, err)) same
                  fresh,
            )
      ]

  expand_operations-IsIndexed :
      (conf after : Configuration) (twice : Bool)
      → HasTagGroup conf
      → expand_operations env.sets env.of_indexes conf ≡ some (after, twice)
      → IsIndexed after
  unfolding expand_operations
  expand_operations-IsIndexed conf after twice (((group, tags), more, has), unbuilt) made =
      elim (Bool-cases conf.operations_generated) [
        | inl before ↦
            let repos : conf.repos ≡ after.repos = ground arith in
            let indexes : conf.repo_indexes ≡ after.repo_indexes = ground arith in
            (
              group,
              tags,
              more,
              subst (λ r. entries r.tag_groups ≡ (group, tags) ∷ more) repos has,
              λ i e. absurd (ground arith),
            )
        | inr first ↦ elim (Option-cases (generated_groups env.sets env.of_indexes conf)) [
          | inl panics ↦ absurd (ground arith)
          | inr ((groups, ix), generated) ↦
              let repos : conf.repos ≡ after.repos = ground arith in
              let indexes : some ix ≡ after.repo_indexes = ground arith in
              let (err, built) = generated_groups-built conf groups ix unbuilt generated in
              let tagged =
                rebuild_indexes-first env.sets env.of_indexes conf.repos group tags more ix err has
                  built in
              (
                group,
                tags,
                more,
                subst (λ r. entries r.tag_groups ≡ (group, tags) ∷ more) repos has,
                λ i e.
                    let same : ix ≡ i = ground arith in
                    subst (λ j. is_tag j group ≡ true) same tagged,
              )
        ]
      ]

  validate_parts-fails :
      (errs : List (Option ConfigurationError)) (s : Settings) (conf after : Configuration)
      (err : Option ConfigurationError)
      → IsIndexed conf
      → validate_parts env errs s conf ≡ some (after, err)
      → err ≢ none
  unfolding validate_parts
  validate_parts-fails errs s conf after err (group, tags, more, has, indexed) made quiet =
      elim (Option-cases (system_validate env.sys env.files env.of_management conf.system)) [
        | inl panics ↦ absurd (ground arith)
        | inr (system, checked) ↦
            elim (Option-cases
              (do_validate env.sys env.sets env.of_repositories conf.repo_indexes conf.repos)) [
                | inl panics ↦ absurd (ground arith)
                | inr ((repos, ix, e), validated) ↦
                    let settings =
                      settings_validate env.sys env.lib env.of_notifications env.of_service_settings
                        env.env_target s in
                    let groups =
                      operations_validate env.same_host env.memory env.sys env.of_groups
                        conf.operations in
                    let given : env.of_all.resolve (
                          errs
                          ++ (wrap of_settings settings.1
                              ∷ wrap of_system system.1
                              ∷ wrap of_repos e
                              ∷ wrap of_operations groups.1
                              ∷ []))
                        ≡ err =
                      ground arith in
                    let all = (resolve-eq-none_iff env.of_all _).0 (given ∙ quiet) in
                    let mine = (All-split (λ o. o ≡ none) errs _ all).1.1.1.0 in
                    do_validate-tag_groups env.sets env.sys env.of_repositories conf.repo_indexes
                      conf.repos repos ix e group tags more has indexed validated
                      (wrap-none of_repos e mine)
              ]
      ]

  generate_and_validate-fails :
      (e1 : Option ConfigurationError) (conf after : Configuration)
      (err : Option ConfigurationError)
      → HasTagGroup conf
      → generate_and_validate env e1 conf ≡ some (after, err)
      → err ≢ none
  unfolding generate_and_validate
  generate_and_validate-fails e1 conf after err has made =
      elim (Option-cases (expand_operations env.sets env.of_indexes conf)) [
        | inl panics ↦ absurd (ground arith)
        | inr ((c, twice), expanded) ↦
            let tagged = expand_operations-IsIndexed conf c twice has expanded in
            let generated = if twice then some generated_twice else none in
            elim (Option-cases c.settings) [
              | inl panics ↦ absurd (ground arith)
              | inr (s, there) ↦
                  let checked : validate_parts env (e1 ∷ generated ∷ []) s c ≡ some (after, err) =
                    ground arith in
                  validate_parts-fails (e1 ∷ generated ∷ []) s c after err tagged checked
            ]
      ]

  -- A configuration with a tag group is never valid, where the indexes of its repositories were not
  -- built before, whatever its other settings and linked files are: where its validation comes to an
  -- end, it reports an error.
  pub validate_configuration-HasTagGroup :
      (conf after : Configuration) (err : Option ConfigurationError)
      → HasTagGroup conf
      → validate_configuration env conf ≡ some (after, err)
      → err ≢ none
  unfolding validate_configuration
  validate_configuration-HasTagGroup conf after err has made =
      let s : Settings = elim conf.settings [ none ↦ no_settings | some s ↦ s ] in
      let start = record conf { settings = some s } in
      elim (Option-cases (expand_linked_files env.sys env.fs env.of_all start)) [
        | inl panics ↦ absurd (ground arith)
        | inr ((c, e), linked) ↦
            let tagged = expand_linked_files-HasTagGroup env start c e has linked in
            let checked : generate_and_validate env e c ≡ some (after, err) = ground arith in
            generate_and_validate-fails e c after err tagged checked
      ]
