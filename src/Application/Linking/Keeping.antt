-- ===== src/Application/Linking/Keeping.antt =====
-- Linking keeps what groups of tags there are (conf.go).
use sardis.Common.{
  true, Option, none, some, ◌≡◌, refl, sym, ◌∙◌, subst, Bool-cases, Option-cases, inl, inr, List,
  [], ◌∷◌, ◌++◌, String, string_comparable, ◌==◌, arith,
}
use sardis.Common.Maps.{store}
use sardis.Extern.System.{System}
use sardis.Util.Path.{try_expand_home_dir}
use sardis.Srv.Network.{HostDefinition}
use sardis.Srv.Settings.{Settings}
use sardis.Repo.Validation.{store_groups, extend_groups, repos_join}
use sardis.Repo.Configuration.{Configuration as Repositories, entries}
use sardis.Application.{Configuration, migrate, migrate_hosts, migrate_lists, join}
use sardis.Application.Loading.{FileSystem, Outcome, loaded, failed, panicked, read_configuration}
use sardis.Application.Linking.{
  ConfigurationError, link_one, link_files, expand_linked_files, Environment,
}
use sardis.Application.Linking.Adding.{join-parts}

-- There is a tag group.
abbrev IsNonempty : List (String × List String) → Type 0
IsNonempty groups =
    (group : String × List String) × (more : List (String × List String)) × (groups ≡ group ∷ more)

-- So it is for a configuration whose indexes were not built.
abbrev pub HasTagGroup : Configuration → Type 0
HasTagGroup conf = IsNonempty (entries conf.repos.tag_groups) × (conf.repo_indexes ≡ none)

store-IsNonempty :
    (key : String) (names : List String) (groups : List (String × List String))
    → IsNonempty (store key names groups)
unfolding store
store-IsNonempty key names [] = ((key, names), [], refl)
store-IsNonempty key names ((k, v) ∷ groups) = elim (Bool-cases (k == key)) [
  | inl same ↦ rw same ((k, names), groups, refl)
  | inr other ↦ rw other ((k, v), store key names groups, refl)
]

store_groups-IsNonempty :
    (more groups : List (String × List String))
    → IsNonempty groups
    → IsNonempty (store_groups more groups)
unfolding store_groups
store_groups-IsNonempty [] groups some_group = some_group
store_groups-IsNonempty ((g, tags) ∷ more) groups some_group =
    store_groups-IsNonempty more _ (store-IsNonempty g tags groups)

extend_groups-IsNonempty :
    (groups more : Option (List (String × List String)))
    → (after : Option (List (String × List String))) → IsNonempty (entries groups)
    → extend_groups groups more ≡ some after
    → IsNonempty (entries after)
unfolding extend_groups
extend_groups-IsNonempty none more after (g, gs, e) made = absurd (ground (arith, e))
extend_groups-IsNonempty (some groups) more after some_group made =
    let same : some (store_groups (entries more) groups) ≡ after = ground arith in
    subst (λ m. IsNonempty (entries m)) same
      (store_groups-IsNonempty (entries more) groups some_group)

repos_join-IsNonempty :
    (conf mcf after : Repositories)
    → IsNonempty (entries conf.tag_groups)
    → repos_join conf mcf ≡ some after
    → IsNonempty (entries after.tag_groups)
unfolding repos_join
repos_join-IsNonempty conf mcf after some_group made =
    elim (Option-cases (extend_groups conf.tag_groups mcf.tag_groups)) [
      | inl panics ↦ absurd (ground arith)
      | inr (groups, extended) ↦
          let same : groups ≡ after.tag_groups = ground arith in
          subst (λ m. IsNonempty (entries m)) same
            (extend_groups-IsNonempty conf.tag_groups mcf.tag_groups groups some_group extended)
    ]

module _ (sys : System) (fs : FileSystem) where
  join-HasTagGroup :
      (conf mcf after : Configuration)
      → HasTagGroup conf
      → join sys fs.exists conf (some mcf) ≡ some after
      → HasTagGroup after
  join-HasTagGroup conf mcf after has made =
      let (operations, repos, settings, indexes) = join-parts sys fs.exists conf mcf after made in
      (repos_join-IsNonempty conf.repos mcf.repos after.repos has.0 repos, sym indexes ∙ has.1)

  link_one-HasTagGroup :
      (outcome : Outcome) (conf after : Configuration) (err : Option ConfigurationError)
      → HasTagGroup conf
      → link_one sys fs conf outcome ≡ some (after, err)
      → HasTagGroup after
  unfolding link_one
  link_one-HasTagGroup panicked conf after err has made = absurd (ground arith)
  link_one-HasTagGroup (failed e) conf after err has made =
      let same : conf ≡ after = ground arith in subst HasTagGroup same has
  link_one-HasTagGroup (loaded iconf) conf after err has made = elim (Option-cases iconf.settings) [
    | inr (s, nested) ↦ let same : conf ≡ after = ground arith in subst HasTagGroup same has
    | inl plain ↦ elim (Option-cases (join sys fs.exists conf (some (migrate iconf)))) [
      | inl panics ↦ absurd (ground arith)
      | inr (c, joined) ↦
          let same : c ≡ after = ground arith in
          subst HasTagGroup same (join-HasTagGroup conf (migrate iconf) c has joined)
    ]
  ]

  link_files-HasTagGroup :
      (fns : List String) (conf after : Configuration) (errs : List (Option ConfigurationError))
      → HasTagGroup conf
      → link_files sys fs fns conf ≡ some (after, errs)
      → HasTagGroup after
  unfolding link_files
  link_files-HasTagGroup [] conf after errs has made =
      let same : conf ≡ after = ground arith in subst HasTagGroup same has
  link_files-HasTagGroup (fn ∷ fns) conf after errs has made =
      let outcome = read_configuration sys fs (try_expand_home_dir sys fn) in
      elim (Option-cases (link_one sys fs conf outcome)) [
        | inl panics ↦ absurd (ground arith)
        | inr ((c, e), step) ↦ elim (Option-cases (link_files sys fs fns c)) [
          | inl panics ↦ absurd (ground arith)
          | inr ((d, es), rest) ↦
              let same : d ≡ after = ground arith in
              let linked = link_one-HasTagGroup outcome conf c e has step in
              subst HasTagGroup same (link_files-HasTagGroup fns c d es linked rest)
        ]
      ]

migrate_hosts-HasTagGroup :
    (settings : Option Settings) (hosts : List HostDefinition) (conf : Configuration)
    → HasTagGroup conf
    → HasTagGroup (migrate_hosts settings hosts (migrate_lists conf))
unfolding migrate_hosts migrate_lists
migrate_hosts-HasTagGroup none hosts conf has = has
migrate_hosts-HasTagGroup (some s) hosts conf has = has

migrate-HasTagGroup : (conf : Configuration) → HasTagGroup conf → HasTagGroup (migrate conf)
unfolding migrate
migrate-HasTagGroup conf has =
    migrate_hosts-HasTagGroup _ (conf.network_compat ++ conf.network_compat) conf has

module _ (env : Environment) where
  pub expand_linked_files-HasTagGroup :
      (conf after : Configuration) (err : Option ConfigurationError)
      → HasTagGroup conf
      → expand_linked_files env.sys env.fs env.of_all conf ≡ some (after, err)
      → HasTagGroup after
  unfolding expand_linked_files
  expand_linked_files-HasTagGroup conf after err has made =
      elim (Bool-cases conf.linked_files_read) [
        | inl before ↦ let same : conf ≡ after = ground arith in subst HasTagGroup same has
        | inr unread ↦ elim (Option-cases (migrate conf).settings) [
          | inl panics ↦ absurd (ground arith)
          | inr (s, there) ↦
              elim (Option-cases (link_files env.sys env.fs s.config_paths (migrate conf))) [
                | inl panics ↦ absurd (ground arith)
                | inr ((c, errs), linked) ↦
                    let same : record c { linked_files_read = true } ≡ after = ground arith in
                    let tagged =
                      link_files-HasTagGroup env.sys env.fs s.config_paths (migrate conf) c errs
                        (migrate-HasTagGroup conf has) linked in
                    subst HasTagGroup same tagged
              ]
        ]
      ]
