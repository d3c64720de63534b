-- ===== src/Application/Linking/Adding.antt =====
-- What linked files add to a configuration (conf.go).
use sardis.Common.{
  Bool, Option, none, some, ◌≡◌, refl, sym, ◌∙◌, ap, subst, Option-cases, inl, inr, List, [], ◌∷◌,
  ◌++◌, append_assoc, append-nil, String, arith,
}
use sardis.Extern.System.{System}
use sardis.Util.Path.{try_expand_home_dir}
use sardis.Subexec.Group.{Group}
use sardis.Subexec.Configuration.{join_configuration}
use sardis.Repo.Configuration.{GitRepository, Configuration as Repositories}
use sardis.Repo.Validation.{extend_groups, repos_join}
use sardis.Srv.Settings.{Settings, settings_join, settings_join-network}
use sardis.Application.{Configuration, migrate, join_settings, join_with, join}
use sardis.Application.Loading.{FileSystem, Outcome, loaded, failed, panicked, read_configuration}
use sardis.Application.Linking.{ConfigurationError, link_one, link_files}

-- The groups and the repositories of configurations, in order.
abbrev groups_of : List Configuration → List Group
groups_of [] = []
groups_of (c ∷ cs) = c.operations.commands ++ groups_of cs

abbrev repos_of : List Configuration → List GitRepository
repos_of [] = []
repos_of (c ∷ cs) = c.repos.git_repos ++ repos_of cs

-- The second configuration is the first with the groups and repositories of others, and with its
-- hosts unchanged.
abbrev pub Adds : List Configuration → Configuration → Configuration → Type 0
Adds others conf after =
    (after.operations.commands ≡ conf.operations.commands ++ groups_of others)
    × (after.repos.git_repos ≡ conf.repos.git_repos ++ repos_of others)
    × ((s : Settings)
        → conf.settings ≡ some s
        → (s' : Settings) × (after.settings ≡ some s') × (s'.network ≡ s.network))

repos_join-git_repos :
    (conf mcf after : Repositories)
    → repos_join conf mcf ≡ some after
    → after.git_repos ≡ conf.git_repos ++ mcf.git_repos
unfolding repos_join
repos_join-git_repos conf mcf after made =
    elim (Option-cases (extend_groups conf.tag_groups mcf.tag_groups)) [
      | inl panics ↦ absurd (ground arith)
      | inr (groups, extended) ↦ ground arith
    ]

module _ (sys : System) (file_exists : String → Bool) where
  join_settings-network :
      (s : Settings) (more after : Option Settings)
      → join_settings sys file_exists (some s) more ≡ some after
      → (s' : Settings) × (after ≡ some s') × (s'.network ≡ s.network)
  unfolding join_settings
  join_settings-network s none after made = (s, ground arith, refl)
  join_settings-network s (some m) after made =
      (settings_join sys file_exists s m, ground arith, settings_join-network sys file_exists s m)

  pub join-parts :
      (conf mcf after : Configuration)
      → join sys file_exists conf (some mcf) ≡ some after
      → (join_configuration conf.operations mcf.operations ≡ after.operations)
        × (repos_join conf.repos mcf.repos ≡ some after.repos)
        × (join_settings sys file_exists conf.settings mcf.settings ≡ some after.settings)
        × (conf.repo_indexes ≡ after.repo_indexes)
  unfolding join join_with
  join-parts conf mcf after made =
      elim (Option-cases (join_settings sys file_exists conf.settings mcf.settings)) [
        | inl panics ↦ absurd (ground arith)
        | inr (settings, joined) ↦ elim (Option-cases (repos_join conf.repos mcf.repos)) [
          | inl panics ↦ absurd (ground arith)
          | inr (repos, extended) ↦ (ground arith, ground arith, ground arith, ground arith)
        ]
      ]

  join-Adds :
      (conf mcf after : Configuration)
      → join sys file_exists conf (some mcf) ≡ some after
      → Adds (mcf ∷ []) conf after
  unfolding join_configuration
  join-Adds conf mcf after made =
      let (operations, repos, settings, indexes) = join-parts conf mcf after made in
      (
        rw append-nil (sym (ap (λ o. o.commands) operations)),
        rw append-nil (repos_join-git_repos conf.repos mcf.repos after.repos repos),
        λ s has.
            join_settings-network s mcf.settings after.settings
              (ap (λ t. join_settings sys file_exists t mcf.settings) (sym has) ∙ settings),
      )

Adds-nil : (a : Configuration) → Adds [] a a
Adds-nil a = (sym (append-nil _), sym (append-nil _), λ s has. (s, has, refl))

groups_of-append :
    (xs ys : List Configuration) → groups_of (xs ++ ys) ≡ groups_of xs ++ groups_of ys
groups_of-append [] ys = refl
groups_of-append (x ∷ xs) ys = simp (groups_of-append xs ys, append_assoc)

repos_of-append : (xs ys : List Configuration) → repos_of (xs ++ ys) ≡ repos_of xs ++ repos_of ys
repos_of-append [] ys = refl
repos_of-append (x ∷ xs) ys = simp (repos_of-append xs ys, append_assoc)

Adds-append :
    (xs ys : List Configuration) (a b c : Configuration)
    → Adds xs a b
    → Adds ys b c
    → Adds (xs ++ ys) a c
Adds-append xs ys a b c (groups, repos, hosts) (groups', repos', hosts') = (
  simp (groups, groups', groups_of-append xs ys, append_assoc),
  simp (repos, repos', repos_of-append xs ys, append_assoc),
  λ s has.
      let (t, has_t, same) = hosts s has in
      let (u, has_u, same') = hosts' t has_t in (u, has_u, same' ∙ same),
)

module _ (sys : System) (fs : FileSystem) where
  -- The linked configurations that are joined: those without settings.
  abbrev accepted : Outcome → List Configuration
  accepted panicked = []
  accepted (failed e) = []
  accepted (loaded iconf) = elim iconf.settings [ some s ↦ [] | none ↦ migrate iconf ∷ [] ]

  abbrev pub linked : List String → List Configuration
  linked [] = []
  linked (fn ∷ fns) =
      accepted (read_configuration sys fs (try_expand_home_dir sys fn)) ++ linked fns

  joined_one :
      (iconf conf after : Configuration) (err : Option ConfigurationError)
      → iconf.settings ≡ none
      → link_one sys fs conf (loaded iconf) ≡ some (after, err)
      → join sys fs.exists conf (some (migrate iconf)) ≡ some after
  unfolding link_one
  joined_one iconf conf after err plain made =
      elim (Option-cases (join sys fs.exists conf (some (migrate iconf)))) [
        | inl panics ↦ absurd (ground arith)
        | inr (c, joined) ↦ ground arith
      ]

  link_one-Adds :
      (outcome : Outcome) (conf after : Configuration) (err : Option ConfigurationError)
      → link_one sys fs conf outcome ≡ some (after, err)
      → Adds (accepted outcome) conf after
  unfolding link_one
  link_one-Adds panicked conf after err made = absurd (ground arith)
  link_one-Adds (failed e) conf after err made =
      let same : conf ≡ after = ground arith in subst (Adds [] conf) same (Adds-nil conf)
  link_one-Adds (loaded iconf) conf after err made = elim (Option-cases iconf.settings) [
    | inr (s, nested) ↦
        let same : conf ≡ after = ground arith in
        rw nested (subst (Adds [] conf) same (Adds-nil conf))
    | inl plain ↦ rw plain (
        join-Adds sys fs.exists conf (migrate iconf) after
          (joined_one iconf conf after err plain made))
  ]

  -- Where linking comes to an end, the groups and repositories of the linked files that can be read
  -- and have no settings follow those that were there, in the order of the files; but no host of them
  -- gets into the settings.
  pub link_files-Adds :
      (fns : List String) (conf after : Configuration) (errs : List (Option ConfigurationError))
      → link_files sys fs fns conf ≡ some (after, errs)
      → Adds (linked fns) conf after
  unfolding link_files
  link_files-Adds [] conf after errs made =
      let same : conf ≡ after = ground arith in subst (Adds [] conf) same (Adds-nil conf)
  link_files-Adds (fn ∷ fns) conf after errs made =
      let outcome = read_configuration sys fs (try_expand_home_dir sys fn) in
      elim (Option-cases (link_one sys fs conf outcome)) [
        | inl panics ↦ absurd (ground arith)
        | inr ((c, e), step) ↦ elim (Option-cases (link_files sys fs fns c)) [
          | inl panics ↦ absurd (ground arith)
          | inr ((d, es), rest) ↦
              let same : d ≡ after = ground arith in
              let more = link_files-Adds fns c d es rest in
              subst (Adds (linked (fn ∷ fns)) conf) same (
                Adds-append (accepted outcome) (linked fns) conf c d
                  (link_one-Adds outcome conf c e step) more)
        ]
      ]
