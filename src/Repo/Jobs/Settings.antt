-- ===== src/Repo/Jobs/Settings.antt =====
-- What `Validate` makes of a repository's settings (repo/repo.go).
use sardis.Common.{
  Bool, false, not, ◌&&◌, none, ◌≡◌, ◌≢◌, Bool-cases, refl, ◌↔◌, ◌⊎◌, inl, inr, String,
  string_comparable, ◌==◌, arith, eq_iff,
}
use sardis.Common.Text.{nonempty_cons, nonempty_or}
use sardis.Extern.Erc.{Erc, when, resolve-eq-none_iff}
use sardis.Extern.System.{System}
use sardis.Util.Dots.{default}
use sardis.Subexec.Command.{logging_errors_only, logging_validate}
use sardis.Repo.Configuration.{GitRepository}
use sardis.Repo.Jobs.{
  Problem, bad_logging, missing_remote, sync_and_fetch, problems, repository_validate,
}

-- The logging modes that are let through, and the empty one.
abbrev IsMode : String → Type 0
IsMode mode = (mode ≡ "") ⊎ (mode ≡ "errors-only") ⊎ (mode ≡ "none") ⊎ (mode ≡ "full")

logging_validate-IsMode :
    (mode : String)
    → (when (not (logging_validate (default mode logging_errors_only))) bad_logging ≡ none)
      ↔ IsMode mode
unfolding default logging_validate
logging_validate-IsMode mode = elim (Bool-cases (mode == "")) [
  | inl empty ↦ rw empty (λ _. inl ((eq_iff mode "").0 empty), λ _. refl)
  | inr named ↦ rw named (
      ground
        (arith, eq_iff mode "", eq_iff mode "errors-only", eq_iff mode "none", eq_iff mode "full"))
]

remote_iff : (remote : String) → (when (remote == "") missing_remote ≡ none) ↔ (remote ≢ "")
remote_iff remote = ground (arith, eq_iff remote "")

one_way_iff :
    (fetch sync : Bool)
    → (when (fetch && sync) sync_and_fetch ≡ none) ↔ ((fetch ≡ false) ⊎ (sync ≡ false))
one_way_iff fetch sync = ground arith

module _ (sys : System) (erc : Erc Problem) (conf : GitRepository) where
  -- A repository is valid exactly if it has a remote, does not both fetch and sync, and its logging
  -- mode is known or empty.
  pub repository_validate_iff :
      ((repository_validate sys erc conf).1 ≡ none)
      ↔ (IsMode conf.logs × (conf.remote ≢ "") × ((conf.fetch ≡ false) ⊎ (conf.local_sync ≡ false)))
  unfolding repository_validate problems
  repository_validate_iff = (
    λ h.
        let (mode, (remote, (one_way, _))) = (resolve-eq-none_iff erc _).0 h in
        (
          (logging_validate-IsMode conf.logs).0 mode,
          (remote_iff conf.remote).0 remote,
          (one_way_iff conf.fetch conf.local_sync).0 one_way,
        ),
    λ h. (resolve-eq-none_iff erc _).1 (
      (logging_validate-IsMode conf.logs).1 h.0,
      ((remote_iff conf.remote).1 h.1, ((one_way_iff conf.fetch conf.local_sync).1 h.2, tt)),
    ),
  )

  -- After it the branch, the remote's name and the logging mode are set.
  pub repository_validate_filled :
      let filled = (repository_validate sys erc conf).0 in
      (filled.branch ≢ "") × (filled.remote_name ≢ "") × (filled.logs ≢ "")
  unfolding repository_validate default
  repository_validate_filled = (
    nonempty_or conf.branch "main" (nonempty_cons _ _),
    nonempty_or conf.remote_name "origin" (nonempty_cons _ _),
    nonempty_or conf.logs "errors-only" (nonempty_cons _ _),
  )
