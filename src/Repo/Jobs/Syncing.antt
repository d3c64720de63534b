-- ===== src/Repo/Jobs/Syncing.antt =====
-- What synchronising and updating a repository report of their commands (repo/jobs.go).
use sardis.Common.{
  true, Option, none, some, ◌≡◌, ◌↔◌, ◌⊎◌, refl, String, string_comparable, ◌==◌, arith, eq_iff,
  if◌then◌else◌,
}
use sardis.Extern.Erc.{Erc}
use sardis.Extern.Sets.{member}
use sardis.Extern.System.{System, unreadable, directory}
use sardis.Repo.Configuration.{GitRepository}
use sardis.Repo.Jobs.{
  Problem, Host, returned, panicked, after_validate, repository_validate, sync_valid,
  sync_remote_job,
}

module _ (sys : System) (erc : Erc Problem) (h : Host) where
  -- The host that "LOCAL" stands for.
  abbrev pub meant : String → String
  meant host = if host == "LOCAL" then sys.hostname else host

  -- The settings are valid, and allow a sync with the host that is meant.
  abbrev pub IsAllowed : String → GitRepository → Type 0
  IsAllowed host conf =
      let (filled, err) = repository_validate sys erc conf in
      (err ≡ none) × ((meant host ≡ sys.hostname) ⊎ (member (meant host) filled.mirrors ≡ true))

  sync_valid-endings :
      (host : String) (conf : GitRepository) (w : h.World)
      → let end = (sync_valid sys erc h host conf w).2 in
        let known = (host ≡ sys.hostname) ⊎ (member host conf.mirrors ≡ true) in
        ((end ≡ returned none) ↔ (known × (h.stat conf.path w ≡ directory)))
        × ((end ≡ panicked) ↔ (known × (h.stat conf.path w ≡ unreadable)))
  unfolding sync_valid
  sync_valid-endings host conf w = ground (arith, eq_iff host sys.hostname)

  after-endings :
      (host : String) (v : GitRepository × Option Problem) (w : h.World)
      → let end = (after_validate sys erc h (sync_valid sys erc h host) v w).2 in
        let known = (host ≡ sys.hostname) ⊎ (member host v.0.mirrors ≡ true) in
        ((end ≡ returned none) ↔ (((v.1 ≡ none) × known) × (h.stat v.0.path w ≡ directory)))
        × ((end ≡ panicked) ↔ (((v.1 ≡ none) × known) × (h.stat v.0.path w ≡ unreadable)))
  after-endings host (filled, none) w =
      let (quiet, stops) = sync_valid-endings host filled w in
      (
        (λ e. let (k, d) = quiet.0 e in ((refl, k), d), λ p. quiet.1 (p.0.1, p.1)),
        (λ e. let (k, d) = stops.0 e in ((refl, k), d), λ p. stops.1 (p.0.1, p.1)),
      )
  after-endings host (filled, some e) w = (
    (λ h. ground (arith, h), λ p. absurd (ground (arith, p.0.0))),
    (λ h. ground (arith, h), λ p. absurd (ground (arith, p.0.0))),
  )

  -- A sync reports no error exactly if the settings are valid, the host is this one or a mirror, and
  -- the path is a directory; what its commands do makes no difference. It panics exactly if the
  -- settings and the host are as before, and the path cannot be looked at.
  pub sync_remote_job-Succeeds_iff :
      (host : String) (conf : GitRepository) (w : h.World)
      → let end = (sync_remote_job sys erc h host conf w).2 in
        let path = (repository_validate sys erc conf).0.path in
        ((end ≡ returned none) ↔ (IsAllowed host conf × (h.stat path w ≡ directory)))
        × ((end ≡ panicked) ↔ (IsAllowed host conf × (h.stat path w ≡ unreadable)))
  unfolding sync_remote_job
  sync_remote_job-Succeeds_iff host conf w =
      after-endings (meant host) (repository_validate sys erc conf) w
