-- ===== src/Repo/Jobs/Fetching.antt =====
-- What fetching and cloning a repository run, and that the one ends in the other (repo/jobs.go).
use sardis.Common.{
  ℕ, suc, true, false, ◌||◌, none, ◌≡◌, ◌≢◌, refl, subst, Bool-cases, inl, inr, [],
  string_comparable, ◌==◌, arith, eq_iff, if◌then◌else◌,
}
use sardis.Extern.Erc.{Erc}
use sardis.Extern.System.{System}
use sardis.Repo.Configuration.{GitRepository}
use sardis.Repo.Commands.{pull_invocation, clone_invocation}
use sardis.Repo.Jobs.{
  Problem, Host, Job, returned, path_exists, run_it, repository_validate, fetch_valid, fetch_with,
  fetch_job, clone_valid, clone_job, sync_remote_job,
}
use sardis.Repo.Jobs.Settings.{repository_validate_filled}

module _ (sys : System) (erc : Erc Problem) (h : Host) (conf filled : GitRepository)
    (good : repository_validate sys erc conf ≡ (filled, none))
    (settled : repository_validate sys erc filled ≡ (filled, none)) where
  remote_set : (filled.remote_name == "" || filled.branch == "") ≡ false
  remote_set =
      let set = repository_validate_filled sys erc conf in
      let branch : filled.branch ≢ "" = subst (λ v. v.0.branch ≢ "") good set.0 in
      let remote : filled.remote_name ≢ "" = subst (λ v. v.0.remote_name ≢ "") good set.1 in
      ground (arith, eq_iff filled.remote_name "", eq_iff filled.branch "")

  -- A repository that exists is pulled.
  fetch_valid-pulls :
      (clone : Job sys erc h) (w : h.World)
      → path_exists h filled.path w ≡ true
      → fetch_valid sys erc h clone filled w ≡ run_it sys erc h (pull_invocation filled) filled w
  unfolding fetch_valid
  fetch_valid-pulls clone w there = rw (there, remote_set) refl

  -- Cloning what does not exist runs git.
  clone_job-clones :
      (n : ℕ) (w : h.World)
      → path_exists h filled.path w ≡ false
      → clone_job sys erc h (suc n) filled w ≡ run_it sys erc h (clone_invocation filled) filled w
  unfolding clone_job clone_valid
  clone_job-clones n w absent = rw (settled, absent) refl

  fetch_valid-clones :
      (n : ℕ) (w : h.World)
      → path_exists h filled.path w ≡ false
      → fetch_valid sys erc h (clone_job sys erc h (suc n)) filled w
        ≡ run_it sys erc h (clone_invocation filled) filled w
  unfolding fetch_valid
  fetch_valid-clones n w absent = rw absent (clone_job-clones n w absent)

  -- A fetch of valid settings, which a second look finds valid as they are, runs one command and
  -- reports its error: it pulls where the path exists, and clones where it does not.
  pub fetch_job_runs :
      (n : ℕ) (w : h.World)
      → fetch_job sys erc h (suc n) conf w
        ≡ run_it sys erc h
            (if path_exists h filled.path w
              then pull_invocation filled
              else clone_invocation filled)
            filled
            w
  unfolding fetch_job fetch_with
  fetch_job_runs n w = rw good (elim (Bool-cases (path_exists h filled.path w)) [
    | inl there ↦ rw there (fetch_valid-pulls (clone_job sys erc h (suc n)) w there)
    | inr absent ↦ rw absent (fetch_valid-clones n w absent)
  ])

  -- A clone of such settings does not go round either: where the path exists it syncs, without the
  -- hooks, or pulls, or does nothing.
  clone_job_runs :
      (n : ℕ) (w : h.World)
      → clone_job sys erc h (suc (suc n)) conf w ≡ (
          if path_exists h filled.path w
          then if filled.local_sync
            then sync_remote_job sys erc h sys.hostname (record filled { pre = []; post = [] }) w
            else if filled.fetch
            then run_it sys erc h (pull_invocation filled) filled w
            else (filled, w, returned none)
          else run_it sys erc h (clone_invocation filled) filled w)
  unfolding clone_job clone_valid fetch_with
  clone_job_runs n w =
      rw (good, settled)
        (elim (Bool-cases (path_exists h filled.path w)) [
          | inl there ↦ rw (there, fetch_valid-pulls (clone_job sys erc h (suc n)) w there) refl
          | inr absent ↦ rw absent refl
        ])
