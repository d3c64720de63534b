-- ===== src/Examples/Jobs.antt =====
-- The jobs of a repository on a host that keeps a record of the commands and fails each of them.
use sardis.Common.{
  Bool, true, false, none, some, ◌≡◌, refl, ◌↔◌, inr, List, [], ◌∷◌, ◌++◌, String,
  string_comparable, ◌==◌, if◌then◌else◌,
}
use sardis.Common.Text.{contains}
use sardis.Extern.Erc.{Erc, chain, join_all}
use sardis.Extern.System.{plain_system, directory, unreadable, absent}
use sardis.Repo.Configuration.{GitRepository}
use sardis.Repo.Commands.{Invocation, pull_invocation, clone_invocation, sync_invocation}
use sardis.Repo.Jobs.{
  Problem, both, JobError, several, Host, returned, panicked, path_exists, run_it,
  repository_validate, fetch_job, clone_valid, clone_job, sync_valid, sync_remote_job, has_changes,
  update_job,
}
use sardis.Repo.Jobs.Fetching.{fetch_job_runs}
use sardis.Repo.Jobs.Syncing.{IsAllowed, sync_remote_job-Succeeds_iff}

abbrev pub problems_of : Erc Problem
problems_of = chain both (λ a b. Unit {0}) (λ e. tt) (λ a b e h. tt) (λ a b e h. tt)

abbrev errors_of : Erc JobError
errors_of = chain several (λ a b. Unit {0}) (λ e. tt) (λ a b e h. tt) (λ a b e h. tt)

-- Only "/src" is there, and it has changes; "/locked" cannot be looked at.
abbrev pub host : Host
host = record {
  World = List Invocation;
  stat = λ p w. if p == "/src" then directory else if p == "/locked" then unreadable else absent;
  run = λ inv w. (w ++ inv ∷ [], some 1);
  is_clean = λ p w. inr false;
}

abbrev repository : String → Bool → GitRepository
repository path sync = record {
  name = "r";
  path = path;
  remote = "git@host:r";
  remote_name = "origin";
  branch = "main";
  local_sync = sync;
  fetch = false;
  notify = false;
  disabled = false;
  logs = "none";
  pre = [];
  post = "make" ∷ [];
  mirrors = "me@host" ∷ [];
  tags = [];
}

abbrev remote : String
remote = "git@host:r"

fetch_job_runs_example :
    fetch_job plain_system problems_of host 1 (repository "/new" false) []
    ≡ run_it plain_system problems_of host
        (if path_exists host "/new" []
          then pull_invocation (repository "/new" false)
          else clone_invocation (repository "/new" false))
        (repository "/new" false)
        []
unfolding repository_validate join_all
fetch_job_runs_example =
    fetch_job_runs plain_system problems_of host (repository "/new" false) (repository "/new" false)
      refl refl 0 []

sync_remote_job-Succeeds_iff_example :
    let end =
      (sync_remote_job plain_system problems_of host "LOCAL" (repository "/locked" true) []).2 in
    let path = (repository_validate plain_system problems_of (repository "/locked" true)).0.path in
    let allowed = IsAllowed plain_system problems_of host "LOCAL" (repository "/locked" true) in
    ((end ≡ returned none) ↔ (allowed × (host.stat path [] ≡ directory)))
    × ((end ≡ panicked) ↔ (allowed × (host.stat path [] ≡ unreadable)))
sync_remote_job-Succeeds_iff_example =
    sync_remote_job-Succeeds_iff plain_system problems_of host "LOCAL" (repository "/locked" true)
      []

-- A path that cannot be looked at makes the sync panic.
locked_test :
    (sync_remote_job plain_system problems_of host "LOCAL" (repository "/locked" true) []).2
    ≡ panicked
unfolding sync_remote_job sync_valid repository_validate join_all
locked_test = refl

-- An update whose mirror is this host syncs a work tree that has changes.
update_test :
    (update_job plain_system problems_of host 1 errors_of (λ l. l) (repository "/src" true) []).1
    ≡ sync_invocation "host" "host" (repository "/src" true) ∷ []
unfolding update_job repository_validate sync_remote_job sync_valid has_changes path_exists contains
    join_all
update_test = refl

-- Cloning where the path exists syncs, and the hooks of the repository are gone.
hooks_test : (clone_job plain_system problems_of host 1 (repository "/src" true) []).0.post ≡ []
unfolding clone_job clone_valid path_exists sync_remote_job sync_valid repository_validate join_all
hooks_test = refl
