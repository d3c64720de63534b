-- ===== src/Repo/Jobs.antt =====
-- repo/jobs.go, with `Validate` and `HasChanges` of repo/repo.go: what the jobs of a repository run.
-- A job changes the repository's settings, since `Validate` fills them in, and the host. Errors are
-- told apart by what they are about, without the texts that wrap them; log messages and process
-- output are left out. The mirrors of an update run one after the other here, in any given order.
pub mod Settings
pub mod Fetching
pub mod Syncing
use sardis.Common.{
  ℕ, zero, suc, Bool, true, false, not, ◌&&◌, ◌||◌, Option, none, some, ◌⊎◌, inl, inr, List, [],
  ◌∷◌, ◌++◌, String, string_comparable, ◌==◌, if◌then◌else◌,
}
use sardis.Common.Text.{contains, join}
use sardis.Common.FilePath.{dir, base}
use sardis.Extern.Erc.{Erc, when}
use sardis.Extern.Sets.{member}
use sardis.Extern.System.{System, Entry, absent, unreadable, directory, other}
use sardis.Util.Dots.{default}
use sardis.Util.Path.{try_expand_home_dir, try_expand_home_dirs}
use sardis.Subexec.Command.{logging_errors_only, logging_validate}
use sardis.Repo.Configuration.{GitRepository}
use sardis.Repo.Commands.{
  Step, args, bash, line, Invocation, sprint, pull_invocation, clone_invocation, sync_invocation,
}

-- What `Validate` reports.
pub data Problem : Type 0 where
  bad_logging missing_remote sync_and_fetch : Problem
  both : Problem → Problem → Problem

-- `failed` is an error of a command or of the git library; `loops` is for the recursion only.
pub data JobError : Type 0 where
  invalid : Problem → JobError
  failed : ℕ → JobError
  undefined_remote unknown_host no_path not_directory no_repository loops : JobError
  several : JobError → JobError → JobError

-- How a job ends: it returns, with an error or none, or it panics, which nothing here recovers.
pub data Ending (E : Type 0) : Type 0 where
  returned : Option E → Ending E
  panicked : Ending E

-- The host: `os.Stat`, jasper's commands, and the state of a work tree as go-git tells it: an error,
-- or whether it is clean.
pub record Host : Type 1 where
  pub World : Type 0
  pub stat : String → World → Entry
  pub run : Invocation → World → World × Option ℕ
  pub is_clean : String → World → ℕ ⊎ Bool

-- `!os.IsNotExist(err)` of `os.Stat`: a path that cannot be looked at for another reason than its
-- absence exists.
unfoldable pub path_exists : (h : Host) → String → h.World → Bool
path_exists h path w = elim (h.stat path w) [
  | absent ↦ false
  | unreadable ↦ true
  | directory ↦ true
  | other ↦ true
]

abbrev pub failure : Option ℕ → Option JobError
failure none = none
failure (some n) = some (failed n)

module _ (sys : System) (erc : Erc Problem) where
  pub problems : GitRepository → List (Option Problem)
  unfolding logging_validate
  problems conf =
      when (not (logging_validate conf.logs)) bad_logging
      ∷ when (conf.remote == "") missing_remote
      ∷ when (conf.fetch && conf.local_sync) sync_and_fetch
      ∷ []

  -- `GitRepository.Validate`: the completed settings, and the error.
  unfoldable pub repository_validate : GitRepository → GitRepository × Option Problem
  unfolding problems default try_expand_home_dir try_expand_home_dirs
  repository_validate conf =
      let filled = record conf {
        branch = if conf.branch == "" then "main" else conf.branch;
        remote_name = if conf.remote_name == "" then "origin" else conf.remote_name;
        logs = default conf.logs logging_errors_only;
        path = try_expand_home_dir sys conf.path;
        post = try_expand_home_dirs sys conf.post;
        pre = try_expand_home_dirs sys conf.pre;
      } in
      (filled, erc.resolve (problems filled))

  module _ (h : Host) where
    -- The settings and the host after a job, and how it ended.
    abbrev pub Result : Type 0
    Result = GitRepository × h.World × Ending JobError

    abbrev Job : Type 0
    Job = GitRepository → h.World → Result

    abbrev after_validate : Job → GitRepository × Option Problem → h.World → Result
    after_validate job (filled, none) w = job filled w
    after_validate job (filled, some e) w = (filled, w, returned (some (invalid e)))

    -- The jobs begin with `Validate`.
    abbrev pub validated : Job → Job
    validated job conf w = after_validate job (repository_validate conf) w

    abbrev pub run_it : Invocation → Job
    run_it inv conf w = let (w', err) = h.run inv w in (conf, w', returned (failure err))

    -- `HasChanges`
    unfoldable pub has_changes : GitRepository → h.World → Bool × Option JobError
    has_changes conf w =
        if not (path_exists h conf.path w) then (true, none) else elim (h.is_clean conf.path w) [
          | inl n ↦ (false, some (failed n))
          | inr c ↦ (not c, none)
        ]

    -- `FetchJob`, after `Validate`, with the job that clones.
    pub fetch_valid : Job → Job
    fetch_valid clone conf w =
        if not (path_exists h conf.path w)
        then clone conf w
        else if conf.remote_name == "" || conf.branch == ""
        then (conf, w, returned (some undefined_remote))
        else run_it (pull_invocation conf) conf w

    pub fetch_with : Job → Job
    fetch_with clone = validated (fetch_valid clone)

    -- `SyncRemoteJob`, after `Validate`. The error of the command is logged and dropped. Where the
    -- path cannot be looked at, `stat` is nil, and asking it whether it is a directory panics.
    unfoldable pub sync_valid : String → Job
    sync_valid host conf w =
        if not (host == sys.hostname) && not (member host conf.mirrors)
        then (conf, w, returned (some unknown_host))
        else (elim (h.stat conf.path w) [
          | absent ↦ (conf, w, returned (some no_path))
          | unreadable ↦ (conf, w, panicked)
          | directory ↦ (conf, (h.run (sync_invocation sys.hostname host conf) w).0, returned none)
          | other ↦ (conf, w, returned (some not_directory))
        ])

    unfoldable pub sync_remote_job : String → Job
    sync_remote_job host = validated (sync_valid (if host == "LOCAL" then sys.hostname else host))

    -- `CloneJob`, after `Validate`, with the job that fetches. The copy that loses its hooks is a
    -- copy of the pointer.
    unfoldable pub clone_valid : Job → Job
    clone_valid fetch conf w =
        if path_exists h conf.path w
        then if conf.local_sync
          then sync_remote_job sys.hostname (record conf { pre = []; post = [] }) w
          else if conf.fetch
          then fetch conf w
          else (conf, w, returned none)
        else run_it (clone_invocation conf) conf w

    unfoldable pub clone_job : (fuel : ℕ) → Job
    clone_job zero conf w = (conf, w, returned (some loops))
    clone_job (suc n) conf w = validated (clone_valid (fetch_with (clone_job n))) conf w

    pub fetch_job : (fuel : ℕ) → Job
    fetch_job n = fetch_with (clone_job n)

    -- `CleanupJob` and `StatusJob`
    cleanup_job : Job
    cleanup_job conf w =
        if not (path_exists h conf.path w)
        then (conf, w, returned (some no_repository))
        else run_it
            (record {
              directory = conf.path;
              steps = args ("git" ∷ "gc" ∷ []) ∷ args ("git" ∷ "prune" ∷ []) ∷ [];
            })
            conf w

    -- What `doOtherStat` returns.
    abbrev stat_error : ℕ ⊎ Bool → Option JobError
    stat_error (inl n) = some (failed n)
    stat_error (inr c) = none

    status_job : Erc JobError → Job
    status_job ec conf w =
        if not (path_exists h conf.path w)
        then (conf, w, returned (some no_repository))
        else (let (w', err) =
              h.run
                (record {
                  directory = conf.path;
                  steps =
                      args (
                        "git"
                        ∷ "log"
                        ∷ "--date=relative"
                        ∷ "--decorate"
                        ∷ "-n"
                        ∷ "1"
                        ∷ sprint ("--format=" ∷ base conf.path ∷ [])
                        ∷ ":%N (%cr) \"%s\""
                        ∷ [])
                      ∷ args ("git" ∷ "status" ∷ "--short" ∷ "--branch" ∷ [])
                      ∷ [];
                })
                w in
            (
              conf,
              w',
              returned (ec.resolve (failure err ∷ stat_error (h.is_clean conf.path w') ∷ [])),
            ))

    -- The error of a job is pushed after the others, which are then resolved; a panic is passed on.
    abbrev ending : Erc JobError → List (Option JobError) → Ending JobError → Ending JobError
    ending ec errs (returned err) = returned (ec.resolve (errs ++ err ∷ []))
    ending ec errs panicked = panicked

    abbrev report : Erc JobError → List (Option JobError) → Job → Job
    report ec errs job conf w = let (conf', w', end) = job conf w in (conf', w', ending ec errs end)

    -- The loop of `UpdateJob` over the mirrors: the errors, unless one panics, and `hasMirrors`.
    sync_mirrors :
        List String
        → GitRepository
        → h.World
        → GitRepository × h.World × Option (List (Option JobError)) × Bool
    sync_mirrors [] conf w = (conf, w, some [], false)
    sync_mirrors (mirror ∷ mirrors) conf w = elim (contains mirror sys.hostname) [
      | true ↦ sync_mirrors mirrors conf w
      | false ↦
          let (conf1, w1, end) = sync_remote_job mirror conf w in
          let (conf2, w2, errs, more) = sync_mirrors mirrors conf1 w1 in
          elim end [
            | returned err ↦
                (conf2, w2, elim errs [ none ↦ none | some es ↦ some (err ∷ es) ], true)
            | panicked ↦ (conf1, w1, none, true)
          ]
    ]

    -- The rest of `UpdateJob`, after the mirrors.
    update_fetch : ℕ → Erc JobError → List (Option JobError) → Bool → Job
    update_fetch n ec errs has_mirrors conf w =
        if conf.fetch || has_mirrors || conf.local_sync
        then report ec errs (fetch_job n) conf w
        else (conf, w, returned none)

    update_local : ℕ → Erc JobError → List (Option JobError) → Bool → Job
    update_local n ec errs has_mirrors conf w =
        let (changes, err) = has_changes conf w in
        if conf.local_sync && not (path_exists h conf.path w)
        then report ec errs (fetch_job n) conf w
        else if conf.local_sync && (changes || (elim err [ none ↦ false | some e ↦ true ]))
        then report ec errs (sync_remote_job sys.hostname) conf w
        else update_fetch n ec errs has_mirrors conf w

    after_mirrors :
        ℕ → Erc JobError → GitRepository × h.World × Option (List (Option JobError)) × Bool → Result
    after_mirrors n ec (conf, w, none, has_mirrors) = (conf, w, panicked)
    after_mirrors n ec (conf, w, some errs, has_mirrors) = elim (ec.resolve errs) [
      | some e ↦ (conf, w, returned (some e))
      | none ↦ update_local n ec errs has_mirrors conf w
    ]

    update_valid : ℕ → Erc JobError → (List String → List String) → Job
    update_valid n ec order conf w = after_mirrors n ec (sync_mirrors (order conf.mirrors) conf w)

    -- `UpdateJob`; the mirrors finish in the given order.
    unfoldable pub update_job : ℕ → Erc JobError → (List String → List String) → Job
    unfolding update_valid sync_mirrors after_mirrors update_local update_fetch fetch_job fetch_with
        fetch_valid
    update_job n ec order = validated (update_valid n ec order)
