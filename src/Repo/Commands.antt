-- ===== src/Repo/Commands.antt =====
-- repo/jobs.go: the commands that the jobs of a repository run.
use sardis.Common.{Bool, not, List, [], ◌∷◌, ◌++◌, String, string_comparable, ◌==◌, if◌then◌else◌}
use sardis.Common.Text.{join}
use sardis.Common.FilePath.{dir}
use sardis.Repo.Configuration.{GitRepository}

-- One part of a command: its arguments, a script for bash, or a line that the library splits.
pub data Step : Type 0 where
  args : List String → Step
  bash : String → Step
  line : String → Step

-- A command of jasper: the directory, and the steps, which run in turn until one fails.
pub record Invocation : Type 0 where
  pub directory : String
  pub steps : List Step

abbrev pub sprint : List String → String
sprint parts = join "" parts

abbrev remote_update : String
remote_update =
    "git add -A && git fetch origin && git rebase origin/$(git rev-parse --abbrev-ref HEAD)"

-- `syncCmdTemplate`
sync_script : String → String
unfolding join
sync_script id =
    sprint (remote_update ∷ " && git commit -a -m 'auto-update: (" ∷ id ∷ ")'; git push" ∷ [])

abbrev pub lines : List String → List Step
lines [] = []
lines (l ∷ ls) = line l ∷ lines ls

-- `AppendArgsWhen`, `BashWhen`
abbrev step_when : Bool → Step → List Step
step_when test s = if test then s ∷ [] else []

pub pull_invocation : GitRepository → Invocation
pull_invocation conf = record {
  directory = conf.path;
  steps =
      lines conf.pre
      ++ args (
          "git" ∷ "pull" ∷ "--keep" ∷ "--rebase" ∷ "--autostash" ∷ conf.remote_name ∷ conf.branch
          ∷ [])
        ∷ lines conf.post;
}

pub clone_invocation : GitRepository → Invocation
unfolding dir
clone_invocation conf = record {
  directory = dir conf.path;
  steps = args ("git" ∷ "clone" ∷ conf.remote ∷ conf.path ∷ []) ∷ lines conf.post;
}

build_id : (hn host : String) → GitRepository → String
unfolding join
build_id hn host conf =
    if host == hn
    then sprint ("sync.LOCAL(" ∷ hn ∷ ").REPO(" ∷ conf.name ∷ ")" ∷ [])
    else sprint ("sync.REMOTE(" ∷ host ∷ ").REPO(" ∷ conf.name ∷ ").OPERATOR(" ∷ hn ∷ ")" ∷ [])

pub sync_invocation : (hn host : String) → GitRepository → Invocation
unfolding sync_script build_id join
sync_invocation hn host conf =
    let id = build_id hn host conf in
    let remote = not (host == hn) in
    let there =
      args ("ssh" ∷ host ∷ sprint ("cd " ∷ conf.path ∷ " && " ∷ sync_script id ∷ []) ∷ []) in
    let add = args ("git" ∷ "add" ∷ "-A" ∷ []) in
    let rebase = bash "git fetch origin && git rebase origin/$(git rev-parse --abbrev-ref HEAD)" in
    record {
      directory = conf.path;
      steps =
          step_when remote there
          ++ (lines conf.pre
              ++ (add
                  ∷ rebase
                  ∷ bash "git ls-files -d | xargs -r git rm --ignore-unmatch --quiet -- "
                  ∷ add
                  ∷ bash (sprint ("git commit -a -m 'update: (" ∷ id ∷ ")' || true" ∷ []))
                  ∷ args ("git" ∷ "push" ∷ [])
                  ∷ (step_when remote there ++ (step_when remote rebase ++ lines conf.post))));
    }
