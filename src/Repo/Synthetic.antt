-- ===== src/Repo/Synthetic.antt =====
-- repo/subexec.go, `SyntheticTaskGroups`: the groups that pull or update all repositories of a tag.
-- The tags come in the order in which Go ranges over their map. The job of a command is told by
-- twice the position of its tag, plus one for an update; what it works on is the tag's batch.
use sardis.Common.{
  ℕ, ◌+◌, ◌*◌, Bool, true, false, not, Bool-cases, Option, ◌&&◌, ◌||◌, none, some, ◌≡◌, refl, ◌↔◌,
  ◌⊎◌, inl, inr, eq_iff, eq_refl, sym, subst, ◌==◌, List, [], ◌∷◌, map, String, string_comparable,
  if◌then◌else◌, any, keep, arith,
}
use sardis.Common.Int.{ℤ, pos, negsuc}
use sardis.Common.Maps.{load}
use sardis.Extern.Sets.{member}
use sardis.Subexec.Command.{Command}
use sardis.Subexec.Group.{Group}
use sardis.Repo.Configuration.{GitRepository, Indexes}

-- The repository is known, enabled, and fetched or synced.
is_current : Indexes → String → Bool
unfolding load
is_current ix name = elim (load name ix.lookup) [
  | none ↦ false
  | some r ↦ not (r.disabled || (not r.fetch && not r.local_sync))
]

-- The repositories that the jobs of a tag work on; inactive ones are among them.
batch : Indexes → List String → List GitRepository
unfolding load
batch ix [] = []
batch ix (name ∷ names) = elim (load name ix.lookup) [
  | none ↦ batch ix names
  | some repo ↦ repo ∷ batch ix names
]

tag_command : String → ℤ → ℕ → Command
tag_command tag hint job = record {
  name = tag;
  group_name = "";
  group_category = "";
  directory = "";
  environment = none;
  command = "";
  arg = "";
  commands = [];
  override_default = false;
  notify = none;
  background = none;
  sort_hint = hint;
  logs = "";
  worker_definition = some job;
  unaliased_name = "";
}

-- The commands that update, and those that pull.
tag_commands : Indexes → ℕ → List (String × List String) → List Command × List Command
unfolding is_current tag_command
tag_commands ix idx [] = ([], [])
tag_commands ix idx ((tag, repos) ∷ tags) =
    let (update, pull) = tag_commands ix (idx + 1) tags in
    if not (any (is_current ix) repos) then (update, pull) else (
      tag_command tag (pos 8) (2 * idx + 1) ∷ update,
      tag_command tag (negsuc 3) (2 * idx) ∷ pull,
    )

tag_group : String → ℤ → List Command → Group
tag_group name hint commands = record {
  category = "repo";
  name = name;
  aliases = [];
  directory = "";
  environment = none;
  cmd_name_prefix = "tag";
  command = "";
  notify = some true;
  background = none;
  host = none;
  commands = commands;
  menu_selections = [];
  sort_hint = hint;
  synthetic = true;
}

pub synthetic_task_groups : Indexes → List Group
unfolding tag_commands tag_group
synthetic_task_groups ix =
    let (update, pull) = tag_commands ix 0 ix.tags in
    tag_group "update" (pos 16) update ∷ tag_group "pull" (negsuc 3) pull ∷ []

abbrev pub names_of : List Command → List String
names_of = map (λ c. c.name)

-- The name is that of a known repository, which is not disabled, and is fetched or synced.
abbrev IsActive : Indexes → String → Type 0
IsActive ix name =
    (repo : GitRepository) × (load name ix.lookup ≡ some repo)
    × (repo.disabled ≡ false)
    × ((repo.fetch ≡ true) ⊎ (repo.local_sync ≡ true))

abbrev pub HasActive : Indexes → List String → Type 0
HasActive ix names = (name : String) × (member name names ≡ true) × IsActive ix name

current_iff :
    (found : Option GitRepository)
    → ((elim found [
      | none ↦ false
      | some r ↦ not (r.disabled || (not r.fetch && not r.local_sync))
    ])
        ≡ true)
      ↔ ((repo : GitRepository) × (found ≡ some repo)
          × (repo.disabled ≡ false)
          × ((repo.fetch ≡ true) ⊎ (repo.local_sync ≡ true)))
current_iff none = (λ h. absurd (ground (arith, h)), λ (r, e, _, _). absurd (ground (arith, e)))
current_iff (some r) = (
  λ h. (r, refl, ground (arith, h), ground (arith, h)),
  λ (repo, e, enabled, active). ground (arith, e, enabled, active),
)

any-HasActive :
    (ix : Indexes) (names : List String) → (any (is_current ix) names ≡ true) ↔ HasActive ix names
unfolding is_current
any-HasActive ix [] = (λ h. absurd (ground (arith, h)), λ (n, m, _). absurd (ground (arith, m)))
any-HasActive ix (name ∷ names) =
    let here = current_iff (load name ix.lookup) in
    let later = any-HasActive ix names in
    (
      λ h. elim (Bool-cases (is_current ix name)) [
        | inl now ↦ (name, rw (eq_refl name) refl, here.0 now)
        | inr never ↦
            let (n, m, rest) = later.0 (ground (arith, h, never)) in (n, ground (arith, m), rest)
      ],
      λ (n, m, rest). elim (Bool-cases (name == n)) [
        | inl same ↦
            let now = here.1 (subst (IsActive ix) (sym ((eq_iff name n).0 same)) rest) in
            ground (arith, now)
        | inr differs ↦
            let more = later.1 (n, ground (arith, m, differs), rest) in ground (arith, more)
      ],
    )

tag_commands-names :
    (ix : Indexes) (idx : ℕ) (tags : List (String × List String))
    → let selected = map (λ t. t.0) (keep (λ t. any (is_current ix) t.1) tags) in
      (names_of (tag_commands ix idx tags).0 ≡ selected)
      × (names_of (tag_commands ix idx tags).1 ≡ selected)
unfolding tag_commands tag_command
tag_commands-names ix idx [] = (refl, refl)
tag_commands-names ix idx ((tag, repos) ∷ tags) =
    ground (arith, tag_commands-names ix (idx + 1) tags)

-- Both groups have, in the order of the tags, one command for each tag that is selected, named by
-- it; and a tag is selected exactly if one of its repositories is known, is not disabled, and is
-- fetched or synced.
pub synthetic_task_groups-names :
    (ix : Indexes)
    → (selects : List String → Bool) × ((names : List String)
        → (selects names ≡ true) ↔ HasActive ix names)
      × (map (λ g. names_of g.commands) (synthetic_task_groups ix)
          ≡ map (λ t. t.0) (keep (λ t. selects t.1) ix.tags)
            ∷ map (λ t. t.0) (keep (λ t. selects t.1) ix.tags)
            ∷ [])
unfolding synthetic_task_groups tag_group
synthetic_task_groups-names ix =
    let (update, pull) = tag_commands-names ix 0 ix.tags in
    (any (is_current ix), any-HasActive ix, rw (update, pull) refl)
