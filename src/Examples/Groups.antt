-- ===== src/Examples/Groups.antt =====
-- Groups with aliases that merge.
use sardis.Common.{
  Bool, true, false, none, ◌≡◌, refl, List, [], ◌∷◌, map, String, string_comparable, if◌then◌else◌,
  any,
}
use sardis.Common.Int.{ℤ, pos}
use sardis.Extern.System.{plain_system}
use sardis.Util.Dots.{dot_join}
use sardis.Subexec.Command.{Command}
use sardis.Subexec.Group.{Group, do_merge}
use sardis.Subexec.Configuration.{Configuration, is_skipped}
use sardis.Subexec.Aliases.{Memory, hold, dotted, expand, resolve_groups}
use sardis.Common.Sorting.{count}
use sardis.Subexec.Aliases.Naming.{named, held_named, count-resolve_groups}

abbrev run : String → Command
run name = record {
  name = name;
  group_name = "";
  group_category = "";
  directory = "";
  environment = none;
  command = name;
  arg = "";
  commands = [];
  override_default = false;
  notify = none;
  background = none;
  sort_hint = pos 0;
  logs = "";
  worker_definition = none;
  unaliased_name = "";
}

abbrev made : String → String → List String → List Command → ℤ → Group
made category name aliases commands hint = record {
  category = category;
  name = name;
  aliases = aliases;
  directory = "";
  environment = none;
  cmd_name_prefix = "";
  command = "";
  notify = none;
  background = none;
  host = none;
  commands = commands;
  menu_selections = [];
  sort_hint = hint;
  synthetic = false;
}

abbrev configured : List Group → Configuration
configured groups = record {
  commands = groups;
  ssh_agent_socket_path = "";
  alacritty_socket_path = "";
  include_local_shh = none;
  allow_undefined_sockets = none;
}

-- The alias of the first group is the name of the second.
abbrev conf : Configuration
conf = configured (
    made "repo" "sync" ("pull" ∷ []) (run "b" ∷ []) (pos 1)
    ∷ made "repo" "pull" [] (run "a" ∷ []) (pos 0)
    ∷ [])

abbrev no_host : Group → Group → Bool
no_host g h = true

-- Arrays with no room to spare.
abbrev tight : Memory
tight = record { spare = λ g. []; grow = λ c n. [] }

abbrev names_of : List Group → List (String × List String)
names_of = map (λ (g : Group). (g.name, map (λ (c : Command). c.name) g.commands))

resolve_groups_test :
    names_of (resolve_groups no_host tight plain_system conf)
    ≡ ("pull", "a" ∷ "b" ∷ []) ∷ ("sync", "b" ∷ []) ∷ []
unfolding resolve_groups expand dotted dot_join do_merge is_skipped
resolve_groups_test = refl

-- With room for one more command, what is merged into the alias gets into the array of the first
-- group too, and sorting moves it to the place of that group's own command, which is gone.
shared_test :
    names_of (
      resolve_groups no_host
        (record { spare = λ g. run "" ∷ []; grow = λ c n. [] })
        plain_system
        conf)
    ≡ ("pull", "a" ∷ "b" ∷ []) ∷ ("sync", "a" ∷ []) ∷ []
unfolding resolve_groups expand dotted dot_join do_merge is_skipped
shared_test = refl

count-resolve_groups_example :
    count (named "repo.pull") (resolve_groups no_host tight plain_system conf) ≡ (
      if any (held_named "repo.pull") (expand plain_system conf (hold 0 conf.commands))
      then 1
      else 0)
count-resolve_groups_example = count-resolve_groups tight "repo.pull" no_host plain_system conf

-- The alias of the first group is no other group's name.
abbrev apart : Configuration
apart = configured (
    made "repo" "sync" ("push" ∷ []) (run "b" ∷ []) (pos 1)
    ∷ made "repo" "pull" [] (run "a" ∷ []) (pos 0)
    ∷ [])

apart_test :
    names_of (resolve_groups no_host tight plain_system apart)
    ≡ ("sync", "b" ∷ []) ∷ ("push", "b" ∷ []) ∷ ("pull", "a" ∷ []) ∷ []
unfolding resolve_groups expand dotted dot_join do_merge is_skipped
apart_test = refl

-- Two groups have one dotted name and two categories: the commands of the second are gone.
abbrev clash : Configuration
clash =
    configured
      (made "a" "b.c" [] (run "x" ∷ []) (pos 0) ∷ made "a.b" "c" [] (run "b" ∷ []) (pos 0) ∷ [])

clash_test : names_of (resolve_groups no_host tight plain_system clash) ≡ ("b.c", "x" ∷ []) ∷ []
unfolding resolve_groups expand dotted dot_join do_merge is_skipped
clash_test = refl
