-- ===== src/Examples/Commands.antt =====
-- Groups of commands: validated, merged, exported, looked up and selected.
use sardis.Common.{
  true, false, none, some, ◌≡◌, ◌≢◌, refl, ◌↔◌, ◌⊎◌, List, [], ◌∷◌, String, string_comparable,
  arith, eq_iff, All,
}
use sardis.Common.Int.{pos}
use sardis.Common.Maps.{load}
use sardis.Common.Text.{contains, split, is_blank}
use sardis.Extern.Erc.{Erc, chain}
use sardis.Extern.Sets.{list_sets, member}
use sardis.Extern.System.{plain_system}
use sardis.Util.Dots.{dot_split, sparse_string, is_zero, is_whitespace, join_and, nil_when_empty}
use sardis.Subexec.Command.{Command}
use sardis.Subexec.Tree.{words, find_command, new_command_tree}
use sardis.Subexec.Tree.Lookup.{latest, find_command-new_command_tree}
use sardis.Subexec.Group.{Group, do_merge}
use sardis.Subexec.Group.Validate.{Error, joined, validate}
use sardis.Subexec.Group.Validate.Checks.{IsComplete, validate_iff}
use sardis.Subexec.Filter.{ok, filter_commands}
use sardis.Subexec.Filter.Counting.{AreDistinct}
use sardis.Subexec.Filter.Exact.{names, firsts, filter_commands_iff}
use sardis.Subexec.Configuration.{Configuration, export_command_groups}
use sardis.Subexec.Configuration.Exports.{last_answer, load-export_command_groups}
use sardis.Subexec.Select.{stage, is_group, resolve_commands}
use sardis.Subexec.Select.Outcomes.{groups_stage, resolve_commands-groups_iff}

data Wraps : Error → Error → Type 0 where
  itself : {e : Error} → Wraps e e
  left : {a b e : Error} → Wraps a e → Wraps (joined a b) e
  right : {a b e : Error} → Wraps b e → Wraps (joined a b) e

abbrev errors : Erc Error
errors = chain joined Wraps (λ e. itself) (λ a b e h. left h) (λ a b e h. right h)

abbrev command_named : String → String → Command
command_named name line = record {
  name = name;
  group_name = "";
  group_category = "";
  directory = "";
  environment = none;
  command = line;
  arg = "";
  commands = [];
  override_default = false;
  notify = none;
  background = none;
  sort_hint = pos 0;
  logs = "";
  worker_definition = none;
  unaliased_name = "";
}

abbrev update_repo : Command
update_repo = command_named "repo.update" "git pull"

abbrev clean_repo : Command
clean_repo = command_named "repo.clean" "git gc"

abbrev group : Group
group = record {
  category = "";
  name = "repo";
  aliases = "r" ∷ [];
  directory = "";
  environment = some (("A", "1") ∷ []);
  cmd_name_prefix = "";
  command = "";
  notify = none;
  background = none;
  host = none;
  commands = update_repo ∷ clean_repo ∷ [];
  menu_selections = "fetch" ∷ [];
  sort_hint = pos 3;
  synthetic = false;
}

abbrev other_group : Group
other_group = record group { aliases = []; commands = []; sort_hint = pos 5 }

abbrev defaulted : Group
defaulted = record group { command = "make" }

abbrev configuration : Configuration
configuration = record {
  commands = group ∷ [];
  ssh_agent_socket_path = "";
  alacritty_socket_path = "";
  include_local_shh = none;
  allow_undefined_sockets = none;
}

abbrev cmds : List Command
cmds = update_repo ∷ clean_repo ∷ []

abbrev asked : List String
asked = "repo.clean" ∷ "repo.update" ∷ []

filter_commands_iff_example : (filter_commands list_sets cmds asked ≡ ok cmds) ↔ (
    (cmds ≢ [])
    × (asked ≢ [])
    × AreDistinct asked
    × All (λ x. member x (names cmds) ≡ true) asked
    × (cmds ≡ firsts asked [] cmds))
filter_commands_iff_example = filter_commands_iff list_sets cmds asked cmds

some_words : words "repo.clean" ≢ []
unfolding words dot_split sparse_string split is_zero is_whitespace join_and nil_when_empty is_blank
some_words = ground arith

find_command-new_command_tree_example :
    find_command "repo.clean" (new_command_tree cmds) ≡ latest (words "repo.clean") none cmds
find_command-new_command_tree_example = find_command-new_command_tree "repo.clean" cmds some_words

validate_iff_example : ((validate plain_system errors group).1 ≡ none) ↔ (
    ((group.name ≢ "") ⊎ (group.cmd_name_prefix ≢ ""))
    × All IsComplete group.commands
    × All (λ s. s ≢ "") group.menu_selections)
validate_iff_example = validate_iff plain_system errors group

load-export_command_groups_example :
    load "r" (export_command_groups plain_system configuration)
    ≡ last_answer plain_system configuration "r" none configuration.commands
load-export_command_groups_example = load-export_command_groups plain_system configuration "r"

resolve_commands-groups_iff_example :
    (resolve_commands list_sets plain_system (λ l. l) configuration ("r" ∷ "repo" ∷ [])
      ≡ stage (groups_stage ("r" ∷ "repo" ∷ [])))
    ↔ (All (λ item. is_group plain_system configuration item ≡ true) ("r" ∷ "repo" ∷ [])
        × AreDistinct ("r" ∷ "repo" ∷ []))
resolve_commands-groups_iff_example =
    resolve_commands-groups_iff list_sets plain_system (λ l. l) configuration "r" "repo" [] refl
      refl

merges : (do_merge group other_group).1 ≡ true
unfolding do_merge
merges = refl

a_default : defaulted.command ≢ ""
a_default = ground (arith, eq_iff "make" "")

no_placeholder : contains defaulted.command "{{command}}" ≡ false
unfolding contains
no_placeholder = refl
