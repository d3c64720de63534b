-- ===== src/Subexec/Group/Validate.antt =====
-- subexec/group.go, `Validate`: it completes the commands of a group and reports what is missing.
-- A slice is its list of values; that `cmd.Commands` is written in place shows in no result here.
pub mod Checks
pub mod Complete
use sardis.Common.{
  Bool, true, false, not, ◌&&◌, ◌||◌, Option, none, some, List, [], ◌∷◌, ◌++◌, map, String,
  string_comparable, pointer_comparable, ◌==◌, if◌then◌else◌,
}
use sardis.Common.Int.{pos}
use sardis.Common.Text.{contains, replace_all}
use sardis.Extern.Erc.{Erc, when}
use sardis.Extern.System.{System}
use sardis.Util.Dots.{default, dot_join}
use sardis.Subexec.Command.{Command, Environment}
use sardis.Subexec.Group.{Group}

pub data Error : Type 0 where
  unnamed_group unnamed_command missing_override : Error
  joined : Error → Error → Error

-- The command that a menu selection stands for.
menu_command : String → Command
menu_command selection = record {
  name = selection;
  group_name = "";
  group_category = "";
  directory = "";
  environment = none;
  command = selection;
  arg = "";
  commands = [];
  override_default = false;
  notify = none;
  background = none;
  sort_hint = pos 0;
  logs = "";
  worker_definition = none;
  unaliased_name = "";
}

with_selections : Group → Group
unfolding menu_command
with_selections cg = record cg { commands = cg.commands ++ map menu_command cg.menu_selections }

-- The two rotations of a group's names.
rotate_category : Group → Group
rotate_category cg =
    if cg.category == "" && not (cg.name == "") && not (cg.cmd_name_prefix == "")
    then record cg { category = cg.name; name = cg.cmd_name_prefix; cmd_name_prefix = "" }
    else cg

rotate_name : Group → Group
rotate_name cg =
    if cg.name == "" && not (cg.cmd_name_prefix == "")
    then record cg { name = cg.cmd_name_prefix; cmd_name_prefix = "" }
    else cg

pub rotate : Group → Group
unfolding rotate_category rotate_name
rotate cg = rotate_name (rotate_category cg)

-- `stw.DerefZ` of a string pointer.
abbrev pub deref : Option String → String
deref none = ""
deref (some s) = s

abbrev has_braces : String → Bool
has_braces s = contains s "{{" && contains s "}}"

-- The command line, before its placeholders are filled.
unfoldable pub choose_command : Group → Command → String
unfolding default
choose_command cg cmd =
    let own = default (default cmd.command cg.command) cmd.name in
    if not cmd.override_default
    then default (replace_all cg.command "{{command}}" own) own
    else cmd.command

unfoldable pub fill_command : Group → Command → String → String
unfolding contains replace_all
fill_command cg cmd cc =
    let c1 = replace_all cc "{{name}}" cmd.name in
    let c2 = replace_all c1 "{{group.category}}" cg.category in
    let c3 = replace_all c2 "{{group.name}}" cg.name in
    let c4 = replace_all c3 "{{host}}" (deref cg.host) in
    let c5 = replace_all c4 "{{prefix}}" cg.cmd_name_prefix in
    if has_braces cc then replace_all c5 "{{arg}}" cmd.arg else cc

-- An entry of `cmd.Commands`, after the command line is `command`. Here the placeholder for the
-- prefix takes the group's name.
fill_entry : Group → Command → String → String → String
unfolding contains replace_all
fill_entry cg cmd command cc =
    let c1 = replace_all cc "{{command}}" command in
    let c2 = replace_all c1 "{{name}}" cmd.name in
    let c3 = replace_all c2 "{{host}}" (deref cg.host) in
    let c4 = replace_all c3 "{{group.name}}" cg.name in
    let c5 = replace_all c4 "{{group.category}}" cg.category in
    let c6 = replace_all c5 "{{prefix}}" cg.name in
    if has_braces cc then replace_all c6 "{{arg}}" cmd.arg else cc

-- What the two checks of the loop push.
command_errors : Command → List (Option Error)
command_errors cmd =
    when (cmd.name == "") unnamed_command
    ∷ when (cmd.command == "" && cmd.override_default) missing_override
    ∷ []

all_errors : List Command → List (Option Error)
unfolding command_errors
all_errors [] = []
all_errors (cmd ∷ cmds) = command_errors cmd ++ all_errors cmds

module _ (sys : System) where
  -- The environment of a command: the group's, under the command's own.
  merge_environment : Option Environment → Option Environment → Option Environment
  merge_environment none none = none
  merge_environment (some g) none = some (sys.extend [] g)
  merge_environment none (some c) = some (sys.extend [] c)
  merge_environment (some g) (some c) = some (sys.extend (sys.extend [] g) c)

  -- The body of the loop over the commands.
  unfoldable pub complete : Group → Command → Command
  unfolding default choose_command fill_command fill_entry merge_environment dot_join
  complete cg cmd =
      let line = fill_command cg cmd (choose_command cg cmd) in
      record cmd {
        group_category = cg.category;
        group_name = cg.name;
        notify = default cmd.notify cg.notify;
        background = default cmd.background cg.background;
        directory = sys.try_expand_homedir (default cmd.directory sys.home_dir);
        environment = merge_environment cg.environment cmd.environment;
        command = line;
        commands = map (fill_entry cg cmd line) cmd.commands;
        name = dot_join (cg.cmd_name_prefix ∷ cmd.name ∷ []);
      }

  -- `Validate`: the changed group, and the error that the collector resolves to.
  unfoldable pub validate : Erc Error → Group → Group × Option Error
  unfolding with_selections rotate complete all_errors
  validate erc cg =
      let g = rotate (with_selections cg) in
      (
        record g { commands = map (complete g) g.commands; command = ""; environment = none },
        erc.resolve (when (g.name == "") unnamed_group ∷ all_errors g.commands),
      )
