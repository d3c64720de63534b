-- ===== src/Subexec/Group/Validate/Complete.antt =====
-- What `Validate` makes of the commands of a group (subexec/group.go).
use mathlib.Core.List.{map-append}
use sardis.Common.{
  ◌+◌, ◌*◌, false, Option, none, some, ◌≡◌, ◌≢◌, refl, sym, ap, ◌∙◌, List, [], ◌∷◌, ◌++◌, map,
  String, string_comparable, arith, eq_iff, length, length-append, length-map,
}
use sardis.Common.Maps.{load}
use sardis.Common.Text.{contains, replace_all-absent, replace_all-nil}
use sardis.Extern.Erc.{Erc}
use sardis.Extern.System.{System, or_else}
use sardis.Util.Dots.{default, dot_join}
use sardis.Subexec.Command.{Command, Environment}
use sardis.Subexec.Group.{Group}
use sardis.Subexec.Group.Validate.{
  Error, menu_command, with_selections, rotate, choose_command, merge_environment, complete,
  validate,
}

rotate_kept :
    (cg : Group)
    → ((rotate cg).commands ≡ cg.commands) × ((rotate cg).menu_selections ≡ cg.menu_selections)
unfolding rotate
rotate_kept cg = ground arith

rotate-prefix :
    (cg : Group) (cmds : List Command)
    → (rotate (record cg { commands = cmds })).cmd_name_prefix ≡ (rotate cg).cmd_name_prefix
unfolding rotate
rotate-prefix cg cmds = ground arith

-- The variable's value in an environment that may be nil.
abbrev load_env : String → Option Environment → Option String
load_env k none = none
load_env k (some m) = load k m

or_else-none : (o : Option String) → or_else o none ≡ o
or_else-none none = refl
or_else-none (some v) = refl

load-nil : (k : String) (m : Environment) → or_else (load k m) (load k []) ≡ load k m
load-nil k m = unfold load in or_else-none (load k m)

-- In a completed command a variable has the command's value, and the group's where it has none.
load_env-complete :
    (sys : System) (g : Group) (cmd : Command) (k : String)
    → load_env k (complete sys g cmd).environment
      ≡ or_else (load_env k cmd.environment) (load_env k g.environment)
unfolding complete
load_env-complete sys g cmd k = merged g.environment cmd.environment
  where
    over_empty : (m : Environment) → load k (sys.extend [] m) ≡ load k m
    over_empty m = sys.load-extend k [] m ∙ load-nil k m

    merged :
        (a b : Option Environment)
        → load_env k (merge_environment sys a b) ≡ or_else (load_env k b) (load_env k a)
    merged none none = unfold load in refl
    merged (some a) none = over_empty a
    merged none (some b) = over_empty b ∙ sym (or_else-none (load k b))
    merged (some a) (some b) =
        sys.load-extend k (sys.extend [] a) b ∙ ap (or_else (load k b)) (over_empty a)

-- Where the command does not override the default and the group has none, it runs its own command
-- line, or its name if that is empty.
choose_command-own :
    (cg : Group) (cmd : Command)
    → cmd.override_default ≡ false
    → cg.command ≡ ""
    → choose_command cg cmd ≡ default cmd.command cmd.name
unfolding choose_command
choose_command-own cg cmd open_default no_default = ground (
  arith,
  eq_iff cg.command "",
  eq_iff cmd.command "",
  replace_all-nil "{{command}}" (default (default cmd.command cg.command) cmd.name),
)

-- Where the command does not override the default, a default of the group with no placeholder for
-- the command replaces the command's own line.
choose_command-default :
    (cg : Group) (cmd : Command)
    → cmd.override_default ≡ false
    → cg.command ≢ ""
    → contains cg.command "{{command}}" ≡ false
    → choose_command cg cmd ≡ cg.command
unfolding choose_command
choose_command-default cg cmd open_default a_default no_place = ground (
  arith,
  eq_iff cg.command "",
  replace_all-absent cg.command "{{command}}" (default (default cmd.command cg.command) cmd.name)
      no_place,
)

names-complete :
    (sys : System) (g : Group) (cmds : List Command)
    → map (λ cmd. cmd.name) (map (complete sys g) cmds)
      ≡ map (λ name. dot_join (g.cmd_name_prefix ∷ name ∷ [])) (map (λ cmd. cmd.name) cmds)
unfolding complete
names-complete sys g [] = refl
names-complete sys g (cmd ∷ cmds) =
    ap (◌∷◌ (dot_join (g.cmd_name_prefix ∷ cmd.name ∷ []))) (names-complete sys g cmds)

names-menu : (names : List String) → map (λ cmd. cmd.name) (map menu_command names) ≡ names
unfolding menu_command
names-menu [] = refl
names-menu (name ∷ names) = ap (◌∷◌ name) (names-menu names)

-- Validating adds a command for each menu selection behind the given ones, and puts the prefix of
-- the group before each name.
validate-names :
    (sys : System) (erc : Erc Error) (cg : Group)
    → map (λ cmd. cmd.name) (validate sys erc cg).0.commands
      ≡ map
          (λ name. dot_join ((rotate cg).cmd_name_prefix ∷ name ∷ []))
          (map (λ cmd. cmd.name) cg.commands ++ cg.menu_selections)
unfolding validate with_selections
validate-names sys erc cg =
    let whole = with_selections cg in
    names-complete sys (rotate whole) (rotate whole).commands
    ∙ rw ((rotate_kept whole).0, rotate-prefix cg whole.commands)
        (ap (map (λ name. dot_join ((rotate cg).cmd_name_prefix ∷ name ∷ []))) (
          map-append (λ cmd. cmd.name) cg.commands (map menu_command cg.menu_selections)
          ∙ ap (λ names. map (λ cmd. cmd.name) cg.commands ++ names)
              (names-menu cg.menu_selections)))

-- How many commands there are, and which selections, after one validation.
validate-length :
    (sys : System) (erc : Erc Error) (cg : Group)
    → (length (validate sys erc cg).0.commands ≡ length cg.commands + length cg.menu_selections)
      × ((validate sys erc cg).0.menu_selections ≡ cg.menu_selections)
unfolding validate with_selections
validate-length sys erc cg =
    let whole = with_selections cg in
    let kept = rotate_kept whole in
    (
      length-map (complete sys (rotate whole)) (rotate whole).commands
          ∙ ap length kept.0
          ∙ length-append cg.commands (map menu_command cg.menu_selections)
          ∙ ap (λ n. length cg.commands + n) (length-map menu_command cg.menu_selections),
      kept.1,
    )

-- Validating a second time adds the menu selections again.
validate_again-length :
    (sys : System) (erc : Erc Error) (cg : Group)
    → length (validate sys erc (validate sys erc cg).0).0.commands
      ≡ length cg.commands + 2 * length cg.menu_selections
validate_again-length sys erc cg =
    let once = validate-length sys erc cg in
    let again = validate-length sys erc (validate sys erc cg).0 in
    omega (arith, once.0, again.0, ap length once.1)
