-- ===== src/Subexec/Group/Validate/Checks.antt =====
-- When a group is valid (subexec/group.go, `Validate`).
use sardis.Common.{
  true, Option, none, ◌≡◌, ◌≢◌, ◌↔◌, ◌⊎◌, List, [], ◌∷◌, ◌++◌, map, String, string_comparable, ◌==◌,
  arith, eq_iff, All, All-append, All-split, subst, sym, eq_refl,
}
use sardis.Extern.Erc.{Erc, when, resolve-eq-none_iff}
use sardis.Extern.System.{System}
use sardis.Subexec.Command.{Command}
use sardis.Subexec.Group.{Group}
use sardis.Subexec.Group.Validate.{
  Error, menu_command, with_selections, rotate, command_errors, all_errors, validate, unnamed_group,
}

-- A command has a name, and a command line of its own if it overrides the default.
abbrev pub IsComplete : Command → Type 0
IsComplete cmd = (cmd.name ≢ "") × ((cmd.override_default ≡ true) → (cmd.command ≢ ""))

command_errors_iff : (cmd : Command) → All (λ o. o ≡ none) (command_errors cmd) ↔ IsComplete cmd
unfolding command_errors
command_errors_iff cmd = ground (arith, eq_iff cmd.name "", eq_iff cmd.command "")

all_errors_sound :
    (cmds : List Command) → All (λ o. o ≡ none) (all_errors cmds) → All IsComplete cmds
unfolding all_errors
all_errors_sound [] h = tt
all_errors_sound (cmd ∷ cmds) h =
    let (here, later) = All-split (λ o. o ≡ none) (command_errors cmd) (all_errors cmds) h in
    ((command_errors_iff cmd).0 here, all_errors_sound cmds later)

all_errors_complete :
    (cmds : List Command) → All IsComplete cmds → All (λ o. o ≡ none) (all_errors cmds)
unfolding all_errors
all_errors_complete [] h = tt
all_errors_complete (cmd ∷ cmds) (c, h) =
    All-append (λ o. o ≡ none) (command_errors cmd) (all_errors cmds) ((command_errors_iff cmd).1 c)
      (all_errors_complete cmds h)

menu_command-IsComplete : (s : String) → IsComplete (menu_command s) ↔ (s ≢ "")
unfolding menu_command
menu_command-IsComplete s = (λ c. c.0, λ named. (named, λ no_override. cc))

selections_iff :
    (names : List String) → All IsComplete (map menu_command names) ↔ All (λ s. s ≢ "") names
selections_iff [] = (λ h. tt, λ h. tt)
selections_iff (s ∷ names) =
    let (to, from) = selections_iff names in
    let (here_to, here_from) = menu_command-IsComplete s in
    (λ h. (here_to h.0, to h.1), λ h. (here_from h.0, from h.1))

rotate-commands : (cg : Group) → (rotate cg).commands ≡ cg.commands
unfolding rotate
rotate-commands cg = ground arith

rotate-name_iff :
    (cg : Group) → ((rotate cg).name ≢ "") ↔ ((cg.name ≢ "") ⊎ (cg.cmd_name_prefix ≢ ""))
unfolding rotate
rotate-name_iff cg =
    ground
      (arith, eq_iff cg.name "", eq_iff cg.category "", eq_iff cg.cmd_name_prefix "", eq_refl "")

when-name_iff : (s : String) (e : Error) → (when (s == "") e ≡ none) ↔ (s ≢ "")
when-name_iff s e = ground (arith, eq_iff s "")

-- `Validate` reports no error exactly if the group has a name, or a prefix that becomes its name,
-- each command has a name, each command that overrides the default has a command line, and no
-- menu selection is empty.
pub validate_iff :
    (sys : System) (erc : Erc Error) (cg : Group)
    → ((validate sys erc cg).1 ≡ none) ↔ (
        ((cg.name ≢ "") ⊎ (cg.cmd_name_prefix ≢ ""))
        × All IsComplete cg.commands
        × All (λ s. s ≢ "") cg.menu_selections)
unfolding validate with_selections
validate_iff sys erc cg = (to, from)
  where
    whole : Group
    whole = with_selections cg

    kept : (rotate whole).commands ≡ cg.commands ++ map menu_command cg.menu_selections
    kept = rotate-commands whole

    errors : List (Option Error)
    errors = when ((rotate whole).name == "") unnamed_group ∷ all_errors (rotate whole).commands

    to :
        (erc.resolve errors ≡ none)
        → (((cg.name ≢ "") ⊎ (cg.cmd_name_prefix ≢ ""))
            × All IsComplete cg.commands
            × All (λ s. s ≢ "") cg.menu_selections)
    to h =
        let (named, rest) = (resolve-eq-none_iff erc errors).0 h in
        let parts =
          All-split IsComplete cg.commands (map menu_command cg.menu_selections)
            (subst (All IsComplete) kept (all_errors_sound (rotate whole).commands rest)) in
        (
          (rotate-name_iff whole).0 ((when-name_iff (rotate whole).name unnamed_group).0 named),
          parts.0,
          (selections_iff cg.menu_selections).0 parts.1,
        )

    from :
        (((cg.name ≢ "") ⊎ (cg.cmd_name_prefix ≢ ""))
          × All IsComplete cg.commands
          × All (λ s. s ≢ "") cg.menu_selections)
        → erc.resolve errors ≡ none
    from (named, cmds, menu) =
        let whole_complete =
          All-append IsComplete cg.commands (map menu_command cg.menu_selections) cmds
            ((selections_iff cg.menu_selections).1 menu) in
        (resolve-eq-none_iff erc errors).1 (
          (when-name_iff (rotate whole).name unnamed_group).1 ((rotate-name_iff whole).1 named),
          all_errors_complete (rotate whole).commands
              (subst (All IsComplete) (sym kept) whole_complete),
        )
