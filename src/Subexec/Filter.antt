-- ===== src/Subexec/Filter.antt =====
-- subexec/group.go, `FilterCommands`: the commands that a list of names selects.
pub mod Counting
pub mod Exact
use sardis.Common.{
  ℕ, Bool, true, false, not, ◌&&◌, ◌||◌, Option, none, some, List, [], ◌∷◌, String, nat_beq,
  if◌then◌else◌, length,
}
use sardis.Extern.Sets.{Sets, member}
use sardis.Subexec.Command.{Command, name_prime}

pub data FilterError : Type 0 where
  no_commands no_names : FilterError
  ambiguous : (found given : ℕ) → FilterError
  not_found : (found given : ℕ) → FilterError

pub data Filtered : Type 0 where
  ok : List Command → Filtered
  err : FilterError → Filtered

module _ (sets : Sets) where
  open sets use {Set, empty, make, check, add, len}

  -- The stream that `irt.Keep` makes: a command passes if its name is asked for and was not seen;
  -- `seen.Add` is called only for a name that is asked for.
  pick : Set → Set → List Command → List Command
  unfolding name_prime
  pick ops seen [] = []
  pick ops seen (cmd ∷ cmds) =
      let name = name_prime cmd in
      let asked = check name ops in
      let (added, had) = add name seen in
      let rest = pick ops (if asked then added else seen) cmds in
      if asked && not had then cmd ∷ rest else rest

  pub filter_commands : List Command → List String → Filtered
  filter_commands cmds args =
      let ops = make args in
      let out = pick ops empty cmds in
      if nat_beq (length cmds) 0
      then err no_commands
      else if nat_beq (length args) 0
      then err no_names
      else if not (nat_beq (len ops) (length args))
      then err (ambiguous (len ops) (length args))
      else if not (nat_beq (len ops) (length out))
      then err (not_found (length out) (len ops))
      else ok out
