-- ===== src/Subexec/Select.antt =====
-- subexec/list.go: what a list of arguments selects from the exported commands and groups.
pub mod Outcomes
pub mod Keywords
use sardis.Common.{
  ℕ, Bool, true, false, not, ◌&&◌, ◌||◌, Option, none, some, List, [], ◌∷◌, map, String,
  string_comparable, ◌==◌, nat_beq, if◌then◌else◌, length, get_elem?, keep,
}
use sardis.Common.Maps.{load}
use sardis.Extern.Sets.{Sets, member}
use sardis.Extern.System.{System}
use sardis.Util.Dots.{dot_join}
use sardis.Subexec.Command.{Command, name_prime, fqn}
use sardis.Subexec.Group.{Group}
use sardis.Subexec.Filter.{FilterError, Filtered, filter_commands}
use sardis.Subexec.Filter
use sardis.Subexec.Configuration.{Configuration, export_all_commands, export_command_groups}

pub record CommandListStage : Type 0 where
  pub selections : List String
  pub prefixed : List String
  pub commands : List Command
  pub prefix : String
  pub next_label : String

abbrev no_stage : CommandListStage
no_stage = record { selections = []; prefixed = []; commands = []; prefix = ""; next_label = "" }

-- `SelectionAt`; `none` is the panic for an index out of range, here and below.
selection_at : ℕ → CommandListStage → Option String
selection_at idx cls = get_elem? cls.selections idx

-- `Resolve`
pub resolve : List ℕ → CommandListStage → Option (List String)
resolve [] cls = some []
resolve (v ∷ idxs) cls =
    let source = if not (nat_beq (length cls.prefixed) 0) then cls.prefixed else cls.selections in
    elim (get_elem? source v) [
      | none ↦ none
      | some name ↦ elim (resolve idxs cls) [ none ↦ none | some names ↦ some (name ∷ names) ]
    ]

-- `CommandNames`
unfoldable pub command_names : CommandListStage → List String
unfolding fqn
command_names cls = map fqn cls.commands

pub data SelectError : Type 0 where
  keyword_in_selection : String → SelectError
  mixed_selection : (groups missing : List String) → SelectError
  repeated_groups : SelectError
  filter_failed : FilterError → SelectError

pub data Selected : Type 0 where
  stage : CommandListStage → Selected
  fails : SelectError → Selected
  unreachable : Selected

abbrev from_filter : (List Command → CommandListStage) → Filtered → Selected
from_filter f (Filtered.ok cmds) = stage (f cmds)
from_filter f (Filtered.err e) = fails (filter_failed e)

abbrev is_all : String → Bool
is_all s = s == "all" || s == "a"

abbrev is_groups : String → Bool
is_groups s = s == "groups" || s == "group" || s == "g"

abbrev pub is_some {ℓ} : {A : Type ℓ} → Option A → Bool
is_some none = false
is_some (some a) = true

module _ (sys : System) (conf : Configuration) where
  abbrev group_map : List (String × Group)
  group_map = export_command_groups sys conf

  abbrev all_commands : List Command
  all_commands = export_all_commands sys conf

  abbrev pub is_group : String → Bool
  is_group item = is_some (load item group_map)

  select_all : CommandListStage
  unfolding name_prime
  select_all = record no_stage { next_label = "sardis"; selections = map name_prime all_commands }

  -- `arrange` gives the order in which Go ranges over the keys of the map of groups.
  select_groups : (List String → List String) → CommandListStage
  select_groups arrange = record no_stage {
    next_label = "groups";
    selections = arrange (map (λ entry. entry.0) group_map);
  }

select_group : String → Group → CommandListStage
unfolding name_prime dot_join
select_group selection gr = record {
  next_label = selection;
  prefix = selection;
  selections = map name_prime gr.commands;
  prefixed = map (λ c. dot_join (selection ∷ name_prime c ∷ [])) gr.commands;
  commands = [];
}

module _ (sets : Sets) (sys : System) (arrange : List String → List String)
    (conf : Configuration) where
  -- The cases of one argument.
  resolve_one : String → Selected
  unfolding select_all select_groups select_group
  resolve_one selection =
      if is_all selection
      then stage (select_all sys conf)
      else if is_groups selection
      then stage (select_groups sys conf arrange)
      else elim (load selection (group_map sys conf)) [
        | some gr ↦ stage (select_group selection gr)
        | none ↦
            from_filter (λ cmds. record no_stage { next_label = "sardis"; commands = cmds })
              (filter_commands sets (all_commands sys conf) (selection ∷ []))
      ]

  -- The cases of two arguments or more.
  resolve_many : List String → Selected
  resolve_many args =
      let groups = keep (is_group sys conf) args in
      let missing = keep (λ item. not (is_group sys conf item)) args in
      if not (nat_beq (length missing) 0) && not (nat_beq (length groups) 0)
      then fails (mixed_selection groups missing)
      else if not (nat_beq (length groups) 0)
      then (if not (nat_beq (sets.len (sets.make args)) (length args))
          then fails repeated_groups
          else stage (record no_stage { next_label = "groups"; selections = args }))
      else if not (nat_beq (length missing) 0)
      then from_filter (λ cmds. record no_stage { commands = cmds })
          (filter_commands sets (all_commands sys conf) args)
      else unreachable

  -- `ResolveCommands`
  pub resolve_commands : List String → Selected
  resolve_commands [] = stage (select_all sys conf)
  resolve_commands (selection ∷ []) = resolve_one selection
  resolve_commands (first ∷ second ∷ rest) =
      if is_all first || is_groups first
      then fails (keyword_in_selection first)
      else resolve_many (first ∷ second ∷ rest)
