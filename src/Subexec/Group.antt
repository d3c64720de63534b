-- ===== src/Subexec/Group.antt =====
-- subexec/group.go: groups of commands, their names, and how two groups merge.
pub mod Validate
pub mod Merge
use sardis.Common.{
  ℕ, Bool, true, false, not, ◌&&◌, ◌||◌, Option, none, some, List, [], ◌∷◌, ◌++◌, map, String,
  string_comparable, ◌==◌, leb, if◌then◌else◌, get_elem?,
}
use sardis.Common.Int.{ℤ, leb_ℤ, ltb_ℤ, neg_ℤ, pos}
use sardis.Util.Dots.{dot_join, dot_join_parts}
use sardis.Subexec.Command.{Command, Environment}
use sardis.Extern.Sets.{member}

pub record Group : Type 0 where
  pub category : String
  pub name : String
  pub aliases : List String
  pub directory : String
  pub environment : Option Environment
  pub cmd_name_prefix : String
  pub command : String
  pub notify : Option Bool
  pub background : Option Bool
  pub host : Option String
  pub commands : List Command
  pub menu_selections : List String
  pub sort_hint : ℤ
  pub synthetic : Bool

unfoldable pub resolved_category : Group → String
resolved_category cg = if not (cg.category == "") then cg.category else cg.name

id_path : Group → List String
id_path cg = cg.category ∷ cg.name ∷ cg.cmd_name_prefix ∷ []

unfoldable pub id : Group → String
unfolding id_path dot_join_parts
id cg = dot_join_parts (id_path cg)

-- `NamesAtIndex`; `none` is the panic for an index out of bounds.
unfoldable pub names_at_index : ℕ → Group → Option (List String)
unfolding dot_join
names_at_index idx cg = elim (get_elem? cg.commands idx) [
  | none ↦ none
  | some cmd ↦
      some (map (λ grp. dot_join (cg.category ∷ grp ∷ cmd.name ∷ [])) (cg.name ∷ cg.aliases))
]

-- The absolute value, as `doMerge` takes it.
abs : ℤ → ℤ
abs a = if ltb_ℤ a (pos 0) then neg_ℤ a else a

-- The hint of a merged group: the one with the larger absolute value.
merged_hint : ℤ → ℤ → ℤ
unfolding abs
merged_hint a b = if leb_ℤ (abs b) (abs a) then a else b

-- `doMerge`: the changed receiver, and whether the groups were merged.
unfoldable pub do_merge : Group → Group → Group × Bool
unfolding merged_hint
do_merge cg rhv =
    if (cg.category == "" || rhv.category == "") && not (cg.name == rhv.name)
    then (cg, false)
    else if not (cg.category == rhv.category)
    then (cg, false)
    else (
      record cg {
        aliases = [];
        commands =
            if leb_ℤ rhv.sort_hint cg.sort_hint
            then cg.commands ++ rhv.commands
            else rhv.commands ++ cg.commands;
        sort_hint = merged_hint cg.sort_hint rhv.sort_hint;
      },
      true,
    )
