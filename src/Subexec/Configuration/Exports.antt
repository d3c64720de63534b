-- ===== src/Subexec/Configuration/Exports.antt =====
-- Which groups a configuration exports under a name (subexec/subexec.go).
use sardis.Common.{
  Bool, not, ◌&&◌, ◌||◌, Option, none, some, ◌≡◌, refl, ap, ◌∙◌, List, [], ◌∷◌, String,
  string_comparable, ◌==◌, arith, if◌then◌else◌,
}
use sardis.Common.Maps.{load, store, load-store}
use sardis.Extern.Sets.{member}
use sardis.Extern.System.{System}
use sardis.Util.Dots.{dot_join}
use sardis.Subexec.Group.{Group}
use sardis.Subexec.Configuration.{
  Configuration, is_skipped, store_aliases, store_groups, export_command_groups,
}

-- The group is known by this name: by its dotted name or by an alias.
abbrev answers : Group → String → Bool
answers grp name = dot_join (grp.category ∷ grp.name ∷ []) == name || member name grp.aliases

module _ (sys : System) (conf : Configuration) where
  -- The last group that is not skipped and is known by the name, or else the given one.
  pub last_answer : String → Option Group → List Group → Option Group
  last_answer name before [] = before
  last_answer name before (grp ∷ groups) =
      last_answer name
        (if not (is_skipped sys conf grp) && answers grp name then some grp else before) groups

  load-store_aliases :
      (grp : Group) (name : String) (aliases : List String) (out : List (String × Group))
      → load name (store_aliases sys conf grp aliases out)
        ≡ (if member name aliases then some grp else load name out)
  unfolding store_aliases
  load-store_aliases grp name [] out = refl
  load-store_aliases grp name (alias ∷ aliases) out = ground (
    arith,
    load-store_aliases grp name aliases (store alias grp out),
    load-store alias name grp out,
  )

  one_group :
      (name : String) (grp : Group) (out : List (String × Group))
      → load name (
          if is_skipped sys conf grp
          then out
          else store_aliases sys conf grp grp.aliases
              (store (dot_join (grp.category ∷ grp.name ∷ [])) grp out))
        ≡ (if not (is_skipped sys conf grp) && answers grp name then some grp else load name out)
  one_group name grp out =
      let dotted = dot_join (grp.category ∷ grp.name ∷ []) in
      ground (
        arith,
        load-store_aliases grp name grp.aliases (store dotted grp out),
        load-store dotted name grp out,
      )

  load-store_groups :
      (name : String) (groups : List Group) (out : List (String × Group))
      → load name (store_groups sys conf groups out) ≡ last_answer name (load name out) groups
  unfolding store_groups last_answer
  load-store_groups name [] out = refl
  load-store_groups name (grp ∷ groups) out =
      load-store_groups name groups _ ∙ ap (λ o. last_answer name o groups) (one_group name grp out)

  -- A name finds the last group that is known by it among those that are not skipped.
  pub load-export_command_groups :
      (name : String)
      → load name (export_command_groups sys conf) ≡ last_answer name none conf.commands
  unfolding export_command_groups load
  load-export_command_groups name = load-store_groups name conf.commands []
