-- ===== src/Subexec/Configuration.antt =====
-- subexec/subexec.go: joining configurations and exporting their commands and groups. The exports
-- are those of a first call: the program keeps their results in `adt.Once` fields. Resolving
-- aliases and merging groups is modelled in Subexec/Aliases; looking up sockets is not modelled.
pub mod Exports
use sardis.Common.{
  Bool, true, false, not, ◌&&◌, Option, none, some, List, [], ◌∷◌, ◌++◌, map, String,
  string_comparable, pointer_comparable, ◌==◌, if◌then◌else◌,
}
use sardis.Common.Maps.{store}
use sardis.Extern.System.{System}
use sardis.Util.Dots.{default, dot_join}
use sardis.Subexec.Command.{Command}
use sardis.Subexec.Group.{Group}

pub record Configuration : Type 0 where
  pub commands : List Group
  pub ssh_agent_socket_path : String
  pub alacritty_socket_path : String
  pub include_local_shh : Option Bool
  pub allow_undefined_sockets : Option Bool

-- `Join`
unfoldable pub join_configuration : Configuration → Configuration → Configuration
unfolding default
join_configuration conf mcf = record {
  commands = conf.commands ++ mcf.commands;
  ssh_agent_socket_path = default mcf.ssh_agent_socket_path conf.ssh_agent_socket_path;
  alacritty_socket_path = default mcf.alacritty_socket_path conf.alacritty_socket_path;
  include_local_shh = default mcf.include_local_shh conf.include_local_shh;
  allow_undefined_sockets = default mcf.allow_undefined_sockets conf.allow_undefined_sockets;
}

-- `stw.DerefZ` of a bool pointer.
abbrev deref_bool : Option Bool → Bool
deref_bool none = false
deref_bool (some b) = b

module _ (sys : System) (conf : Configuration) where
  -- The group is for this host, and such groups are left out.
  unfoldable pub is_skipped : Group → Bool
  is_skipped grp = elim grp.host [
    | none ↦ false
    | some hn ↦ not (hn == "") && hn == sys.hostname && not (deref_bool conf.include_local_shh)
  ]

  export_command : Group → Command → Command
  unfolding dot_join
  export_command grp cmd = record cmd { name = dot_join (grp.category ∷ grp.name ∷ cmd.name ∷ []) }

  export_groups : List Group → List Command
  unfolding is_skipped export_command
  export_groups [] = []
  export_groups (grp ∷ groups) =
      let rest = export_groups groups in
      if is_skipped grp then rest else map (export_command grp) grp.commands ++ rest

  -- `doExportAllCommands`
  unfoldable pub export_all_commands : List Command
  unfolding export_groups
  export_all_commands = export_groups conf.commands

  store_aliases : Group → List String → List (String × Group) → List (String × Group)
  unfolding store
  store_aliases grp [] out = out
  store_aliases grp (alias ∷ aliases) out = store_aliases grp aliases (store alias grp out)

  store_groups : List Group → List (String × Group) → List (String × Group)
  unfolding is_skipped store_aliases dot_join
  store_groups [] out = out
  store_groups (grp ∷ groups) out =
      let named = store (dot_join (grp.category ∷ grp.name ∷ [])) grp out in
      store_groups groups (if is_skipped grp then out else store_aliases grp grp.aliases named)

  -- `doExportCommandGroups`
  pub export_command_groups : List (String × Group)
  unfolding store_groups
  export_command_groups = store_groups conf.commands []
