-- ===== src/Sysmgmt/Systemd.antt =====
-- sysmgmt/systemd.go: systemd services, what is run to set one up, and their groups of commands.
pub mod Services
use Prim.Native.String.{◌++◌ as append}
use sardis.Common.{
  ℕ, ◌+◌, Bool, true, false, not, ◌&&◌, ◌||◌, Option, none, some, ◌⊎◌, inl, inr, List, [], ◌∷◌, map,
  String, string_comparable, ◌==◌, if◌then◌else◌,
}
use sardis.Common.Int.{ℤ, pos, negsuc}
use sardis.Extern.Erc.{Erc, when}
use sardis.Subexec.Command.{Command}
use sardis.Subexec.Group.{Group}

pub record SystemdService : Type 0 where
  pub name : String
  pub unit : String
  pub user : Bool
  pub system : Bool
  pub enabled : Bool
  pub disabled : Bool
  pub start : Bool

pub data Error : Type 0 where
  missing_name missing_unit user_or_system enabled_or_disabled : Error
  joined : Error → Error → Error

abbrev both_or_none : Bool → Bool → Bool
both_or_none a b = (a && b) || (not a && not b)

-- `SystemdService.Validate`
pub service_validate : Erc Error → SystemdService → Option Error
service_validate erc c = erc.resolve (
    when (c.name == "") missing_name
    ∷ when (c.unit == "") missing_unit
    ∷ when (both_or_none c.user c.system) user_or_system
    ∷ when (both_or_none c.disabled c.enabled) enabled_or_disabled
    ∷ [])

-- `SystemdConfiguration.Validate`
unfoldable pub configuration_validate : Erc Error → List SystemdService → Option Error
unfolding service_validate
configuration_validate erc services = erc.resolve (map (service_validate erc) services)

-- What `Worker` runs, with or without sudo: the argument lists of its commands.
pub record Run : Type 0 where
  pub sudo : Bool
  pub commands : List (List String)

-- `Worker` up to the run of the commands, or the error that it returns.
pub service_commands : Erc Error → SystemdService → Run ⊎ Error
unfolding service_validate
service_commands erc conf =
    let run : List (List String) → Run ⊎ Error =
      λ commands. inl (record { sudo = conf.system; commands = commands }) in
    if conf.user && conf.enabled
    then run (
        ("systemctl" ∷ "--user" ∷ "enable" ∷ conf.unit ∷ [])
        ∷ (if conf.start then ("systemctl" ∷ "--user" ∷ "start" ∷ conf.unit ∷ []) ∷ [] else []))
    else if conf.user && conf.disabled
    then run (
        ("systemctl" ∷ "--user" ∷ "disable" ∷ conf.unit ∷ [])
        ∷ ("systemctl" ∷ "--user" ∷ "stop" ∷ conf.unit ∷ [])
        ∷ [])
    else if conf.system && conf.enabled
    then run (
        ("systemctl" ∷ "enable" ∷ conf.unit ∷ [])
        ∷ (if conf.start then ("systemctl" ∷ "start" ∷ conf.unit ∷ []) ∷ [] else []))
    else if conf.system && conf.disabled
    then run
        (("systemctl" ∷ "disable" ∷ conf.unit ∷ []) ∷ ("systemctl" ∷ "stop" ∷ conf.unit ∷ []) ∷ [])
    else (elim (service_validate erc conf) [ none ↦ run [] | some e ↦ inr e ])

-- A command with only a name and a hint.
abbrev pub hinted : String → ℤ → Command
hinted name hint = record {
  name = name;
  group_name = "";
  group_category = "";
  directory = "";
  environment = none;
  command = "";
  arg = "";
  commands = [];
  override_default = false;
  notify = none;
  background = none;
  sort_hint = hint;
  logs = "";
  worker_definition = none;
  unaliased_name = "";
}

abbrev systemctl : SystemdService → String
systemctl service = if service.user then "systemctl --user" else "sudo systemctl"

abbrev window : String
window = "alacritty msg create-window --title {{group.name}}.{{prefix}}.{{name}} --command "

-- The group of the service at an index; the index tells the `Worker` of its `setup` command.
unfoldable pub task_group : ℕ → SystemdService → Group
task_group idx service = record {
  category = "systemd";
  name = service.name;
  aliases = [];
  directory = "";
  environment = none;
  cmd_name_prefix = if service.user then "user" else "system";
  command = append (systemctl service) (append " {{name}} " service.unit);
  notify = some true;
  background = none;
  host = none;
  commands =
      hinted "restart" (pos 32)
      ∷ hinted "stop" (pos 16)
      ∷ hinted "start" (pos 8)
      ∷ hinted "enable" (pos 4)
      ∷ hinted "disable" (negsuc 1)
      ∷ record (hinted "setup" (negsuc 3)) { worker_definition = some idx }
      ∷ record (hinted "logs" (negsuc 1)) {
        command = append window (append "journalctl --follow --pager-end --unit " service.unit);
        override_default = true;
      }
      ∷ record (hinted "status" (negsuc 2)) {
        command = append window (append (systemctl service) (append " {{name}} " service.unit));
        override_default = true;
      }
      ∷ [];
  menu_selections = [];
  sort_hint = negsuc 63;
  synthetic = true;
}

groups_from : ℕ → List SystemdService → List Group
unfolding task_group
groups_from idx [] = []
groups_from idx (service ∷ services) = task_group idx service ∷ groups_from (idx + 1) services

-- `TaskGroups`
unfoldable pub task_groups : List SystemdService → List Group
unfolding groups_from
task_groups services = groups_from 0 services
