-- ===== src/Sysmgmt/Systemd/Services.antt =====
-- Which services are valid, what setting one up runs, and that its commands form a valid group
-- (sysmgmt/systemd.go).
use Prim.Native.String.{[], ◌∷◌, ◌++◌ as append}
use text.Mathlib.TextLemmas.{append-eq-nil_iff}
use sardis.Common.{
  ℕ, not, none, ◌≡◌, ◌≢◌, ◌↔◌, inl, inr, List, [], ◌∷◌, String, string_comparable, ◌==◌, arith,
  eq_iff, if◌then◌else◌,
}
use sardis.Extern.Erc.{Erc, when, resolve-eq-none_iff}
use sardis.Extern.System.{System}
use sardis.Subexec.Group.Validate.{validate}
use sardis.Subexec.Group.Validate
use sardis.Subexec.Group.Validate.Checks.{validate_iff}
use sardis.Sysmgmt.Systemd.{
  SystemdService, Error, missing_name, missing_unit, user_or_system, enabled_or_disabled,
  both_or_none, service_validate, service_commands, systemctl, window, task_group,
}

-- A name, a unit, one owner and one state.
abbrev pub IsValid : SystemdService → Type 0
IsValid c = (c.name ≢ "") × (c.unit ≢ "") × (c.system ≡ not c.user) × (c.disabled ≡ not c.enabled)

-- A service is valid exactly if it has a name and a unit, belongs to the user or to the system but not
-- to both, and is to be enabled or disabled but not both.
service_validate_iff :
    (erc : Erc Error) (c : SystemdService) → (service_validate erc c ≡ none) ↔ IsValid c
unfolding service_validate
service_validate_iff erc c = ground (
  arith,
  eq_iff c.name "",
  eq_iff c.unit "",
  resolve-eq-none_iff erc (
      when (c.name == "") missing_name
      ∷ when (c.unit == "") missing_unit
      ∷ when (both_or_none c.user c.system) user_or_system
      ∷ when (both_or_none c.disabled c.enabled) enabled_or_disabled
      ∷ []),
)

abbrev scoped : SystemdService → String → List String
scoped c verb =
    if c.user then "systemctl" ∷ "--user" ∷ verb ∷ c.unit ∷ [] else "systemctl" ∷ verb ∷ c.unit ∷ []

-- Setting up a valid service never fails before its commands run. It enables the unit, and starts it
-- if asked to, or it disables and stops the unit; with sudo exactly if the service is the system's, and
-- with `--user` otherwise.
service_commands_valid :
    (erc : Erc Error) (c : SystemdService)
    → IsValid c
    → service_commands erc c
      ≡ inl (record {
        sudo = not c.user;
        commands =
            if c.enabled
            then scoped c "enable" ∷ (if c.start then scoped c "start" ∷ [] else [])
            else scoped c "disable" ∷ scoped c "stop" ∷ [];
      })
unfolding service_commands
service_commands_valid erc c (named, united, owner, state) = ground (arith, owner, state)

append-ne-nil : (s t : String) → s ≢ "" → append s t ≢ ""
append-ne-nil s t some_text none_left =
    some_text ((append-eq-nil_iff {p = s} {q = t}).0 none_left).0

window-ne-nil : window ≢ ""
window-ne-nil = ground (arith, eq_iff window "")

-- The commands of every service form a valid group: also where the service has no name, since the
-- group then takes the name of its prefix.
pub validate-task_group :
    (sys : System) (erc : Erc Validate.Error) (idx : ℕ) (c : SystemdService)
    → (validate sys erc (task_group idx c)).1 ≡ none
unfolding task_group
validate-task_group sys erc idx c = (validate_iff sys erc (task_group idx c)).1 (
  inr (ground (arith, eq_iff "user" "", eq_iff "system" "")),
  ground (
    arith,
    eq_iff "restart" "",
    eq_iff "stop" "",
    eq_iff "start" "",
    eq_iff "enable" "",
    eq_iff "disable" "",
    eq_iff "setup" "",
    eq_iff "logs" "",
    eq_iff "status" "",
    append-ne-nil window (append "journalctl --follow --pager-end --unit " c.unit) window-ne-nil,
    append-ne-nil window (append (systemctl c) (append " {{name}} " c.unit)) window-ne-nil,
  ),
  tt,
)
