-- ===== src/Examples/Services.antt =====
-- A service of the user.
use sardis.Common.{true, false, none, ◌≡◌, refl, string_comparable, arith, eq_iff}
use sardis.Common.Int.{pos}
use sardis.Common.Text.{contains, replace_all}
use sardis.Extern.Erc.{Erc, chain}
use sardis.Extern.System.{plain_system}
use sardis.Util.Dots.{default}
use sardis.Subexec.Group.Validate
use sardis.Subexec.Group.Validate.{validate, choose_command, fill_command}
use sardis.Sysmgmt.Systemd.{SystemdService, Error, joined, hinted, task_group}
use sardis.Sysmgmt.Systemd.Services.{IsValid, validate-task_group}

data Wraps : Error → Error → Type 0 where
  itself : {e : Error} → Wraps e e
  left : {a b e : Error} → Wraps a e → Wraps (joined a b) e
  right : {a b e : Error} → Wraps b e → Wraps (joined a b) e

abbrev errors : Erc Error
errors = chain joined Wraps (λ e. itself) (λ a b e h. left h) (λ a b e h. right h)

data GroupWraps : Validate.Error → Validate.Error → Type 0 where
  itself : {e : Validate.Error} → GroupWraps e e
  left : {a b e : Validate.Error} → GroupWraps a e → GroupWraps (Validate.joined a b) e
  right : {a b e : Validate.Error} → GroupWraps b e → GroupWraps (Validate.joined a b) e

abbrev group_errors : Erc Validate.Error
group_errors =
    chain Validate.joined GroupWraps (λ e. GroupWraps.itself) (λ a b e h. GroupWraps.left h)
      (λ a b e h. GroupWraps.right h)

abbrev service : SystemdService
service = record {
  name = "sync";
  unit = "sync.service";
  user = true;
  system = false;
  enabled = true;
  disabled = false;
  start = true;
}

service-IsValid : IsValid service
service-IsValid =
    (ground (arith, eq_iff "sync" ""), ground (arith, eq_iff "sync.service" ""), refl, refl)

validate-task_group_example : (validate plain_system group_errors (task_group 0 service)).1 ≡ none
validate-task_group_example = validate-task_group plain_system group_errors 0 service

-- The line that restarts the service.
restart_test :
    let group = task_group 0 service in
    let line = choose_command group (hinted "restart" (pos 32)) in
    fill_command group (hinted "restart" (pos 32)) line ≡ "systemctl --user restart sync.service"
unfolding task_group choose_command fill_command default contains replace_all
restart_test = refl
