-- ===== src/Srv/Logging.antt =====
-- srv/logging.go: the settings of logging and of notifications, which logger they set up, and which
-- loggers a notification reaches. Building the loggers themselves is the work of libraries.
use sardis.Common.{
  ℕ, Bool, true, false, not, ◌&&◌, ◌||◌, Option, none, some, ◌≡◌, ◌≢◌, refl, ◌↔◌, List, [], ◌∷◌,
  String, string_comparable, pointer_comparable, nat_comparable, ◌==◌, if◌then◌else◌, arith, eq_iff,
  ◌⊎◌, inl, inr, Bool-cases,
}
use sardis.Extern.Erc.{Erc, when, resolve-eq-none_iff}
use sardis.Util.Dots.{default}

pub record LoggingSettings : Type 0 where
  pub disable_standard_output : Option Bool
  pub enable_json_formating : Option Bool
  pub enable_json_color_formatting : Option Bool
  pub disable_syslog : Option Bool
  pub priority : ℕ

-- `LoggingSettings.Join`
unfoldable pub logging_join : LoggingSettings → LoggingSettings → LoggingSettings
unfolding default
logging_join ls mc = record {
  disable_standard_output = default mc.disable_standard_output ls.disable_standard_output;
  enable_json_formating = default mc.enable_json_formating ls.enable_json_formating;
  enable_json_color_formatting =
      default mc.enable_json_color_formatting ls.enable_json_color_formatting;
  disable_syslog = default mc.disable_syslog ls.disable_syslog;
  priority = default mc.priority ls.priority;
}

-- The tests of the settings, such as `DisableLoggingToSyslog`.
abbrev is_on : Option Bool → Bool
is_on none = false
is_on (some b) = b

pub record NotifySettings : Type 0 where
  pub name : String
  pub target : String
  pub host : String
  pub user : String
  pub password : String
  pub disabled : Option Bool

-- `NotifySettings.Join`
unfoldable pub notify_join : NotifySettings → NotifySettings → NotifySettings
unfolding default
notify_join conf mc = record {
  name = default mc.name conf.name;
  target = default mc.target conf.target;
  host = default mc.host conf.host;
  user = default mc.user conf.user;
  password = default mc.password conf.password;
  disabled = default mc.disabled conf.disabled;
}

-- `Enabled`
notify_enabled : NotifySettings → Bool
notify_enabled conf = not (is_on conf.disabled)

-- What `xmpp.GetConnectionInfo` gives.
pub record ConnectionInfo : Type 0 where
  pub hostname : String
  pub username : String
  pub password : String

-- The values that may be missing. Errors come in the order in which Go ranges over its map.
pub data NotifyError : Type 0 where
  missing : String → NotifyError
  both : NotifyError → NotifyError → NotifyError

abbrev fill : String → String → String
fill value fallback = if value == "" then fallback else value

fill_notify : (env_target : String) → ConnectionInfo → NotifySettings → NotifySettings
fill_notify env_target defaults conf = record conf {
  name = fill conf.name "sardis";
  target = fill conf.target env_target;
  host = fill conf.host defaults.hostname;
  user = fill conf.user defaults.username;
  password = fill conf.password defaults.password;
}

-- `NotifySettings.Validate`, with the value of SARDIS_NOTIFY_TARGET.
unfoldable pub notify_validate :
    Erc NotifyError
    → (env_target : String) → ConnectionInfo
    → NotifySettings
    → NotifySettings × Option NotifyError
unfolding fill_notify
notify_validate erc env_target defaults conf =
    let filled = fill_notify env_target defaults conf in
    if conf.target == "" && env_target == "" then (conf, none) else (
      filled,
      erc.resolve (
          when (filled.host == "") (missing "host")
          ∷ when (filled.user == "") (missing "user")
          ∷ when (filled.password == "") (missing "pass")
          ∷ []),
    )

pub data Destination : Type 0 where
  standard_output standard_error syslog : Destination

pub data Format : Type 0 where
  plain json json_color : Format

-- What `SetupLogging` sends to, in its order, and the format: the second case of its switch repeats
-- the test of the first. `journal` tells whether this is a Linux with a journal.
unfoldable pub setup_logging : (journal : Bool) → LoggingSettings → List Destination × Format
setup_logging journal conf =
    let color = is_on conf.enable_json_color_formatting in
    let stream =
      if is_on conf.enable_json_formating || color then standard_output else standard_error in
    (
      if journal && not (is_on conf.disable_syslog)
          then if is_on conf.disable_standard_output then syslog ∷ [] else syslog ∷ stream ∷ []
          else stream ∷ [],
      if color then json_color else if color then json else plain,
    )

module _ (erc : Erc NotifyError) (env_target : String) (defaults : ConnectionInfo)
    (conf : NotifySettings) where
  filled_iff :
      (value fallback name : String)
      → (when (fill value fallback == "") (missing name) ≡ none) ↔ ((value ≢ "") ⊎ (fallback ≢ ""))
  filled_iff value fallback name = ground (arith, eq_iff value "", eq_iff fallback "")

  untargeted :
      (conf.target == "" && env_target == "") ≡ true → (conf.target ≡ "") × (env_target ≡ "")
  untargeted h = ground (arith, eq_iff conf.target "", eq_iff env_target "")

  -- Settings of notifications are valid exactly if nothing gives a target, or there is a host, a user
  -- and a password, in the settings or among the defaults.
  notify_validate_iff : ((notify_validate erc env_target defaults conf).1 ≡ none) ↔ (
      ((conf.target ≡ "") × (env_target ≡ ""))
      ⊎ (((conf.host ≢ "") ⊎ (defaults.hostname ≢ ""))
          × ((conf.user ≢ "") ⊎ (defaults.username ≢ ""))
          × ((conf.password ≢ "") ⊎ (defaults.password ≢ ""))))
  unfolding notify_validate fill_notify
  notify_validate_iff =
      let host = filled_iff conf.host defaults.hostname "host" in
      let user = filled_iff conf.user defaults.username "user" in
      let pass = filled_iff conf.password defaults.password "pass" in
      elim (Bool-cases (conf.target == "" && env_target == "")) [
        | inl silent ↦ rw (notify_validate, silent) (λ _. inl (untargeted silent), λ _. refl)
        | inr targeted ↦
            rw (notify_validate, targeted)
              (
                λ h.
                    let checks = (resolve-eq-none_iff erc _).0 h in
                    inr (host.0 checks.0, user.0 checks.1.0, pass.0 checks.1.1.0),
                λ h. elim h [
                  | inl nothing ↦
                      absurd (ground (arith, eq_iff conf.target "", eq_iff env_target ""))
                  | inr (h1, h2, h3) ↦
                      (resolve-eq-none_iff erc _).1 (host.1 h1, (user.1 h2, (pass.1 h3, tt)))
                ],
              )
      ]
