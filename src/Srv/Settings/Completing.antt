-- ===== src/Srv/Settings/Completing.antt =====
-- srv/srv.go: completing and checking the settings of the services. The libraries' default values
-- and the checks of the telegram client are parameters.
use sardis.Common.{
  ℕ, zero, suc, ℕ, Bool, true, not, ◌&&◌, Option, none, some, [], ◌∷◌, map, String,
  string_comparable, pointer_comparable, ◌==◌, if◌then◌else◌, ◌≡◌, refl, ◌⊎◌, inl, inr, arith,
}
use sardis.Common.Int.{ℤ, pos, ltb_ℤ, leb_ℤ, negsuc, int_comparable}
use sardis.Extern.Erc.{Erc}
use sardis.Extern.System.{System}
use sardis.Util.Dots.{default}
use sardis.Util.Path.{try_expand_home_dir}
use sardis.Srv.Logging.{ConnectionInfo, NotifyError, notify_validate}
use sardis.Srv.Settings.{
  Credentials, DmenuFlags, TelegramOptions, ShellHistory, Settings, min_ℤ, max_ℤ,
}

pub data SettingsError : Type 0 where
  of_notify : NotifyError → SettingsError
  of_home_dir of_credentials of_telegram : SettingsError
  several : SettingsError → SettingsError → SettingsError

-- The libraries that `Validate` asks: godmenu's defaults, homedir, the decoding of the file of
-- credentials into the ones at hand, and telegram's checks.
pub record Libraries : Type 0 where
  pub dmenu_path : String
  pub background_color : String
  pub text_color : String
  pub expand_home : String → Option String
  pub unmarshal_credentials : String → Credentials → Credentials × Bool
  pub telegram_is_zero : TelegramOptions → Bool
  pub telegram_is_valid : TelegramOptions → Bool
  pub connection_info : ConnectionInfo

-- `Credentials.Validate`
credentials_validate : Libraries → Credentials → Credentials × Option SettingsError
credentials_validate lib conf =
    if conf.path == "" then (conf, none) else (elim (lib.expand_home conf.path) [
      | none ↦ (record conf { path = "" }, some of_home_dir)
      | some path ↦
          let (loaded, failed) = lib.unmarshal_credentials path (record conf { path = path }) in
          (loaded, if failed then some of_credentials else none)
    ])

-- The flags of `Validate`: the monitor and the window are dropped.
fill_flags : Libraries → DmenuFlags → DmenuFlags
unfolding default
fill_flags lib flags = record {
  path = default flags.path lib.dmenu_path;
  background_color = default flags.background_color lib.background_color;
  text_color = default flags.text_color lib.text_color;
  font = default flags.font "Source Code Pro-14";
  lines = default flags.lines (pos 16);
  prompt = default flags.prompt "=>>";
  monitor = pos 0;
  window_id = "";
}

unfoldable pub fill_history : ShellHistory → ShellHistory
unfolding default
fill_history history =
    let longest = default (max_ℤ (pos 0) history.max_length) (pos 32) in
    record history {
      max_length = longest;
      min_length = default (min_ℤ longest history.min_length) (pos 4);
    }

abbrev wrap_notify : Option NotifyError → Option SettingsError
wrap_notify none = none
wrap_notify (some e) = some (of_notify e)

-- `Configuration.Validate`
unfoldable pub settings_validate :
    System
    → Libraries
    → Erc NotifyError
    → Erc SettingsError
    → (env_target : String) → Settings
    → Settings × Option SettingsError
unfolding credentials_validate fill_flags fill_history notify_validate try_expand_home_dir
settings_validate sys lib notify_erc erc env_target conf =
    let (notify, e1) = notify_validate notify_erc env_target lib.connection_info conf.notify in
    let (credentials, e2) = credentials_validate lib conf.credentials in
    let telegram = record conf.telegram { client = some true } in
    let bad_telegram =
      not (lib.telegram_is_zero telegram) && not (lib.telegram_is_valid telegram) in
    (
      record conf {
        notify = notify;
        credentials = credentials;
        telegram = telegram;
        dmenu_flags = fill_flags lib conf.dmenu_flags;
        config_paths = map (try_expand_home_dir sys) conf.config_paths;
        shell_history = fill_history conf.shell_history;
      },
      erc.resolve (wrap_notify e1 ∷ e2 ∷ (if bad_telegram then some of_telegram else none) ∷ []),
    )

longest_suc : (max : ℤ) → (k : ℕ) × (default (max_ℤ (pos 0) max) (pos 32) ≡ pos (suc k))
unfolding default
longest_suc (pos zero) = (31, refl)
longest_suc (pos (suc n)) = (n, ground arith)
longest_suc (negsuc n) = (31, ground arith)

shortest_bound :
    (k : ℕ) (min : ℤ)
    → (leb_ℤ (default (min_ℤ (pos (suc k)) min) (pos 4)) (pos (suc k)) ≡ true)
      ⊎ ((min ≡ pos 0) × (default (min_ℤ (pos (suc k)) min) (pos 4) ≡ pos 4))
unfolding default
shortest_bound k (pos zero) = inr (refl, ground arith)
shortest_bound k (pos (suc n)) = inl (ground arith)
shortest_bound k (negsuc n) = inl (ground arith)

-- After `Validate` the longest line of the shell's history that is kept is longer than zero, and the
-- shortest is not longer than that, unless it was given as zero: then it is 4.
pub fill_history-bounds :
    (history : ShellHistory)
    → (ltb_ℤ (pos 0) (fill_history history).max_length ≡ true)
      × ((leb_ℤ (fill_history history).min_length (fill_history history).max_length ≡ true)
          ⊎ ((history.min_length ≡ pos 0) × ((fill_history history).min_length ≡ pos 4)))
unfolding fill_history
fill_history-bounds history =
    let (k, longest) = longest_suc history.max_length in
    let above : ltb_ℤ (pos 0) (pos (suc k)) ≡ true = ground arith in
    rw longest (above, shortest_bound k history.min_length)
