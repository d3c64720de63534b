-- ===== src/Srv/Settings.antt =====
-- srv/srv.go: the settings of the services, and joining two of them. Whether a file exists
-- is a parameter.
pub mod Completing
use sardis.Common.{
  ◌≡◌, refl, ℕ, Bool, true, false, not, ◌&&◌, ◌||◌, Option, none, some, List, [], ◌∷◌, ◌++◌, map,
  keep, String, string_comparable, pointer_comparable, ◌==◌, if◌then◌else◌,
}
use sardis.Common.Int.{ℤ, pos, ltb_ℤ, int_comparable}
use sardis.Extern.Erc.{Erc}
use sardis.Extern.Sets.{unique}
use sardis.Extern.System.{System}
use sardis.Util.Dots.{default}
use sardis.Util.Path.{try_expand_home_dir}
use sardis.Srv.Network.{HostDefinition}
use sardis.Srv.Logging.{
  LoggingSettings, logging_join, NotifySettings, notify_join, ConnectionInfo, NotifyError,
  notify_validate,
}

pub record Account : Type 0 where
  pub username : String
  pub password : String
  pub url : String
  pub token : String

pub record Twitter : Type 0 where
  pub username : String
  pub consumer_key : String
  pub consumer_secret : String
  pub oauth_token : String
  pub oauth_secret : String

pub record AwsProfile : Type 0 where
  profile : String
  pub key : String
  secret : String
  pub token : String

-- An account of Jira has no token, one of GitHub no address.
pub record Credentials : Type 0 where
  pub path : String
  pub twitter : Twitter
  pub jira : Account
  pub github : Account
  pub aws : List AwsProfile

abbrev join_account : Account → Account → Account
join_account conf mc = record {
  username = default mc.username conf.username;
  password = default mc.password conf.password;
  url = default mc.url conf.url;
  token = default mc.token conf.token;
}

-- `Credentials.Join`
credentials_join : Credentials → Credentials → Credentials
unfolding default
credentials_join conf mc = record {
  path = default mc.path conf.path;
  twitter = record {
    username = default mc.twitter.username conf.twitter.username;
    consumer_key = default mc.twitter.consumer_key conf.twitter.consumer_key;
    consumer_secret = default mc.twitter.consumer_secret conf.twitter.consumer_secret;
    oauth_token = default mc.twitter.oauth_token conf.twitter.oauth_token;
    oauth_secret = default mc.twitter.oauth_secret conf.twitter.oauth_secret;
  };
  jira = join_account conf.jira mc.jira;
  github = join_account conf.github mc.github;
  aws = conf.aws ++ mc.aws;
}

pub record DmenuFlags : Type 0 where
  pub background_color : String
  pub font : String
  pub lines : ℤ
  pub path : String
  pub text_color : String
  pub prompt : String
  pub monitor : ℤ
  pub window_id : String

-- The client is told by whether it is set.
pub record TelegramOptions : Type 0 where
  pub name : String
  pub target : String
  pub token : String
  pub client : Option Bool

pub record ShellHistory : Type 0 where
  pub min_length : ℤ
  pub max_length : ℤ
  pub paths : List String
  pub exclude_prefixes : List String
  pub exclude_substrings : List String

pub record Settings : Type 0 where
  pub logging : LoggingSettings
  pub credentials : Credentials
  pub notify : NotifySettings
  pub telegram : TelegramOptions
  pub network : List HostDefinition
  pub config_paths : List String
  pub dmenu_flags : DmenuFlags
  pub with_annotations : Bool
  pub annotation_separator : String
  pub shell_history : ShellHistory

abbrev min_ℤ : ℤ → ℤ → ℤ
min_ℤ a b = if ltb_ℤ b a then b else a

abbrev max_ℤ : ℤ → ℤ → ℤ
max_ℤ a b = if ltb_ℤ a b then b else a

-- The paths of `Join`: the distinct ones, expanded, of files that exist.
history_paths : System → (file_exists : String → Bool) → List String → List String
unfolding try_expand_home_dir
history_paths sys file_exists paths =
    keep (λ p. not (p == "")) (keep file_exists (map (try_expand_home_dir sys) (unique paths)))

join_flags : DmenuFlags → DmenuFlags → DmenuFlags
unfolding default
join_flags conf mc = record {
  background_color = default mc.background_color conf.background_color;
  font = default mc.font conf.font;
  lines = default mc.lines conf.lines;
  path = default mc.path conf.path;
  text_color = default mc.text_color conf.text_color;
  prompt = default mc.prompt conf.prompt;
  monitor = default mc.monitor conf.monitor;
  window_id = default mc.window_id conf.window_id;
}

join_history : System → (file_exists : String → Bool) → ShellHistory → ShellHistory → ShellHistory
unfolding history_paths
join_history sys file_exists conf mc = record {
  exclude_prefixes = unique (conf.exclude_prefixes ++ mc.exclude_prefixes);
  exclude_substrings = unique (conf.exclude_substrings ++ mc.exclude_substrings);
  paths = history_paths sys file_exists (conf.paths ++ mc.paths);
  min_length = min_ℤ conf.min_length mc.min_length;
  max_length = max_ℤ conf.max_length mc.max_length;
}

-- `Configuration.Join`; it leaves the network, the annotations and their separator as they are.
unfoldable pub settings_join :
    System → (file_exists : String → Bool) → Settings → Settings → Settings
unfolding join_flags join_history credentials_join logging_join notify_join default
settings_join sys file_exists conf mc = record conf {
  config_paths = conf.config_paths ++ mc.config_paths;
  notify = notify_join conf.notify mc.notify;
  credentials = credentials_join conf.credentials mc.credentials;
  logging = logging_join conf.logging mc.logging;
  dmenu_flags = join_flags conf.dmenu_flags mc.dmenu_flags;
  telegram = record {
    name = default mc.telegram.name conf.telegram.name;
    target = default mc.telegram.target conf.telegram.target;
    token = default mc.telegram.token conf.telegram.token;
    client = default mc.telegram.client conf.telegram.client;
  };
  shell_history = join_history sys file_exists conf.shell_history mc.shell_history;
}

-- Joining leaves the hosts of the first settings as they are.
pub settings_join-network :
    (sys : System) (file_exists : String → Bool) (conf mc : Settings)
    → (settings_join sys file_exists conf mc).network ≡ conf.network
unfolding settings_join
settings_join-network sys file_exists conf mc = refl
