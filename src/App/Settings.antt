-- ===== src/App/Settings.antt =====
-- app.js, the settings and the refresh timer that they set: `loadSettings`, `applySettings`,
-- `saveSettings`, `openSettingsModal`, `handleSaveSettings`, `handleResetSettings`,
-- `startAutoRefresh`, `stopAutoRefresh`, `renderLogs` as far as it sets the page size. What a select offers comes from the page's markup.
pub mod Page
pub mod Dialog
pub mod Sync
pub mod Shade
pub mod RoundTrip
use cockpit_cronplus.Common.{
  ℕ, ◌+◌, ◌*◌, Bool, true, false, not, ◌&&◌, ◌||◌, Option, none, some, List, [], ◌∷◌, ◌++◌,
  if◌then◌else◌, ℤ, pos, negsuc, Text, codes, text_eq, is_empty, or_else, any, filter,
}
use cockpit_cronplus.App.Types.{num_or, int_or}
use cockpit_cronplus.App.Form.{show_int, root}
use cockpit_cronplus.Theme.{effective, shade_key}

pub record Settings : Type 0 where
  pub language : Text
  pub theme : Text
  pub auto_refresh_interval : ℤ
  pub log_max_bytes : ℤ
  pub log_backup_count : ℤ
  pub default_run_user : Text
  pub default_timeout : ℤ
  pub default_max_retries : ℤ
  pub default_retry_interval : ℤ
  pub log_page_size : ℤ
  pub task_page_size : ℤ
  pub daemon_log_level : Text
  pub daemon_log_lines : ℤ
  pub daemon_log_interval : ℤ
  pub daemon_log_max_bytes : ℤ
  pub daemon_log_backup_count : ℤ

abbrev pub settings_defaults : Settings
settings_defaults = record {
  language = [];
  theme = codes "auto";
  auto_refresh_interval = pos 15;
  log_max_bytes = pos 10485760;
  log_backup_count = pos 5;
  default_run_user = root;
  default_timeout = pos 0;
  default_max_retries = pos 0;
  default_retry_interval = pos 60;
  log_page_size = pos 20;
  task_page_size = pos 20;
  daemon_log_level = codes "all";
  daemon_log_lines = pos 100;
  daemon_log_interval = pos 2;
  daemon_log_max_bytes = pos 10485760;
  daemon_log_backup_count = pos 3;
}

-- What settings.json holds, with none for a key that it does not have. `null` and an array are
-- all none.
pub record Stored : Type 0 where
  pub language : Option Text
  pub theme : Option Text
  pub auto_refresh_interval : Option ℤ
  pub log_max_bytes : Option ℤ
  pub log_backup_count : Option ℤ
  pub default_run_user : Option Text
  pub default_timeout : Option ℤ
  pub default_max_retries : Option ℤ
  pub default_retry_interval : Option ℤ
  pub log_page_size : Option ℤ
  pub task_page_size : Option ℤ
  pub daemon_log_level : Option Text
  pub daemon_log_lines : Option ℤ
  pub daemon_log_interval : Option ℤ
  pub daemon_log_max_bytes : Option ℤ
  pub daemon_log_backup_count : Option ℤ

abbrev given {ℓ} : {A : Type ℓ} → A → Option A → A
given d none = d
given d (some a) = a

-- `Object.assign({}, SETTINGS_DEFAULTS, raw)`
unfoldable pub assign : Stored → Settings
assign raw = record {
  language = given settings_defaults.language raw.language;
  theme = given settings_defaults.theme raw.theme;
  auto_refresh_interval = given settings_defaults.auto_refresh_interval raw.auto_refresh_interval;
  log_max_bytes = given settings_defaults.log_max_bytes raw.log_max_bytes;
  log_backup_count = given settings_defaults.log_backup_count raw.log_backup_count;
  default_run_user = given settings_defaults.default_run_user raw.default_run_user;
  default_timeout = given settings_defaults.default_timeout raw.default_timeout;
  default_max_retries = given settings_defaults.default_max_retries raw.default_max_retries;
  default_retry_interval =
      given settings_defaults.default_retry_interval raw.default_retry_interval;
  log_page_size = given settings_defaults.log_page_size raw.log_page_size;
  task_page_size = given settings_defaults.task_page_size raw.task_page_size;
  daemon_log_level = given settings_defaults.daemon_log_level raw.daemon_log_level;
  daemon_log_lines = given settings_defaults.daemon_log_lines raw.daemon_log_lines;
  daemon_log_interval = given settings_defaults.daemon_log_interval raw.daemon_log_interval;
  daemon_log_max_bytes = given settings_defaults.daemon_log_max_bytes raw.daemon_log_max_bytes;
  daemon_log_backup_count =
      given settings_defaults.daemon_log_backup_count raw.daemon_log_backup_count;
}

-- The file that settings are written to.
unfoldable pub stored : Settings → Stored
stored s = record {
  language = some s.language;
  theme = some s.theme;
  auto_refresh_interval = some s.auto_refresh_interval;
  log_max_bytes = some s.log_max_bytes;
  log_backup_count = some s.log_backup_count;
  default_run_user = some s.default_run_user;
  default_timeout = some s.default_timeout;
  default_max_retries = some s.default_max_retries;
  default_retry_interval = some s.default_retry_interval;
  log_page_size = some s.log_page_size;
  task_page_size = some s.task_page_size;
  daemon_log_level = some s.daemon_log_level;
  daemon_log_lines = some s.daemon_log_lines;
  daemon_log_interval = some s.daemon_log_interval;
  daemon_log_max_bytes = some s.daemon_log_max_bytes;
  daemon_log_backup_count = some s.daemon_log_backup_count;
}

-- A select: its options' values, and the value that is chosen.
pub record Select : Type 0 where
  pub options : List Text
  pub value : Text

-- `select.value = v`: a value with no option leaves nothing chosen.
abbrev pub choose : Select → Text → Select
choose c v = record c { value = if any (text_eq v) c.options then v else [] }

-- The page's variables that the settings set. `timer` is the interval of the refresh timer, none if
-- it does not run; `saved_theme` the text of localStorage; `shown_theme` the page's attribute;
-- `log_size` the value of `#logPageSize`, which no setting changes, and `page_size` is
-- `#taskPageSize`.
pub record View : Type 0 where
  pub settings : Settings
  pub auto_refresh_ms : ℤ
  pub timer : Option ℤ
  pub log_page_size : ℤ
  pub task_page_size : ℤ
  pub page_size : Select
  pub log_size : Text
  pub daemon_level : Select
  pub daemon_lines : Select
  pub daemon_interval : Select
  pub saved_theme : Option Text
  pub prefers_light : Bool
  pub shown_theme : Text
  pub log_page : ℕ
  pub task_page : ℕ

-- `n * 1000`
abbrev pub thousand : ℤ → ℤ
thousand (pos n) = pos (n * 1000)
thousand (negsuc n) = negsuc (n * 1000 + 999)

unfoldable pub stop_auto_refresh : View → View
stop_auto_refresh v = record v { timer = none }

unfoldable pub start_auto_refresh : View → View
unfolding stop_auto_refresh
start_auto_refresh v = record (stop_auto_refresh v) { timer = some v.auto_refresh_ms }

abbrev pub restart : View → View
restart v = elim v.timer [ none ↦ v | some _ ↦ start_auto_refresh (stop_auto_refresh v) ]

-- `if (hasOpt) tpsEl.value = tps`
abbrev choose_offered : Select → Text → Select
choose_offered c v = if any (text_eq v) c.options then record c { value = v } else c

-- `Theme.apply`, where the settings name a theme
abbrev themed : Text → Text → Text
themed theme shown =
    if not (is_empty theme) && not (text_eq theme (codes "auto")) then theme else shown

-- The page's controls exist.
unfoldable pub apply_settings : View → View
apply_settings v =
    let s = v.settings in
    let v' =
      restart (record v { auto_refresh_ms = thousand (num_or s.auto_refresh_interval (pos 15)) }) in
    let task_page_size = num_or s.task_page_size (pos 20) in
    record v' {
      log_page_size = num_or s.log_page_size (pos 20);
      task_page_size = task_page_size;
      page_size = choose_offered v.page_size (show_int task_page_size);
      shown_theme = themed s.theme v.shown_theme;
      daemon_level = choose v.daemon_level (or_else s.daemon_log_level (codes "all"));
      daemon_lines = choose v.daemon_lines (show_int (num_or s.daemon_log_lines (pos 100)));
      daemon_interval = choose v.daemon_interval (show_int (num_or s.daemon_log_interval (pos 2)));
    }

-- `loadSettings`: none if settings.json cannot be read.
unfoldable pub load_settings : View → Option Stored → View
load_settings v raw =
    apply_settings
      (record v { settings = elim raw [ none ↦ settings_defaults | some r ↦ assign r ] })

-- `saveSettings`, once the file is written
unfoldable pub save_settings : View → Settings → View
save_settings v s = apply_settings (record v { settings = assign (stored s) })
