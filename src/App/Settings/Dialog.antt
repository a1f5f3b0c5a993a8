-- ===== src/App/Settings/Dialog.antt =====
-- app.js, the settings dialog: `openSettingsModal`, `handleSaveSettings`, `handleResetSettings`.
use cockpit_cronplus.Common.{
  Bool, true, false, not, none, List, [], ◌∷◌, ◌++◌, if◌then◌else◌, pos, Text, codes, text_eq,
  or_else, any, filter,
}
use cockpit_cronplus.App.Types.{num_or, int_or}
use cockpit_cronplus.App.Form.{show_int, root}
use cockpit_cronplus.App.Settings.{Settings, settings_defaults, View, save_settings}
use cockpit_cronplus.App.Settings.Page.{theme_init, draw_logs}

-- The values of the dialog's inputs.
pub record SettingsForm : Type 0 where
  pub language : Text
  pub theme : Text
  pub default_user : Text
  pub default_timeout : Text
  pub default_retries : Text
  pub default_retry_interval : Text
  pub auto_refresh : Text
  pub log_page_size : Text
  pub log_max_bytes : Text
  pub log_backup_count : Text
  pub daemon_log_level : Text
  pub daemon_log_lines : Text
  pub daemon_log_interval : Text
  pub daemon_log_max_bytes : Text
  pub daemon_log_backup_count : Text

-- The values that the dialog's selects offer, that of the user apart.
pub record Offered : Type 0 where
  pub language : List Text
  pub theme : List Text
  pub log_max_bytes : List Text
  pub log_backup_count : List Text
  pub daemon_log_level : List Text
  pub daemon_log_lines : List Text
  pub daemon_log_interval : List Text
  pub daemon_log_max_bytes : List Text
  pub daemon_log_backup_count : List Text

-- `select.value = v`
abbrev pub chosen : List Text → Text → Text
chosen options v = if any (text_eq v) options then v else []

-- The options of the user select.
abbrev pub user_options : List Text → List Text
user_options users = root ∷ filter (λ u. not (text_eq u root)) users

-- `openSettingsModal`: the inputs, for the system's users and the language in effect.
unfoldable pub open_settings : Offered → List Text → Text → Settings → SettingsForm
open_settings o users lang s = record {
  language = chosen o.language (or_else s.language (or_else lang (codes "en")));
  theme = chosen o.theme (or_else s.theme (codes "auto"));
  default_user = chosen (user_options users) (or_else s.default_run_user root);
  default_timeout = show_int (num_or s.default_timeout (pos 0));
  default_retries = show_int (num_or s.default_max_retries (pos 0));
  default_retry_interval = show_int (num_or s.default_retry_interval (pos 60));
  auto_refresh = show_int (num_or s.auto_refresh_interval (pos 15));
  log_page_size = show_int (num_or s.log_page_size (pos 20));
  log_max_bytes = chosen o.log_max_bytes (show_int (num_or s.log_max_bytes (pos 10485760)));
  log_backup_count = chosen o.log_backup_count (show_int (num_or s.log_backup_count (pos 5)));
  daemon_log_level = chosen o.daemon_log_level (or_else s.daemon_log_level (codes "all"));
  daemon_log_lines = chosen o.daemon_log_lines (show_int (num_or s.daemon_log_lines (pos 100)));
  daemon_log_interval =
      chosen o.daemon_log_interval (show_int (num_or s.daemon_log_interval (pos 2)));
  daemon_log_max_bytes =
      chosen o.daemon_log_max_bytes (show_int (num_or s.daemon_log_max_bytes (pos 10485760)));
  daemon_log_backup_count =
      chosen o.daemon_log_backup_count (show_int (num_or s.daemon_log_backup_count (pos 3)));
}

-- The settings that `handleSaveSettings` reads from the inputs; the size of the task pages has no
-- input, and is that of the settings in effect.
unfoldable pub form_settings : Settings → SettingsForm → Settings
form_settings old f = record {
  language = f.language;
  theme = f.theme;
  default_run_user = f.default_user;
  default_timeout = int_or f.default_timeout (pos 0);
  default_max_retries = int_or f.default_retries (pos 0);
  default_retry_interval = int_or f.default_retry_interval (pos 60);
  auto_refresh_interval = int_or f.auto_refresh (pos 15);
  log_page_size = int_or f.log_page_size (pos 20);
  task_page_size = num_or old.task_page_size (pos 20);
  log_max_bytes = int_or f.log_max_bytes (pos 10485760);
  log_backup_count = int_or f.log_backup_count (pos 5);
  daemon_log_level = or_else f.daemon_log_level (codes "all");
  daemon_log_lines = int_or f.daemon_log_lines (pos 100);
  daemon_log_interval = int_or f.daemon_log_interval (pos 2);
  daemon_log_max_bytes = int_or f.daemon_log_max_bytes (pos 10485760);
  daemon_log_backup_count = int_or f.daemon_log_backup_count (pos 3);
}

-- What the handlers do besides: the file that they write, toasts, and the redrawing.
pub data Effect : Type 0 where
  write : Settings → Effect
  toast switch_lang : Text → Effect
  close_modal show_modal render_logs render_tasks : Effect

-- The theme is saved nowhere but in the settings; "auto" forgets the one in localStorage.
abbrev pub set_theme : Text → View → View
set_theme theme v =
    if text_eq theme (codes "auto")
    then theme_init (record v { saved_theme = none })
    else record v { shown_theme = theme }

-- `handleSaveSettings`: `written` says that the file could be written, and `lang` is the language in
-- effect. The drawing of the logs at the end sets their page size anew.
unfoldable pub handle_save_settings : Bool → Text → View → SettingsForm → View × List Effect
handle_save_settings false lang v f =
    (v, write (form_settings v.settings f) ∷ toast (codes "settings.saveFailed") ∷ [])
handle_save_settings true lang v f =
    let s = form_settings v.settings f in
    let v' = set_theme s.theme (save_settings v s) in
    let switch = if text_eq s.language lang then [] else switch_lang s.language ∷ [] in
    (
      draw_logs (record v' { log_page = 1; task_page = 1 }),
      (write s ∷ close_modal ∷ toast (codes "settings.saved") ∷ switch)
          ++ render_logs ∷ render_tasks ∷ [],
    )

-- `handleResetSettings`, once it is confirmed.
unfoldable pub handle_reset_settings : Bool → View → View × List Effect
handle_reset_settings false v =
    (v, write settings_defaults ∷ toast (codes "settings.saveFailed") ∷ [])
handle_reset_settings true v = (
  save_settings v settings_defaults,
  write settings_defaults ∷ show_modal ∷ toast (codes "settings.resetDone") ∷ [],
)
