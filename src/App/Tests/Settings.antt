-- ===== src/App/Tests/Settings.antt =====
-- The settings at concrete inputs.
use cockpit_cronplus.Common.{arith, ◌≡◌, refl, pos, true, none, some, [], ◌∷◌, codes, show}
use cockpit_cronplus.Cron.ParseInt.{parse_int}
use cockpit_cronplus.App.Types.{int_or}
use cockpit_cronplus.App.Form.{show_int}
use cockpit_cronplus.App.Settings.{Settings, settings_defaults, Select, View, stored}
use cockpit_cronplus.App.Settings.Page.{init, pick_log_size}
use cockpit_cronplus.App.Settings.Dialog.{
  SettingsForm, Offered, open_settings, form_settings, handle_save_settings,
}
use cockpit_cronplus.App.Settings.Sync.{InSync, started, saved, log_picked, Reachable-InSync}
use cockpit_cronplus.App.Settings.Shade.{init-handle_save_settings}
use cockpit_cronplus.App.Settings.RoundTrip.{CanShow, form_settings-open_settings}
use cockpit_cronplus.Theme.{effective, shade_key}

-- The options of the page's markup.
abbrev offered : Offered
offered = record {
  language = codes "zh-CN" ∷ codes "en" ∷ codes "ja" ∷ [];
  theme = codes "auto" ∷ codes "dark" ∷ codes "light" ∷ [];
  log_max_bytes = codes "1048576" ∷ codes "10485760" ∷ [];
  log_backup_count = codes "1" ∷ codes "3" ∷ codes "5" ∷ [];
  daemon_log_level = codes "all" ∷ codes "DEBUG" ∷ codes "INFO" ∷ [];
  daemon_log_lines = codes "50" ∷ codes "100" ∷ [];
  daemon_log_interval = codes "1" ∷ codes "2" ∷ [];
  daemon_log_max_bytes = codes "1048576" ∷ codes "10485760" ∷ [];
  daemon_log_backup_count = codes "1" ∷ codes "3" ∷ [];
}

abbrev dark_settings : Settings
dark_settings = record settings_defaults {
  language = codes "en";
  theme = codes "dark";
  log_page_size = pos 50;
}

dark_settings-CanShow : CanShow offered [] dark_settings
unfolding show show_int
dark_settings-CanShow = record {
  language = (refl, refl);
  theme = (refl, refl);
  user = (refl, refl);
  retry_interval = refl;
  auto_refresh = refl;
  log_page_size = refl;
  task_page_size = refl;
  log_max_bytes = (refl, refl);
  log_backup_count = (refl, refl);
  level = (refl, refl);
  lines = (refl, refl);
  interval = (refl, refl);
  max_bytes = (refl, refl);
  backup_count = (refl, refl);
}

form_settings-open_settings_example :
    form_settings dark_settings (open_settings offered [] (codes "en") dark_settings)
    ≡ dark_settings
form_settings-open_settings_example =
    form_settings-open_settings offered [] (codes "en") dark_settings dark_settings-CanShow

abbrev two_lines : Select
two_lines = record { options = codes "50" ∷ codes "100" ∷ []; value = codes "100" }

abbrev fresh_view : View
fresh_view = record {
  settings = settings_defaults;
  auto_refresh_ms = pos 15000;
  timer = none;
  log_page_size = pos 20;
  task_page_size = pos 20;
  page_size = two_lines;
  log_size = codes "20";
  daemon_level = two_lines;
  daemon_lines = two_lines;
  daemon_interval = two_lines;
  saved_theme = none;
  prefers_light = true;
  shown_theme = codes "light";
  log_page = 1;
  task_page = 1;
}

abbrev dark_form : SettingsForm
dark_form = open_settings offered [] (codes "en") dark_settings

-- The log list is set to 10 entries, and the settings are then saved with 50.
abbrev small_view : View
small_view = pick_log_size (codes "10") (init fresh_view none)

abbrev saved_view : View
saved_view = (handle_save_settings true (codes "en") small_view dark_form).0

Reachable-InSync_example : InSync saved_view
unfolding int_or parse_int
Reachable-InSync_example = Reachable-InSync saved_view (
    saved small_view true (codes "en") dark_form (
      log_picked (init fresh_view none) (codes "10") (ground arith)
        (started fresh_view none (ground arith))))

-- The dark theme is saved, and the next start shows the light one.
init-handle_save_settings_example :
    (init
      (handle_save_settings true (codes "en") fresh_view dark_form).0
      (some (stored dark_settings))).shown_theme
    ≡ shade_key (effective none true)
unfolding open_settings
init-handle_save_settings_example =
    init-handle_save_settings fresh_view (codes "en") dark_form (some (stored dark_settings)) refl
