-- ===== src/App/Settings/Page.antt =====
-- app.js, the page sizes that are in effect, `init`, and `init` of theme.js. The page that a list is
-- turned to is in App/LogView and App/TaskView.
use cockpit_cronplus.Common.{Option, pos, Text}
use cockpit_cronplus.App.Types.{int_or}
use cockpit_cronplus.App.Settings.{View, Stored, load_settings, start_auto_refresh}
use cockpit_cronplus.Theme.{effective, shade_key}

-- `renderLogs`: each drawing of the log list takes its page size from the select.
unfoldable pub draw_logs : View → View
draw_logs v = record v { log_page_size = int_or v.log_size v.log_page_size }

-- The user picks an option of `#logPageSize`.
unfoldable pub pick_log_size : Text → View → View
unfolding draw_logs
pick_log_size value v = draw_logs (record v { log_size = value; log_page = 1 })

-- The user picks an option of `#taskPageSize`.
unfoldable pub pick_task_size : Text → View → View
pick_task_size value v = record v {
  page_size = record v.page_size { value = value };
  task_page_size = int_or value (pos 20);
  task_page = 1;
}

-- `Theme.init`
unfoldable pub theme_init : View → View
theme_init v = record v { shown_theme = shade_key (effective v.saved_theme v.prefers_light) }

-- What `init` does with the settings: it loads them, shows the theme, draws the lists and starts the
-- refresh timer.
unfoldable pub init : View → Option Stored → View
init v raw = start_auto_refresh (draw_logs (theme_init (load_settings v raw)))
