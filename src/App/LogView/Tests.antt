-- ===== src/App/LogView/Tests.antt =====
-- The log list at concrete inputs.
use cockpit_cronplus.Common.{
  List, [], ◌∷◌, Text, codes, text_lt, text_lt_asym, Bool, true, false, ◌≡◌,
}
use cockpit_cronplus.App.Types.{LogEntry}
use cockpit_cronplus.App.LogView.{render_logs, task_filters}
use cockpit_cronplus.App.LogView.Order.{IsNewestFirst, render_logs-IsNewestFirst}

abbrev newest : Text → Text → Bool
newest s t = text_lt t s

abbrev entry_at : Text → LogEntry
entry_at time = record {
  task_id = 3;
  title = codes "backup";
  command = codes "tar";
  run_user = [];
  trigger = codes "manual";
  status = codes "success";
  created_at = time;
}

abbrev three_entries : List LogEntry
three_entries =
    entry_at (codes "2026-04-24 03:00:00")
    ∷ entry_at (codes "2026-04-26 03:00:00")
    ∷ entry_at (codes "2026-04-25 03:00:00")
    ∷ []

newest_asym : (a b : Text) → newest a b ≡ true → newest b a ≡ false
newest_asym a b h = text_lt_asym b a h

render_logs-IsNewestFirst_example :
    IsNewestFirst newest (render_logs newest (task_filters 3) 1 2 three_entries).items
render_logs-IsNewestFirst_example =
    render_logs-IsNewestFirst newest newest_asym (task_filters 3) 1 2 three_entries
