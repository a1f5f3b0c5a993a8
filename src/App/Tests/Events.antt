-- ===== src/App/Tests/Events.antt =====
-- The listeners of app.js and what they show, at concrete inputs.
use cockpit_cronplus.Common.{
  ℕ, ◌+◌, ◌≡◌, refl, true, false, none, some, List, [], ◌∷◌, map, join, split, pos, Text, codes,
  arith,
}
use cockpit_cronplus.Cron.Calendar.{make_date, second, minute, hour}
use cockpit_cronplus.Cron.ParseInt.{match_range, match_step, parse_int}
use cockpit_cronplus.Cron.Field.{match_field, match_single}
use cockpit_cronplus.Cron.Next.{Spec, match_cron, day_fails}
use cockpit_cronplus.Cron.Schedule.{spec, default_spec}
use cockpit_cronplus.Cron.Schedule.{estimate_interval}
use cockpit_cronplus.Cron.Schedule.Estimate.{IsFixed, estimate_interval_misses}
use cockpit_cronplus.Utils.{esc_html}
use cockpit_cronplus.App.LogView.Expand as Expand
use cockpit_cronplus.App.LogView.Expand.{
  Box, blank, toggle_entry, load_log_output, answer_output, toggles, Reaches-answer_output,
}
use cockpit_cronplus.App.Form.{Form, selected_user}
use cockpit_cronplus.App.Anchor.{read_fields}
use cockpit_cronplus.App.CronInputs.{
  CronInputs, cron_hour, cron_month, lower_fields, put, input_field, press_preset,
}
use cockpit_cronplus.App.CronInputs.Fill.{input_field-narrows, input_field-never}
use cockpit_cronplus.App.Tests.{filled}
use cockpit_cronplus.App.Users.{
  load_system_users, populate_user_selects, selected_user-populate_user_selects,
}
use cockpit_cronplus.App.DaemonLog.{dedup}
use cockpit_cronplus.App.DaemonLog.Parse.{load_daemon_log, answered}
use cockpit_cronplus.App.DaemonLog.Parse.Written.{written, unread, load_daemon_log-IsWritten}
use cockpit_cronplus.App.DaemonLog.Timer.{DaemonView, daemon, press_tab, here, next, clicks}
use cockpit_cronplus.App.DaemonLog.Timer.Invariant.{IsFollowing, Reaches-IsFollowing}
use cockpit_cronplus.App.Refresh.{
  Refresher, tick, press, settles, moves, run, IsSingle, run-IsSingle,
}
use cockpit_cronplus.App.Colors.{colorize_output}
use cockpit_cronplus.App.Colors.Faithful.{strip_tags, colorize_output-strip_tags}

abbrev fresh : CronInputs
fresh = record { fields = default_spec; prev = default_spec; active = none; reboot_shown = false }

abbrev nine : ℕ
nine = make_date 2026 (pos 4) 27 (pos 9) (pos 0) (pos 0)

input_field-narrows_example :
    match_cron nine (read_fields (put cron_hour (codes "9") fresh.fields)) ≡ true
unfolding match_cron match_field match_single match_range match_step parse_int input_field
    lower_fields second minute hour make_date day_fails
input_field-narrows_example = input_field-narrows cron_hour (codes "9") fresh nine refl

input_field-never_example :
    match_cron nine (input_field cron_month (codes "4") fresh).fields ≡ false
input_field-never_example = input_field-never (codes "4") fresh refl refl refl refl nine

abbrev midnight : Spec
midnight = spec (codes "0") (codes "0") (codes "0") (codes "*") (codes "*") (codes "*")

preset_tests :
    ((press_preset (codes "0 0 0 * * *") fresh).fields ≡ midnight)
    × ((press_preset (codes "@reboot") fresh).fields.min ≡ codes "@reboot")
    × ((press_preset (codes "0 0") fresh).fields.hour ≡ codes "undefined")
unfolding press_preset split
preset_tests = (refl, refl, refl)

abbrev daemon_lines : List Text
daemon_lines =
    codes "2026/04/23 09:30:40 Next: task [3] backup"
    ∷ codes "2026/04/23 09:31:40 Next: task [3] backup"
    ∷ []

load_daemon_log-IsWritten_example :
    (load_daemon_log (λ k. k) (answered (join (codes "\n") daemon_lines)) ≡ map unread daemon_lines)
    × (dedup [] (load_daemon_log (λ k. k) (answered (join (codes "\n") daemon_lines)))
        ≡ load_daemon_log (λ k. k) (answered (join (codes "\n") daemon_lines)))
load_daemon_log-IsWritten_example =
    load_daemon_log-IsWritten (λ k. k) daemon_lines
      (
        written b'2' b'0' b'2' b'6' (codes "04/23 09:30:40 Next: task [3] backup") refl refl refl,
        (
          written b'2' b'0' b'2' b'6' (codes "04/23 09:31:40 Next: task [3] backup") refl refl refl,
          tt,
        ),
      )

abbrev tasks_tab : DaemonView
tasks_tab = record {
  tab = codes "tasks";
  auto_refresh = true;
  interval = codes "5";
  default_interval = pos 2;
  lines = [];
  timer = none;
  running = [];
  issued = 0;
}

abbrev followed : DaemonView
followed = press_tab daemon tasks_tab

Reaches-IsFollowing_example : IsFollowing (press_tab (codes "logs") followed)
Reaches-IsFollowing_example =
    Reaches-IsFollowing
      (next (next (here {v = tasks_tab}) (clicks tasks_tab daemon))
        (clicks followed (codes "logs")))
      refl refl refl

abbrev idle : Refresher
idle = record {
  screen = record {
    task_modal = false;
    output_modal = false;
    cleanup_modal = false;
    settings_modal = false;
    tag = codes "BODY";
    expanded = false;
    tab = codes "tasks";
  };
  refreshing = false;
  interacting = false;
  timeout = none;
  in_flight = [];
  begun = 0;
}

run-IsSingle_example : IsSingle (run idle (tick ∷ press ∷ moves ∷ settles ∷ tick ∷ press ∷ []))
run-IsSingle_example =
    run-IsSingle (tick ∷ press ∷ moves ∷ settles ∷ tick ∷ press ∷ []) idle (refl, omega arith)

colorize_output-strip_tags_example :
    (html : Text) × (colorize_output (codes "exit 1 <b>\nok 'x'") ≡ some html)
    × (strip_tags false html ≡ esc_html (some (codes "exit 1 <b>\nok 'x'")))
colorize_output-strip_tags_example = colorize_output-strip_tags (codes "exit 1 <b>\nok 'x'")

-- The user of the form is known no more.
abbrev unlisted : Form
unlisted = record filled { user = codes "carol" }

selected_user-populate_user_selects_example :
    selected_user
      (populate_user_selects (load_system_users (some (codes "alice\nroot\nbob\n"))) unlisted)
    ≡ selected_user unlisted
selected_user-populate_user_selects_example =
    selected_user-populate_user_selects (some (codes "alice\nroot\nbob\n")) unlisted refl

abbrev at_nine : Spec
at_nine = spec (codes "0") (codes "0") (codes "9") (codes "*") (codes "*") (codes "*")

nine-IsFixed : IsFixed (codes "9")
unfolding match_field match_single match_range match_step parse_int
nine-IsFixed v w h g = ground arith

estimate_interval_misses_example : match_cron (nine + estimate_interval at_nine) at_nine ≡ false
unfolding match_cron match_field match_single match_range match_step parse_int second minute hour
    make_date day_fails
estimate_interval_misses_example =
    estimate_interval_misses at_nine nine refl refl refl nine-IsFixed refl

abbrev folded : Box
folded = record {
  run_id = codes "r1";
  task_id = codes "3";
  loaded = false;
  expanded = false;
  content = blank;
  copy_text = [];
  spawned = [];
  pending = 0;
}

abbrev unfolded : Box
unfolded = toggle_entry folded

Reaches-answer_output_example :
    ((toggle_entry (toggle_entry (answer_output (codes "ok") unfolded))).copy_text ≡ codes "ok")
    × ((toggle_entry (toggle_entry (answer_output (codes "ok") unfolded))).spawned
        ≡ unfolded.spawned)
unfolding toggle_entry load_log_output
Reaches-answer_output_example =
    Reaches-answer_output {b = folded} {c = unfolded} (codes "ok")
      (Expand.next (Expand.here {b = folded}) (toggles folded))
      (record { one = omega arith; guarded = refl }) refl
      (Expand.next (Expand.next Expand.here (toggles (answer_output (codes "ok") unfolded)))
        (toggles (toggle_entry (answer_output (codes "ok") unfolded))))
