-- ===== src/App/Tests.antt =====
-- The handlers of app.js at concrete inputs.
mod Dialogs
mod Events
mod Settings
mod Config
use cockpit_cronplus.Common.{
  ℕ, zero, suc, ◌+◌, ◌≤◌, ◌<◌, ◌≡◌, ◌≢◌, refl, inl, inr, Bool, true, false, Option, none, some,
  List, [], ◌∷◌, ◌++◌, not, ◌||◌, ◌&&◌, ◌==◌, ltb, ℤ, pos, negsuc, Text, codes, show, filter,
  length, any, All, arith, text_lt, map,
}
use cockpit_cronplus.Cron.Next.{Spec}
use cockpit_cronplus.App.Types.{Task, LogEntry}
use cockpit_cronplus.App.Form.{Form}
use cockpit_cronplus.App.Paging.{
  page_count, page_items, clamp_page, pagination, pages_from, IsWithin, pages-append,
  clamp_page_bounds, pagination-IsWithin,
}
use cockpit_cronplus.App.Store.{
  Page, Call, command, Item, toggle_task, delete_target, delete_resolve, delete_splice, delete_task,
  save_task, import_config,
}
use cockpit_cronplus.App.Store.Ids.{
  IsValid, IsFree, LeavesValid, toggle_task-IsValid, save_task-IsValid, import_config-IsValid,
  delete_splice-IsValid,
}
use cockpit_cronplus.App.Store.Steps.{Reaches, here, imports, deletes, Reaches-IsValid}
use cockpit_cronplus.App.TaskView.{render_tasks, is_found, card}
use cockpit_cronplus.App.Store.Delete.{
  IsForgotten, without, delete_task-tasks, delete_task-IsForgotten, delete_splice_stale,
}
use cockpit_cronplus.App.LogView.{
  Filters, passes, render_logs, has_option, task_options, task_filters,
}
use cockpit_cronplus.App.DaemonLog.{Line, dedup, times_next, first_next, is_other, dedup-first_next}
use cockpit_cronplus.App.LogView.Shown.{render_logs_items, task_options_ids}

abbrev pub backup : Task
backup = record {
  id = 3;
  title = codes "backup";
  command = codes "tar cf /tmp/a.tar /etc";
  schedule = codes "0 0 3 * * *";
  enabled = none;
  comment = [];
  run_user = codes "root";
  timeout = pos 0;
  max_retries = pos 0;
  retry_interval = pos 60;
  max_concurrent = pos 1;
  kill_previous = false;
  max_runs = pos 0;
  run_count = pos 0;
  run_seq = pos 0;
  tags = [];
  log_retention_days = pos 0;
  log_max_entries = pos 0;
  reboot_delay = pos 0;
  cron_base_time = [];
  env_vars = [];
  cwd = [];
}

abbrev pub report : Task
report = record backup { id = 7; title = codes "report"; command = codes "report.sh" }

abbrev entry : LogEntry
entry = record {
  task_id = 3;
  title = codes "backup";
  command = codes "tar";
  run_user = [];
  trigger = codes "manual";
  status = codes "success";
  created_at = codes "2026-04-24 03:00:00";
}

abbrev pub two_tasks : Page
two_tasks = record {
  tasks = backup ∷ report ∷ [];
  logs = entry ∷ record entry { task_id = 7 } ∷ [];
  running = 7 ∷ [];
  editing = none;
  task_page = 1;
  task_page_size = 10;
  log_page = 1;
  log_filter = 3;
}

-- The same page after another session moved the second task to the front and added one.
abbrev reloaded : Page
reloaded = record two_tasks { tasks = report ∷ record backup { id = 9 } ∷ backup ∷ [] }

abbrev pub filled : Form
filled = record {
  title = codes "new";
  command = codes "date";
  comment = [];
  enabled = true;
  user = codes "root";
  custom_user = [];
  custom_shown = false;
  timeout = codes "10";
  max_retries = codes "x";
  retry_interval = [];
  max_concurrent = codes "1";
  kill_previous = true;
  max_runs = [];
  run_count = [];
  tags = [];
  log_days = [];
  log_max = [];
  reboot_delay = [];
  cwd = [];
  cron_base_time = [];
  env_vars = codes "A=1";
  cron = record {
    sec = codes "0";
    min = codes "*/5";
    hour = codes "*";
    day = codes "*";
    month = codes "*";
    dow = codes "*";
  };
  reboot_shown = false;
}

pub two_tasks-IsValid : IsValid two_tasks.tasks
two_tasks-IsValid = record { positive = ground arith; unique = ground arith }

abbrev imported : List Item
imported =
    record {
      task = record backup { id = 7 };
      second = [];
      minute = codes "5";
      hour = [];
      day = [];
      month = [];
      dow = [];
    }
    ∷ []

delete_task-tasks_example : (delete_task two_tasks report 0).0.tasks ≡ without 7 two_tasks.tasks
delete_task-tasks_example =
    delete_task-tasks two_tasks report 0 (omega arith) (two_tasks-IsValid.unique)

delete_splice_stale_example :
    IsFree 9 (delete_splice reloaded 1).0.tasks
    × (any (λ v. v.id == 7) (delete_splice reloaded 1).0.tasks
        ≡ any (λ v. v.id == 7) reloaded.tasks)
unfolding delete_resolve delete_target show
delete_splice_stale_example =
    delete_splice_stale two_tasks reloaded report 0 1
      {stop = command (codes "cronplus" ∷ codes "stop" ∷ codes "7" ∷ []) ∷ []}
      {t = record backup { id = 9 }} refl (ground arith) refl (omega arith)

abbrev five : List ℕ
five = 1 ∷ 2 ∷ 3 ∷ 4 ∷ 5 ∷ []

abbrev later : Text → Text → Bool
later s t = text_lt t s

abbrev next_line : Text → Line
next_line time = record {
  ts = time;
  name = codes "cronplus.scheduler";
  level = codes "INFO";
  msg = codes "Next: task [3] at " ++ time;
}

abbrev daemon_lines : List Line
daemon_lines =
    next_line (codes "09:30")
    ∷ record (next_line (codes "09:30")) { msg = codes "started" }
    ∷ next_line (codes "09:31")
    ∷ []

dedup-first_next_example :
    (times_next (codes "3") (dedup [] daemon_lines) ≤ 1)
    × (first_next (codes "3") (dedup [] daemon_lines) ≡ first_next (codes "3") daemon_lines)
    × (filter is_other (dedup [] daemon_lines) ≡ filter is_other daemon_lines)
dedup-first_next_example = dedup-first_next (codes "3") daemon_lines

Reaches-IsValid_example :
    IsValid (delete_splice (import_config two_tasks (some imported)).0 0).0.tasks
Reaches-IsValid_example =
    Reaches-IsValid two_tasks (delete_splice (import_config two_tasks (some imported)).0 0).0
      two_tasks-IsValid
      (deletes (import_config two_tasks (some imported)).0 0
        (imports two_tasks (some imported) here))

found_test :
    map (λ c. c.index) (render_tasks (λ s. s) (λ s. s) 100 0 (codes "report") two_tasks).cards
    ≡ 1 ∷ []
unfolding render_tasks is_found page_items page_count clamp_page card
found_test = refl
