-- ===== src/App/Form.antt =====
-- app.js, the task dialog: `editTask`, `addNewTask`, `saveTask`, `getSelectedUser`,
-- `populateUserSelects`. The dialog's inputs are a record of their values. Focus, placeholders, the
-- number of rows and the highlighted preset are left out.
pub mod Inputs
pub mod EnvVars
pub mod Schedules
pub mod RoundTrip
use cockpit_cronplus.Common.{
  ℕ, zero, suc, Bool, true, false, not, ◌&&◌, ◌||◌, none, some, List, [], ◌∷◌, ◌++◌, map,
  if◌then◌else◌, ◌==◌, ℤ, pos, negsuc, Text, codes, text_eq, is_empty, or_else, trim, split, join,
  starts_with, show, any, take, drop, find_index,
}
use cockpit_cronplus.Cron.Next.{Spec}
use cockpit_cronplus.Cron.Schedule.{spec, parse_schedule, print_spec}
use cockpit_cronplus.App.Types.{Task, is_enabled, num_or, int_or}
use cockpit_cronplus.App.Values.{line_value, area_value}

-- `String(n)`
unfoldable pub show_int : ℤ → Text
show_int (pos n) = show n
show_int (negsuc n) = b'-' ∷ show (suc n)

-- `s.replace(c, r)`: the first occurrence of one character.
abbrev pub replace_first : ℕ → ℕ → Text → Text
replace_first c r [] = []
replace_first c r (d ∷ s) = let rest = d ∷ replace_first c r s in if d == c then r ∷ s else rest

-- The values of the dialog's inputs, as the browser keeps them: that of a text input has no line
-- feed and no carriage return, and that of a text area no carriage return. `cron` are the six schedule inputs, `reboot_shown` says that
-- the reboot delay is shown in place of them, and `custom_shown` that the user's name is typed.
pub record Form : Type 0 where
  pub title : Text
  pub command : Text
  pub comment : Text
  pub enabled : Bool
  pub user : Text
  pub custom_user : Text
  pub custom_shown : Bool
  pub timeout : Text
  pub max_retries : Text
  pub retry_interval : Text
  pub max_concurrent : Text
  pub kill_previous : Bool
  pub max_runs : Text
  pub run_count : Text
  pub tags : Text
  pub log_days : Text
  pub log_max : Text
  pub reboot_delay : Text
  pub cwd : Text
  pub cron_base_time : Text
  pub env_vars : Text
  pub cron : Spec
  pub reboot_shown : Bool

abbrev pub custom : Text
custom = codes "__custom__"

abbrev pub root : Text
root = codes "root"

-- Assigning to a select keeps a value that has an option, and resets it to '' else.
abbrev pub select_value : List Text → Text → Text
select_value users v = if text_eq v custom || any (text_eq v) users then v else []

-- `getSelectedUser`
unfoldable pub selected_user : Form → Text
selected_user f =
    if text_eq f.user custom then or_else (trim f.custom_user) root else or_else f.user root

-- `k + '=' + envVars[k]`, one line for each variable
abbrev pub env_line : Text × Text → Text
env_line (k, v) = k ++ b'=' ∷ v

abbrev pub env_text : List (Text × Text) → Text
env_text vars = join (codes "\n") (map env_line vars)

-- `n || d` shown in an input
abbrev field_text : ℤ → ℤ → Text
field_text n d = show_int (num_or n d)

abbrev reboot_cron : Text → Spec
reboot_cron schedule = spec (codes "0") (line_value schedule) [] [] [] []

-- `editTask`: the values of the inputs. `old` are those that the dialog held before: the custom
-- name stays where the task's user is known. The words of a schedule hold no white space, so that
-- their inputs keep them.
unfoldable pub edit_form : List Text → Form → Task → Form
edit_form users old t =
    let unknown = not (is_empty t.run_user) && not (any (text_eq t.run_user) users) in
    let reboot = starts_with (codes "@reboot") t.schedule in
    record {
      title = line_value t.title;
      command = area_value t.command;
      comment = line_value t.comment;
      enabled = is_enabled t;
      user = if unknown then custom else select_value users (or_else t.run_user root);
      custom_user = if unknown then line_value t.run_user else old.custom_user;
      custom_shown = unknown;
      timeout = field_text t.timeout (pos 0);
      max_retries = field_text t.max_retries (pos 0);
      retry_interval = field_text t.retry_interval (pos 60);
      max_concurrent = field_text t.max_concurrent (pos 1);
      kill_previous = t.kill_previous;
      max_runs = field_text t.max_runs (pos 0);
      run_count = show_int (num_or t.run_seq (num_or t.run_count (pos 0)));
      tags = line_value t.tags;
      log_days = field_text t.log_retention_days (pos 0);
      log_max = field_text t.log_max_entries (pos 0);
      reboot_delay = field_text t.reboot_delay (pos 0);
      cwd = line_value t.cwd;
      cron_base_time = take 19 (replace_first b' ' b'T' t.cron_base_time);
      env_vars = area_value (env_text t.env_vars);
      cron = if reboot then reboot_cron t.schedule else parse_schedule t.schedule;
      reboot_shown = reboot;
    }

-- What `addNewTask` reads of the settings.
pub record Defaults : Type 0 where
  pub run_user : Text
  pub timeout : ℤ
  pub max_retries : ℤ
  pub retry_interval : ℤ

abbrev pub default_env : Text
default_env = codes "PATH=/usr/local/sbin:/usr/local/bin:/usr/sbin:/usr/bin:/sbin:/bin"

-- `addNewTask`; it leaves `#inputCwd` as it was.
unfoldable pub new_form : List Text → Defaults → Form → Form
new_form users d old = record {
  title = [];
  command = [];
  comment = [];
  enabled = true;
  user = select_value users (or_else d.run_user root);
  custom_user = [];
  custom_shown = false;
  timeout = field_text d.timeout (pos 0);
  max_retries = field_text d.max_retries (pos 0);
  retry_interval = field_text d.retry_interval (pos 60);
  max_concurrent = codes "1";
  kill_previous = false;
  max_runs = codes "0";
  run_count = codes "0";
  tags = [];
  log_days = codes "0";
  log_max = codes "0";
  reboot_delay = codes "0";
  cwd = old.cwd;
  cron_base_time = [];
  env_vars = default_env;
  cron = spec (codes "0") (codes "*") (codes "*") (codes "*") (codes "*") (codes "*");
  reboot_shown = false;
}

-- `envVars[k] = v` on the object's entries
abbrev pub set_var : Text → Text → List (Text × Text) → List (Text × Text)
set_var k v [] = (k, v) ∷ []
set_var k v ((j, w) ∷ vars) =
    let rest = (j, w) ∷ set_var k v vars in if text_eq j k then (k, v) ∷ vars else rest

-- One round over the lines: a blank line, a comment and a line with no name are skipped.
unfoldable pub add_env_line : Text → List (Text × Text) → List (Text × Text)
add_env_line raw vars =
    let line = trim raw in
    if is_empty line || starts_with (codes "#") line
    then vars
    else elim (find_index (λ c. c == b'=') line) [
      | none ↦ vars
      | some zero ↦ vars
      | some (suc i) ↦ set_var (take (suc i) line) (drop (suc (suc i)) line) vars
    ]

abbrev add_env_lines : List Text → List (Text × Text) → List (Text × Text)
add_env_lines [] vars = vars
add_env_lines (l ∷ ls) vars = add_env_lines ls (add_env_line l vars)

unfoldable pub read_env : Text → List (Text × Text)
read_env s = add_env_lines (split 10 s) []

-- `schedule`, from the trimmed inputs
unfoldable pub form_schedule : Spec → Text
form_schedule c =
    let min = or_else (trim c.min) (codes "*") in
    if starts_with (codes "@") min
    then min
    else print_spec (
        spec (or_else (trim c.sec) (codes "0")) min (or_else (trim c.hour) (codes "*"))
          (or_else (trim c.day) (codes "*")) (or_else (trim c.month) (codes "*"))
          (or_else (trim c.dow) (codes "*")))

-- `data` of `saveTask`, with its `id`.
unfoldable pub form_task : Form → ℕ → Task
form_task f id = record {
  id = id;
  title = trim f.title;
  command = trim f.command;
  schedule = form_schedule f.cron;
  enabled = some f.enabled;
  comment = trim f.comment;
  run_user = selected_user f;
  timeout = int_or f.timeout (pos 0);
  max_retries = int_or f.max_retries (pos 0);
  retry_interval = int_or f.retry_interval (pos 60);
  max_concurrent = int_or f.max_concurrent (pos 1);
  kill_previous = f.kill_previous;
  max_runs = int_or f.max_runs (pos 0);
  run_count = int_or f.run_count (pos 0);
  run_seq = int_or f.run_count (pos 0);
  tags = trim f.tags;
  log_retention_days = int_or f.log_days (pos 0);
  log_max_entries = int_or f.log_max (pos 0);
  reboot_delay = int_or f.reboot_delay (pos 0);
  cron_base_time = replace_first b'T' b' ' f.cron_base_time;
  env_vars = read_env f.env_vars;
  cwd = trim f.cwd;
}
