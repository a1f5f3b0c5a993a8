-- ===== src/App/Store.antt =====
-- app.js, the task list: `toggleTask`, `deleteTask`, `saveTask`, `importConfig`, `loadRunning`,
-- `getLastRunInfo`, `showTaskLogs`. A handler gives the new state and the calls it makes, in their
-- order; an await is the end of one handler and the beginning of the next.
pub mod Ids
pub mod Steps
pub mod Delete
pub mod Loading
use cockpit_cronplus.Common.{
  ℕ, zero, suc, ◌+◌, ◌-◌, ◌*◌, ◌/◌, ◌≤◌, ◌<◌, ◌≡◌, refl, Bool, true, false, not, ◌&&◌, ◌||◌, Option,
  none, some, List, [], ◌∷◌, ◌++◌, map, max, if◌then◌else◌, ◌==◌, ltb, ℤ, pos, negsuc, Text, codes,
  text_eq, text_lt, is_empty, or_else, trim, show, any, length, set, get_elem?, find_index, filter,
  remove_at,
}
use cockpit_cronplus.App.Types.{Task, LogEntry, is_enabled, num_or}
use cockpit_cronplus.App.Form.{Form, form_task}
use cockpit_cronplus.App.Paging.{page_count}

-- The state that these handlers share. `running` holds the ids of the tasks that run, `editing` the
-- index that the dialog edits, and `log_filter` the id of the log view's task, 0 for none.
pub record Page : Type 0 where
  pub tasks : List Task
  pub logs : List LogEntry
  pub running : List ℕ
  pub editing : Option ℕ
  pub task_page : ℕ
  pub task_page_size : ℕ
  pub log_page : ℕ
  pub log_filter : ℕ

-- `save` is `saveTasks()`; `command` a command line that is spawned; `message` a toast.
pub data Call : Type 0 where
  save : List Task → Call
  command : List Text → Call
  message : Text → Call
  render_tasks render_logs hide_modal : Call

-- `toggleTask(index)`; none is the TypeError for an index with no task.
abbrev toggled : Task → Task
toggled t =
    if is_enabled t
    then record t { enabled = some false }
    else record t { enabled = some true; run_seq = pos 0; run_count = pos 0 }

unfoldable pub toggle_task : Page → ℕ → Option (Page × List Call)
toggle_task p i = elim (get_elem? p.tasks i) [
  | none ↦ none
  | some t ↦
      let tasks = set p.tasks i (toggled t) in
      some (record p { tasks = tasks }, save tasks ∷ render_tasks ∷ [])
]

-- The task that a confirmed deletion takes: found by its id, or, for a task with no id, at the
-- index of the click.
unfoldable pub delete_target : List Task → Task → ℕ → Option ℕ
delete_target tasks clicked index =
    if clicked.id == 0 then some index else find_index (λ t. t.id == clicked.id) tasks

abbrev log_of : ℕ → LogEntry → Bool
log_of id l = l.task_id == id

-- `deleteTask` from the confirmation to its next await: the index that is deleted, and the command
-- that stops a running instance. `clicked` is the task that the dialog was about.
unfoldable pub delete_resolve : Page → Task → ℕ → Option (ℕ × List Call)
delete_resolve p clicked index = elim (delete_target p.tasks clicked index) [
  | none ↦ none
  | some i ↦
      let stop = command (codes "cronplus" ∷ codes "stop" ∷ show clicked.id ∷ []) ∷ [] in
      let is_running = not (clicked.id == 0) && any (λ r. r == clicked.id) p.running in
      some (i, if is_running then stop else [])
]

-- `tasks.splice(index, 1)` and `saveTasks()`, once the stop command has returned.
unfoldable pub delete_splice : Page → ℕ → Page × List Call
delete_splice p i = let tasks = remove_at p.tasks i in (record p { tasks = tasks }, save tasks ∷ [])

-- What follows when the list was saved.
unfoldable pub delete_forget : Page → ℕ → Page × List Call
delete_forget p id =
    let render = render_tasks ∷ render_logs ∷ [] in
    let forgotten = record p {
      logs = filter (λ l. not (log_of id l)) p.logs;
      running = filter (λ r. not (r == id)) p.running;
      log_filter = if p.log_filter == id then 0 else p.log_filter;
    } in
    if id == 0
    then (p, render)
    else (forgotten, command (codes "cronplus" ∷ codes "clear-logs" ∷ show id ∷ []) ∷ render)

-- The whole of a confirmed `deleteTask` if nothing else happens at its awaits.
unfoldable pub delete_task : Page → Task → ℕ → Page × List Call
delete_task p clicked index = elim (delete_resolve p clicked index) [
  | none ↦ (p, [])
  | some (i, stop) ↦
      let (p', saving) = delete_splice p i in
      let (p'', rest) = delete_forget p' clicked.id in (p'', stop ++ saving ++ rest)
]

-- `tasks.reduce((m, t) => Math.max(m, t.id || 0), 0)`
abbrev pub max_id_from : ℕ → List Task → ℕ
max_id_from m [] = m
max_id_from m (t ∷ ts) = max_id_from (max m t.id) ts

abbrev pub max_id : List Task → ℕ
max_id = max_id_from 0

-- `saveTask`; none is the TypeError where the edited index has no task.
unfoldable pub save_task : Page → Form → Option (Page × List Call)
save_task p f =
    let tail = render_tasks ∷ hide_modal ∷ [] in
    let update : Option (Page × List Call) = elim p.editing [
      | none ↦
          let tasks = p.tasks ++ form_task f (max_id p.tasks + 1) ∷ [] in
          some (
            record p { tasks = tasks; task_page = page_count (length tasks) p.task_page_size },
            save tasks ∷ tail ++ message (codes "task.added") ∷ [],
          )
      | some i ↦ elim (get_elem? p.tasks i) [
        | none ↦ none
        | some old ↦
            let tasks = set p.tasks i (form_task f old.id) in
            some
              (record p { tasks = tasks }, save tasks ∷ tail ++ message (codes "task.updated") ∷ [])
      ]
    ] in
    if is_empty (trim f.command) then some (p, message (codes "task.enterCommand") ∷ []) else update

-- An item of an imported file: a task, and the fields of an older format.
pub record Item : Type 0 where
  pub task : Task
  pub second : Text
  pub minute : Text
  pub hour : Text
  pub day : Text
  pub month : Text
  pub dow : Text

-- The schedule of an imported item.
unfoldable pub item_schedule : Item → Text
item_schedule item =
    let star = codes "*" in
    let gap = codes " " in
    let old_format =
      or_else item.second (codes "0")
      ++ gap
      ++ or_else item.minute star
      ++ gap
      ++ or_else item.hour star
      ++ gap
      ++ or_else item.day star
      ++ gap
      ++ or_else item.month star
      ++ gap
      ++ or_else item.dow star in
    let schedule =
      if is_empty item.task.schedule && not (is_empty item.minute && is_empty item.hour)
      then old_format
      else item.task.schedule in
    or_else schedule (codes "0 * * * * *")

unfoldable pub import_item : ℕ → Item → Task
import_item id item = record (item.task) {
  id = id;
  enabled = some (is_enabled item.task);
  run_user = or_else item.task.run_user (codes "root");
  retry_interval = num_or item.task.retry_interval (pos 60);
  max_concurrent = num_or item.task.max_concurrent (pos 1);
  schedule = item_schedule item;
}

-- `data.tasks.forEach`: an item with no command is passed over.
abbrev pub import_items : ℕ → List Item → List Task
import_items last [] = []
import_items last (item ∷ items) =
    let taken = import_item (suc last) item ∷ import_items (suc last) items in
    let passed = import_items last items in if is_empty item.task.command then passed else taken

-- `importConfig` of a file whose `tasks` is an array; none is a file that is not.
unfoldable pub import_config : Page → Option (List Item) → Page × List Call
import_config p none = (p, message (codes "toast.invalidFile") ∷ [])
import_config p (some items) =
    let tasks = p.tasks ++ import_items (max_id p.tasks) items in
    (record p { tasks = tasks }, save tasks ∷ render_tasks ∷ message (codes "toast.imported") ∷ [])

-- `loadRunning`: the tasks that `cronplus ps` lists; none if the call or its JSON fails.
unfoldable pub load_running : Page → Option (List ℕ) → Page
load_running p none = record p { running = [] }
load_running p (some ids) = record p { running = filter (λ id. not (id == 0)) ids }

-- The loop of `getLastRunInfo`, with the best entry so far; none is `null`.
abbrev later_of : Option LogEntry → LogEntry → Option LogEntry
later_of none l = some l
later_of (some best) l =
    if is_empty best.created_at || text_lt best.created_at l.created_at then some l else some best

abbrev pub last_run_from : ℕ → Option LogEntry → List LogEntry → Option LogEntry
last_run_from id best [] = best
last_run_from id best (l ∷ ls) =
    last_run_from id (if l.task_id == id then later_of best l else best) ls

-- `getLastRunInfo`: the entry whose time and status are shown.
unfoldable pub last_run : ℕ → List LogEntry → Option LogEntry
last_run id logs = last_run_from id none logs

-- `loadTaskLogs` with the entries that the command printed, and `showTaskLogs` up to it; the other
-- filters of the log view are reset there too.
unfoldable pub load_task_logs : Page → ℕ → Option (List LogEntry) → Page
load_task_logs p id none = p
load_task_logs p id (some entries) = record p {
  logs = filter (λ l. not (log_of id l)) p.logs ++ entries;
}

unfoldable pub show_task_logs : Page → ℕ → Page
show_task_logs p i = elim (get_elem? p.tasks i) [
  | none ↦ p
  | some t ↦ record p { log_page = 1; log_filter = t.id }
]
