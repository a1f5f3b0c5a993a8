-- ===== src/App/TaskView.antt =====
-- app.js, the task list as `renderTasks` shows it: the search, the page, and what a card is made of.
-- `toLowerCase` is the parameter `lower`, `I18n.t` is `t`, and `new Date()` is `now`.
pub mod Cards
pub mod Params
use cockpit_cronplus.Common.{
  ℕ, suc, Bool, true, false, not, ◌&&◌, ◌||◌, starts_with, Option, none, some, List, [], ◌∷◌, ◌++◌,
  if◌then◌else◌, ◌==◌, ltb, Text, codes, is_empty, includes, has_char, length, filter, any, take,
  split, map, get_elem?,
}
use cockpit_cronplus.Cron.Next.{get_next_run_time}
use cockpit_cronplus.Cron.Schedule.{parse_schedule}
use cockpit_cronplus.Time.{format_full_time}
use cockpit_cronplus.App.Types.{Task, LogEntry, is_enabled}
use cockpit_cronplus.App.Paging.{page_count, clamp_page, page_items}
use cockpit_cronplus.App.Store.{Page, last_run}

module _ (lower : Text → Text) where
  -- The test of `tasks.filter`, for the search as it was typed.
  unfoldable pub is_found : Text → Task → Bool
  is_found typed t =
      let search = lower typed in
      let has : Text → Bool = λ s. includes search (lower s) in
      is_empty search
      || has t.command
      || has t.title
      || has t.comment
      || has t.run_user
      || has t.cwd
      || has t.schedule
      || has t.tags

-- Each task with its index in the list, `tasks.indexOf(task)`: no task stands there twice.
abbrev pub indexed : ℕ → List Task → List (ℕ × Task)
indexed i [] = []
indexed i (t ∷ ts) = (i, t) ∷ indexed (suc i) ts

-- `firstLine`
unfoldable pub first_line : (Text → Text) → Text → Text
first_line t command =
    let line : Text = elim (get_elem? (split 10 command) 0) [ none ↦ [] | some l ↦ l ] in
    let short = if ltb 80 (length line) then take 77 line ++ codes "..." else line in
    if has_char 10 command then short ++ codes " " ++ t (codes "task.multiLine") else short

-- `nextRunStr`: the next run of an enabled task, or its special name; none if the search does not
-- return.
unfoldable pub next_run_text : ℕ → ℕ → Task → Option Text
next_run_text fuel now t =
    if is_enabled t && not (is_empty t.schedule) && not (starts_with (codes "@") t.schedule)
    then elim (get_next_run_time fuel (parse_schedule t.schedule) now) [
      | none ↦ none
      | some next ↦ elim next [ none ↦ some [] | some d ↦ some (format_full_time (some d)) ]
    ]
    else if starts_with (codes "@") t.schedule
    then some t.schedule
    else some []

-- A card: the task and its index, which its buttons pass to the handlers, whether it runs, the entry of
-- its last run, the line
-- of its command, and its next run.
pub record Card : Type 0 where
  pub index : ℕ
  pub task : Task
  pub is_running : Bool
  pub last : Option LogEntry
  pub line : Text
  pub next_run : Option Text

unfoldable pub card : (Text → Text) → ℕ → ℕ → Page → ℕ × Task → Card
card t fuel now p (i, task) = record {
  index = i;
  task = task;
  is_running = any (λ r. r == task.id) p.running;
  last = last_run task.id p.logs;
  line = first_line t task.command;
  next_run = next_run_text fuel now task;
}

-- What `renderTasks` shows: the page, the number of pages, 0 for no pager, and the cards.
pub record TaskView : Type 0 where
  pub page : ℕ
  pub total_pages : ℕ
  pub cards : List Card

unfoldable pub render_tasks : (Text → Text) → (Text → Text) → ℕ → ℕ → Text → Page → TaskView
render_tasks lower t fuel now search p =
    let filtered = filter (λ x. is_found lower search x.1) (indexed 0 p.tasks) in
    let total = page_count (length filtered) p.task_page_size in
    let page = clamp_page p.task_page total in
    if length filtered == 0
    then record { page = p.task_page; total_pages = 0; cards = [] }
    else record {
      page = page;
      total_pages = total;
      cards = map (card t fuel now p) (page_items page p.task_page_size filtered);
    }
