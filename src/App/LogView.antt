-- ===== src/App/LogView.antt =====
-- app.js, the log list: the filters, the order, the page and the selects of `renderLogs`.
pub mod Shown
pub mod Order
pub mod UserOptions
pub mod Expand
pub mod Controls
mod Tests
use cockpit_cronplus.Common.{
  ℕ, zero, suc, ◌+◌, ◌-◌, ◌*◌, ◌≤◌, ◌≡◌, ◌≢◌, refl, sym, ◌∙◌, inl, inr, Bool, true, false, not,
  ◌&&◌, ◌||◌, Option, none, some, List, [], ◌∷◌, ◌++◌, map, if◌then◌else◌, ◌==◌, ltb, Text, codes,
  text_eq, text_lt, is_empty, or_else, show, any, length, filter, take, drop, All, min, arith,
  length-take, Bool-cases, ==_iff, ==_refl,
}
use cockpit_cronplus.App.Types.{Task, LogEntry}
use cockpit_cronplus.App.Paging.{page_count, page_items}

-- The values of the filters; the task's is its id, 0 for none, and the others are empty for none.
pub record Filters : Type 0 where
  pub task : ℕ
  pub status : Text
  pub user : Text
  pub trigger : Text
  pub date_from : Text
  pub date_to : Text

-- What `log_filter` is after `showTaskLogs`: the task alone.
abbrev pub task_filters : ℕ → Filters
task_filters id = record {
  task = id;
  status = [];
  user = [];
  trigger = [];
  date_from = [];
  date_to = [];
}

abbrev unset_or : Text → Bool → Bool
unset_or wanted test = is_empty wanted || test

-- The test of `logs.filter`.
unfoldable pub passes : Filters → LogEntry → Bool
passes f l =
    let day = take 10 l.created_at in
    (f.task == 0 || l.task_id == f.task)
    && unset_or f.status (text_eq l.status f.status)
    && unset_or f.user (text_eq (or_else l.run_user (codes "root")) f.user)
    && unset_or f.trigger (text_eq (or_else l.trigger (codes "auto")) f.trigger)
    && unset_or f.date_from (not (text_lt day f.date_from))
    && unset_or f.date_to (not (text_lt f.date_to day))

-- `filtered.sort(…)`, newest first and stable. `newer` says that a time comes before another one:
-- `a.localeCompare(b) > 0`.
abbrev pub insert_log : (Text → Text → Bool) → LogEntry → List LogEntry → List LogEntry
insert_log newer l [] = l ∷ []
insert_log newer l (m ∷ ms) =
    let rest = insert_log newer l ms in
    if newer m.created_at l.created_at then m ∷ rest else l ∷ m ∷ ms

abbrev pub sort_logs : (Text → Text → Bool) → List LogEntry → List LogEntry
sort_logs newer [] = []
sort_logs newer (l ∷ ls) = insert_log newer l (sort_logs newer ls)

-- The text that stands for an empty list, or none where entries are shown.
pub data Notice : Type 0 where
  no_task_logs no_match no_logs : Notice

abbrev has_other : Filters → Bool
has_other f = not (
    is_empty f.status
    && is_empty f.user
    && is_empty f.trigger
    && is_empty f.date_from
    && is_empty f.date_to)

unfoldable pub notice : Filters → Notice
notice f =
    if not (f.task == 0) && not (has_other f)
    then no_task_logs
    else if not (f.task == 0) || has_other f
    then no_match
    else no_logs

pub record View : Type 0 where
  pub page : ℕ
  pub total_pages : ℕ
  pub items : List LogEntry
  pub empty_notice : Option Notice
  -- whether the number of entries is shown
  pub counted : Bool

unfoldable pub render_logs : (Text → Text → Bool) → Filters → ℕ → ℕ → List LogEntry → View
render_logs newer f page size logs =
    let filtered = sort_logs newer (filter (passes f) logs) in
    let total = page_count (length filtered) size in
    let page' = if ltb total page then total else page in
    let has_filter = not (f.task == 0) || has_other f in
    record {
      page = page';
      total_pages = total;
      items = page_items page' size filtered;
      empty_notice = elim filtered [ [] ↦ some (notice f) | _ ∷ _ ↦ none ];
      counted = has_filter && ltb 0 (length filtered);
    }

-- The options of the task filter, with their labels.
abbrev pub label : ℕ → Text → Text → Text
label id title command = b'#' ∷ show id ++ b' ' ∷ or_else title (take 50 command)

abbrev pub has_option : ℕ → List (ℕ × Text) → Bool
has_option id options = any (λ o. o.0 == id) options

-- `tasks.forEach`, then `logs.forEach` and the selected id, each where its id is not known yet.
abbrev pub options_of_tasks : List Task → List (ℕ × Text)
options_of_tasks [] = []
options_of_tasks (t ∷ ts) =
    let rest = options_of_tasks ts in
    if t.id == 0 then rest else (t.id, label t.id t.title t.command) ∷ rest

abbrev pub add_option : ℕ → Text → List (ℕ × Text) → List (ℕ × Text)
add_option id text options =
    if id == 0 || has_option id options then options else options ++ (id, text) ∷ []

abbrev pub add_logs : List LogEntry → List (ℕ × Text) → List (ℕ × Text)
add_logs [] options = options
add_logs (l ∷ ls) options =
    add_logs ls (add_option l.task_id (label l.task_id l.title l.command) options)

unfoldable pub task_options : List Task → List LogEntry → ℕ → List (ℕ × Text)
task_options tasks logs selected =
    add_option selected (b'#' ∷ show selected) (add_logs logs (options_of_tasks tasks))
