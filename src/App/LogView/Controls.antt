-- ===== src/App/LogView/Controls.antt =====
-- app.js, the controls of the lists in `bindEvents`: the filters of the logs, the pagers and the page
-- sizes. Each is followed by a rendering of its list.
use cockpit_cronplus.Common.{
  ℕ, ◌≡◌, refl, ap, Option, none, some, List, [], ◌∷◌, if◌then◌else◌, leb, ℤ, pos, Text, filter,
}
use cockpit_cronplus.App.Types.{LogEntry, int_or}
use cockpit_cronplus.App.LogView.{Filters, passes, task_filters}

pub record Controls : Type 0 where
  pub filters : Filters
  pub log_page : ℕ
  pub task_page : ℕ
  pub task_page_size : ℤ

-- The change of a filter, with the values that the filters have then.
unfoldable pub change_filters : Filters → Controls → Controls
change_filters f c = record c { filters = f; log_page = 1 }

unfoldable pub clear_filters : Controls → Controls
clear_filters c = record c { filters = task_filters 0; log_page = 1 }

-- `parseInt(btn.dataset.page)` of an enabled button, none for no number or a negative one.
abbrev page_or : Option ℕ → ℕ → ℕ
page_or none page = page
page_or (some p) page = if leb 1 p then p else page

unfoldable pub press_log_page : Option ℕ → Controls → Controls
press_log_page p c = record c { log_page = page_or p c.log_page }

unfoldable pub press_task_page : Option ℕ → Controls → Controls
press_task_page p c = record c { task_page = page_or p c.task_page }

unfoldable pub change_log_size : Controls → Controls
change_log_size c = record c { log_page = 1 }

unfoldable pub change_task_size : Text → Controls → Controls
change_task_size value c = record c { task_page_size = int_or value (pos 20); task_page = 1 }

-- Without filters every entry is listed.
pub filter-clear_filters :
    (c : Controls) (logs : List LogEntry) → filter (passes (clear_filters c).filters) logs ≡ logs
unfolding clear_filters passes
filter-clear_filters c [] = refl
filter-clear_filters c (l ∷ ls) = ap (λ rest. l ∷ rest) (filter-clear_filters c ls)
