-- ===== src/App/Cleanup/Dialog.antt =====
-- app.js, the cleanup dialog as it opens, and the change of its mode.
use cockpit_cronplus.Common.{
  ℕ, Bool, true, false, ◌||◌, Option, none, some, List, [], ◌∷◌, ◌++◌, if◌then◌else◌, ◌==◌, Text,
  codes, or_else, take, show, any,
}
use cockpit_cronplus.App.Types.{LogEntry}
use cockpit_cronplus.App.Cleanup.{Mode, age, all, Inputs}
use cockpit_cronplus.App.LogView.UserOptions.{user_options}

-- The options of the task's select: the first entry of each task that has an id gives the label.
abbrev seen : ℕ → List (ℕ × Text) → Bool
seen id options = any (λ o. o.0 == id) options

abbrev cleanup_label : LogEntry → Text
cleanup_label l = or_else l.title (take 50 l.command) ++ codes " (#" ++ show l.task_id ++ codes ")"

unfoldable pub cleanup_tasks : List (ℕ × Text) → List LogEntry → List (ℕ × Text)
cleanup_tasks options [] = options
cleanup_tasks options (l ∷ ls) =
    let next =
      if l.task_id == 0 || seen l.task_id options
      then options
      else options ++ (l.task_id, cleanup_label l) ∷ [] in
    cleanup_tasks next ls

-- `shown` is the mode whose options are shown, none for the one that has none.
pub record Dialog : Type 0 where
  pub is_open : Bool
  pub mode : Mode
  pub shown : Option Mode
  pub inputs : Inputs
  pub tasks : List (ℕ × Text)
  pub users : List Text

-- `openCleanupModal`; the selects are written anew, which leaves nothing chosen, and that of the
-- status stays.
unfoldable pub open_cleanup : List LogEntry → Dialog → Dialog
open_cleanup logs d = record {
  is_open = true;
  mode = age;
  shown = some age;
  inputs = record d.inputs { days = codes "30"; count = codes "100"; task_id = []; user = [] };
  tasks = cleanup_tasks [] logs;
  users = user_options logs;
}

unfoldable pub close_cleanup : Dialog → Dialog
close_cleanup d = record d { is_open = false }

abbrev options_of : Mode → Option Mode
options_of all = none
options_of m = some m

-- The change of the mode.
unfoldable pub change_mode : Mode → Dialog → Dialog
change_mode m d = record d { mode = m; shown = options_of m }
