-- ===== src/App/Config.antt =====
-- app.js, tasks.conf: `loadTasks`, `saveTasks`, `exportConfig`, and the raw editor, `loadRawEditor`
-- and `saveRawEditor`.
pub mod RoundTrip
pub mod Accepts
use cockpit_cronplus.Common.{
  ℕ, zero, suc, ◌+◌, Bool, true, false, not, ◌&&◌, ◌||◌, Option, none, some, List, [], ◌∷◌, ◌++◌,
  map, if◌then◌else◌, ◌==◌, leb, Text, codes, text_eq, is_empty, is_digit, is_space, any, all,
  length,
}
use cockpit_cronplus.App.Types.{Task}
use cockpit_cronplus.App.Store.{Page, Item}
use cockpit_cronplus.Utils.Base64.{Browser, encode_task, decode_task}

pub data Fault : Type 0 where
  missing_command invalid_run_user invalid_schedule : Fault

-- `write` is the text of the raw editor put in tasks.conf, `write_tasks` tasks as JSON; `reload` is the
-- signal to the daemon; `status` the line below the raw editor,
-- and `faulty` the toast and the line for a fault of the task at an index.
pub data ConfigCall : Type 0 where
  write : Text → ConfigCall
  write_tasks : List Task → ConfigCall
  toast status : Text → ConfigCall
  faulty : ℕ → Fault → ConfigCall
  reload render_tasks : ConfigCall

-- `tasks.map(Utils.encodeTaskForSave)`; none if one throws.
abbrev pub encode_tasks : Browser → List Task → Option (List Task)
encode_tasks b [] = some []
encode_tasks b (t ∷ ts) = elim (encode_task b t) [
  | none ↦ none
  | some e ↦ elim (encode_tasks b ts) [ none ↦ none | some es ↦ some (e ∷ es) ]
]

-- `loadTasks`: `file` is what tasks.conf holds, none if it cannot be read.
unfoldable pub load_tasks : Browser → Page → Option (List Task) → Page × List ConfigCall
load_tasks b p none = (p, toast (codes "task.loadFailed") ∷ [])
load_tasks b p (some raw) = (record p { tasks = map (decode_task b) raw }, [])

-- `saveTasks`: `written` says that tasks.conf could be written. A signal that fails is passed over.
unfoldable pub save_tasks : Browser → Bool → List Task → List ConfigCall
save_tasks b written tasks = elim (encode_tasks b tasks) [
  | none ↦ toast (codes "task.saveFailed") ∷ []
  | some encoded ↦
      if written
      then write_tasks encoded ∷ reload ∷ toast (codes "task.saved") ∷ []
      else write_tasks encoded ∷ toast (codes "task.saveFailed") ∷ []
]

-- `saveTasksQuiet`
unfoldable pub save_tasks_quiet : Browser → List Task → List ConfigCall
save_tasks_quiet b tasks = elim (encode_tasks b tasks) [
  | none ↦ []
  | some encoded ↦ write_tasks encoded ∷ []
]

-- `[a-zA-Z_]` and `[a-zA-Z0-9_-]`
abbrev user_start : ℕ → Bool
user_start c = (leb b'a' c && leb c b'z') || (leb b'A' c && leb c b'Z') || c == b'_'

abbrev user_char : ℕ → Bool
user_char c = user_start c || is_digit c || c == b'-'

-- `userRe`
unfoldable pub is_user : Text → Bool
is_user [] = false
is_user (c ∷ s) = user_start c && all user_char s && leb (length s) 31

-- The number of words of a text that begins and ends with one; none for any other. `\S` and `\s` have
-- no character in common, so there is one way to match `(\S+\s+)*\S+`.
abbrev pub count_from : Bool → ℕ → Text → Option ℕ
count_from spaced n [] = if spaced then none else some n
count_from spaced n (c ∷ s) =
    let gap = count_from true n s in
    let begins = count_from false (suc n) s in
    let goes_on = count_from false n s in
    if is_space c then gap else if spaced then begins else goes_on

abbrev pub count_words : Text → Option ℕ
count_words [] = none
count_words (c ∷ s) = let rest = count_from false 1 s in if is_space c then none else rest

abbrev five_or_six : Option ℕ → Bool
five_or_six none = false
five_or_six (some n) = n == 5 || n == 6

abbrev special_names : List Text
special_names =
    codes "@reboot"
    ∷ codes "@yearly"
    ∷ codes "@annually"
    ∷ codes "@monthly"
    ∷ codes "@weekly"
    ∷ codes "@daily"
    ∷ codes "@midnight"
    ∷ codes "@hourly"
    ∷ []

-- `scheduleRe`
unfoldable pub is_schedule : Text → Bool
is_schedule s = five_or_six (count_words s) || any (text_eq s) special_names

-- The tests of one task, in their order.
unfoldable pub check_task : Task → Option Fault
check_task t =
    if is_empty t.command
    then some missing_command
    else if not (is_empty t.run_user)
        && not (text_eq t.run_user (codes "root"))
        && not (is_user t.run_user)
    then some invalid_run_user
    else if not (is_empty t.schedule)
        && not (text_eq t.schedule (codes "@reboot"))
        && not (is_schedule t.schedule)
    then some invalid_schedule
    else none

-- The loop: the index of the first task with a fault, and the fault.
abbrev pub check_tasks : ℕ → List Task → Option (ℕ × Fault)
check_tasks i [] = none
check_tasks i (t ∷ ts) = elim (check_task t) [
  | none ↦ check_tasks (suc i) ts
  | some fault ↦ some (i, fault)
]

-- `saveRawEditor`. `parsed` is `JSON.parse(content)`: none if it throws, and some none if it is no
-- array. `written` says that the file could be written, and `file` is what `loadTasks` then reads.
unfoldable pub save_raw_editor :
    Browser
    → Option (Option (List Task))
    → Bool
    → Option (List Task)
    → Page
    → Text
    → Page × List ConfigCall
save_raw_editor b none written file p content =
    (p, status (codes "raw.jsonError") ∷ toast (codes "toast.jsonError") ∷ [])
save_raw_editor b (some none) written file p content =
    (p, toast (codes "raw.jsonError") ∷ status (codes "raw.jsonError") ∷ [])
save_raw_editor b (some (some parsed)) written file p content = elim (check_tasks 0 parsed) [
  | some (i, fault) ↦ (p, faulty i fault ∷ [])
  | none ↦
      let (p', loading) = load_tasks b p file in
      if written
      then (
        p',
        (write content
              ∷ reload
              ∷ status (codes "raw.saved")
              ∷ toast (codes "toast.configSaved")
              ∷ [])
            ++ loading
            ++ render_tasks ∷ [],
      )
      else (
        p,
        write content ∷ status (codes "raw.saveFailed") ∷ toast (codes "toast.saveFailed") ∷ [],
      )
]

-- The `tasks` of the file that `exportConfig` writes: a copy of each.
unfoldable pub export_config : Page → List Item
export_config p =
    map
      (λ t. record {
        task = t;
        second = [];
        minute = [];
        hour = [];
        day = [];
        month = [];
        dow = [];
      })
      p.tasks
