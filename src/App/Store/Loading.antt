-- ===== src/App/Store/Loading.antt =====
-- app.js: `loadLogs`, `stopTask` and the footer.
use cockpit_cronplus.Common.{
  ℕ, ◌≡◌, Bool, true, false, Option, none, some, List, [], ◌∷◌, ◌++◌, if◌then◌else◌, ◌==◌, Text,
  codes, text_eq, or_else, arith, trim, show, get_elem?,
}
use cockpit_cronplus.App.Types.{LogEntry}
use cockpit_cronplus.App.Store.{
  Page, Call, command, message, render_tasks, render_logs, load_running,
}

-- `loadLogs`: none where the command fails, or its answer is no array.
unfoldable pub load_logs : Page → Option (List LogEntry) → Page
load_logs p none = record p { logs = [] }
load_logs p (some entries) = record p { logs = entries }

-- `stopTask`: whether the command succeeds, what `cronplus ps` answers then, and the logs that are
-- loaded last.
unfoldable pub stop_task :
    Page → ℕ → Bool → Option (List ℕ) → Option (List LogEntry) → Page × List Call
unfolding load_logs
stop_task p i stopped ids entries = elim (get_elem? p.tasks i) [
  | none ↦ (p, [])
  | some t ↦
      let told = message (codes (if stopped then "toast.stopped" else "toast.stopFailed")) in
      let stop = command (codes "cronplus" ∷ codes "stop" ∷ show t.id ∷ []) in
      if t.id == 0
      then (p, [])
      else (load_logs (load_running p ids) entries, stop ∷ told ∷ render_tasks ∷ render_logs ∷ [])
]

-- The footer: the state of the service, as it runs or with a text.
pub record Footer : Type 0 where
  pub is_running : Bool
  pub text : Text

-- `updateFooterStatus`, none where the command fails
unfoldable pub update_footer : Option Text → Footer
update_footer none = record { is_running = false; text = codes "stopped" }
update_footer (some out) =
    let state = trim out in
    if text_eq state (codes "active")
    then record { is_running = true; text = codes "running" }
    else record { is_running = false; text = or_else state (codes "stopped") }

-- The version of `initFooter`: that of the first file, none where it cannot be read, and then that of
-- the second one. An empty text stands for no version.
abbrev version_of : Text → Text
version_of v = codes "v" ++ or_else v (codes "?")

unfoldable pub footer_version : Option Text → Option Text → Text
footer_version (some v) second = version_of v
footer_version none (some v) = version_of v
footer_version none none = codes "v?"

-- Stopping a task changes neither the tasks nor the pages and filters.
pub stop_task-keeps :
    (p : Page) (i : ℕ) (stopped : Bool) (ids : Option (List ℕ)) (entries : Option (List LogEntry))
    → ((stop_task p i stopped ids entries).0.tasks ≡ p.tasks)
      × ((stop_task p i stopped ids entries).0.log_filter ≡ p.log_filter)
unfolding stop_task load_logs load_running
stop_task-keeps p i stopped ids entries = ground arith
