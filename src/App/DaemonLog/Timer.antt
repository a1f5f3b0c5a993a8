-- ===== src/App/DaemonLog/Timer.antt =====
-- app.js, the tabs and the timer of the daemon's log: `selectTab`, the listeners of the tabs and of
-- the controls of the log, `startDaemonLogTimer`, `stopDaemonLogTimer`, and the clearing of the log.
-- The intervals that run are a list, so that one that is not cleared would stay.
pub mod Invariant
use cockpit_cronplus.Common.{
  ℕ, zero, suc, ◌+◌, ◌*◌, ◌≡◌, ◌≢◌, refl, sym, ap, ◌∙◌, Bool, true, false, not, ◌&&◌, ◌||◌, Option,
  none, some, List, [], ◌∷◌, if◌then◌else◌, ◌==◌, Text, codes, text_eq, any, all, arith, filter,
  Bool-cases, ◌⊎◌, inl, inr, subst, text_eq→eq, ==_refl, ℤ, pos,
}
use cockpit_cronplus.App.Types.{num_or, int_or}
use cockpit_cronplus.App.Settings.{thousand}
use cockpit_cronplus.App.DaemonLog.{Line}

-- An interval that runs: its id and its milliseconds.
abbrev pub Interval : Type 0
Interval = ℕ × ℤ

-- `tab` is the active tab, `auto_refresh` the checkbox, `interval` the value of the select,
-- `default_interval` the setting, `timer` is `daemonLogTimer`, `running` are the intervals that the
-- browser runs, and `issued` counts those that `setInterval` gave.
pub record DaemonView : Type 0 where
  pub tab : Text
  pub auto_refresh : Bool
  pub interval : Text
  pub default_interval : ℤ
  pub lines : List Line
  pub timer : Option ℕ
  pub running : List Interval
  pub issued : ℕ

abbrev pub daemon : Text
daemon = codes "daemon"

-- `parseInt(select) || appSettings.daemonLogInterval || 2`, in milliseconds
unfoldable pub interval_ms : DaemonView → ℤ
interval_ms v = thousand (int_or v.interval (num_or v.default_interval (pos 2)))

-- `clearInterval(id)`, where there is a timer
abbrev pub clear_interval : Option ℕ → List Interval → List Interval
clear_interval none running = running
clear_interval (some id) running = filter (λ i. not (i.0 == id)) running

-- With no timer there is nothing to clear, and it stays none.
unfoldable pub stop_timer : DaemonView → DaemonView
stop_timer v = record v { timer = none; running = clear_interval v.timer v.running }

-- `setInterval`, where the checkbox is set
abbrev pub start_if : Bool → DaemonView → DaemonView
start_if false v = v
start_if true v = record v {
  timer = some v.issued;
  running = (v.issued, interval_ms v) ∷ v.running;
  issued = suc v.issued;
}

unfoldable pub start_timer : DaemonView → DaemonView
unfolding stop_timer
start_timer v = start_if v.auto_refresh (stop_timer v)

-- `selectTab`
unfoldable pub select_tab : Text → DaemonView → DaemonView
select_tab name v = record v { tab = name }

-- The click on a tab.
unfoldable pub press_tab : Text → DaemonView → DaemonView
unfolding select_tab start_timer stop_timer
press_tab name v =
    if text_eq name daemon then start_timer (select_tab name v) else stop_timer (select_tab name v)

-- The change of the checkbox and of the interval's select.
unfoldable pub change_auto : Bool → DaemonView → DaemonView
unfolding start_timer stop_timer
change_auto checked v =
    let v' = record v { auto_refresh = checked } in
    if checked then start_timer v' else stop_timer v'

unfoldable pub change_interval : Text → DaemonView → DaemonView
unfolding start_timer
change_interval value v =
    let v' = record v { interval = value } in if v.auto_refresh then start_timer v' else v'

-- The clearing of the log's file, once the dialog is answered: a command is spawned, and the lines go
-- when it succeeds.
pub data Cleared : Type 0 where
  refused failed cleared : Cleared

unfoldable pub clear_file : Cleared → DaemonView → DaemonView
clear_file refused v = v
clear_file failed v = v
clear_file cleared v = record v { lines = [] }

-- The controls of the log are on its tab; `showTaskLogs`, on the tasks' tab, goes to that of the logs.
pub data Step : DaemonView → DaemonView → Type 0 where
  clicks : (v : DaemonView) (name : Text) → Step v (press_tab name v)
  checks : (v : DaemonView) (checked : Bool) → v.tab ≡ daemon → Step v (change_auto checked v)
  selects : (v : DaemonView) (value : Text) → v.tab ≡ daemon → Step v (change_interval value v)
  clears : (v : DaemonView) (answer : Cleared) → v.tab ≡ daemon → Step v (clear_file answer v)
  goes : (v : DaemonView) → v.tab ≡ codes "tasks" → Step v (select_tab (codes "logs") v)

pub data Reaches : DaemonView → DaemonView → Type 0 where
  here : {v : DaemonView} → Reaches v v
  next : {v w x : DaemonView} → Reaches v w → Step w x → Reaches v x
