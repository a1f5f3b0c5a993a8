-- ===== src/App/Tests/Dialogs.antt =====
-- The dialogs of app.js at concrete inputs.
use cockpit_cronplus.Common.{
  ◌+◌, ◌≤◌, ◌≡◌, ◌≢◌, refl, inr, true, false, none, some, List, [], ◌∷◌, ◌++◌, pos, Text, codes,
  length, arith,
}
use cockpit_cronplus.App.Run.{
  Run, ready, Dialog, run_task, start_run, stop_run, press_button, settle, close_modal, run, press,
  close, closed, Reachable, start, next,
}
use cockpit_cronplus.App.Run.Invariant.{IsValid, Reachable-IsValid, settle_abandoned}
use cockpit_cronplus.App.Confirm as Confirm
use cockpit_cronplus.App.Output as Output
use cockpit_cronplus.App.Cleanup.{age, World, Inputs, deletions, exec_cleanup, exec_cleanup-Refused}
use cockpit_cronplus.App.Tests.{backup, report}

-- The dialog closed on a running task and opened for another, which was started.
abbrev opened : Dialog
opened = run_task closed (some backup)

abbrev running : Dialog
running = press_button opened 1000 true

abbrev reopened : Dialog
reopened = run_task (close_modal running) (some report)

abbrev second_run : Dialog
second_run = press_button reopened 5000 true

run_code : Unit {0}
unfolding run_task start_run stop_run press_button close_modal
run_code = tt

second_run-Reachable : Reachable second_run
unfolding run_code
second_run-Reachable =
    next
      (next
        (next (next (next start (run closed backup refl)) (press opened 1000 true refl))
          (close running))
        (run (close_modal running) report refl))
      (press reopened 5000 true refl)

Reachable-IsValid_example : IsValid second_run
Reachable-IsValid_example = Reachable-IsValid second_run-Reachable

abbrev stopped_run : Run
stopped_run = record { started_at = 1000; stopped = true; run_id = none }

settle_abandoned_example :
    (settle (run_task (close_modal running) (some report)) 0 false (some (pos 143)) 6000).status
    ≢ ready
settle_abandoned_example =
    settle_abandoned running report 0 false (some (pos 143)) 6000 (omega arith)

abbrev events : List Confirm.Event
events = Confirm.ask true ∷ Confirm.tab false ∷ Confirm.ask false ∷ Confirm.escape ∷ []

run-IsFair_example : Confirm.IsFair (Confirm.run Confirm.initial events) 1
run-IsFair_example = Confirm.run-IsFair events 1

abbrev empty_writer : Output.Writer
empty_writer = record { node = []; pending = []; timer = false; trimmed = false }

abbrev mark : Text
mark = codes "~"

abbrev actions : List (Output.Action 4 mark)
actions = Output.write (codes "ab") ∷ Output.tick ∷ Output.write (codes "c") ∷ []

run-le_example : length (Output.run 4 mark empty_writer actions).node ≤ 4 + length mark
run-le_example = Output.run-le 4 mark empty_writer actions (omega arith)

held-run_example :
    Output.held 4 mark (Output.run 4 mark empty_writer actions)
    ≡ Output.held 4 mark empty_writer ++ Output.written_by 4 mark actions
held-run_example = Output.held-run 4 mark empty_writer actions (omega arith)

abbrev ten_days : Inputs
ten_days = record { days = codes "10"; task_id = []; status = []; user = []; count = [] }

abbrev nothing_old : World
nothing_old = record { planned = some 0; confirmed = true }

exec_cleanup-Refused_example :
    deletions (exec_cleanup age ten_days 1777000000000 1777000000005 nothing_old) ≡ []
exec_cleanup-Refused_example =
    exec_cleanup-Refused age ten_days 1777000000000 1777000000005 nothing_old (inr (refl, refl))
