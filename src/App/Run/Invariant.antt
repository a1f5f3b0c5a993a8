-- ===== src/App/Run/Invariant.antt =====
-- What holds of the run dialog whatever the order of clicks and exits.
use cockpit_cronplus.Common.{
  ℕ, ◌≡◌, ◌≢◌, ◌⊎◌, Bool, true, false, Option, none, some, Text, arith, ℤ, pos, inl, inr,
  Option-cases,
}
use cockpit_cronplus.App.Types.{Task}
use cockpit_cronplus.App.Run.{
  Run, ready, Dialog, run_at, run_task, finish_run, start_run, stop_run, press_button, read_banner,
  settle, settle_result, close_modal, Step, run, press, banner, exit, close, closed, Reachable,
  start, next,
}

-- The duration timer runs exactly while a process does, the process belongs to the active run, and
-- both only in the open dialog.
pub record IsValid (d : Dialog) : Type 0 where
  pub owner : (d.proc ≡ none) ⊎ (d.proc ≡ d.active)
  pub timed : d.timer ≡ true → d.proc ≢ none
  pub timing : d.proc ≢ none → d.timer ≡ true
  pub shown : d.proc ≢ none → d.is_open ≡ true
  pub bar : d.stdin_bar ≡ true → d.proc ≢ none

closed-IsValid : IsValid closed
closed-IsValid = ground arith

finish_run-IsValid :
    (d : Dialog) (r : ℕ) (success : Bool) (ms : ℕ) → IsValid d → IsValid (finish_run d r success ms)
unfolding finish_run
finish_run-IsValid d r success ms v = ground arith

run_task-IsValid :
    (d : Dialog) (t : Task) → d.is_open ≡ false → IsValid d → IsValid (run_task d (some t))
unfolding run_task
run_task-IsValid d t o v = ground arith

start_run-IsValid :
    (d : Dialog) (now : ℕ) (spawned : Bool)
    → d.is_open ≡ true
    → d.proc ≡ none
    → IsValid d
    → IsValid (start_run d now spawned)
unfolding start_run finish_run
start_run-IsValid d now spawned o p v = ground arith

stop_run-IsValid : (d : Dialog) → IsValid d → IsValid (stop_run d)
unfolding stop_run
stop_run-IsValid d v = ground arith

press_button-IsValid :
    (d : Dialog) (now : ℕ) (spawned : Bool)
    → d.is_open ≡ true
    → IsValid d
    → IsValid (press_button d now spawned)
unfolding press_button
press_button-IsValid d now spawned o v = elim (Option-cases d.proc) [
  | inl idle ↦ rw (idle, press_button) (start_run-IsValid d now spawned o idle v)
  | inr (r, busy) ↦ rw (busy, press_button) (stop_run-IsValid d v)
]

read_banner-IsValid : (d : Dialog) (r : ℕ) (id : Text) → IsValid d → IsValid (read_banner d r id)
unfolding read_banner
read_banner-IsValid d r id v = elim (Option-cases (run_at d r).run_id) [
  | inl fresh ↦ rw (fresh, read_banner) (ground arith)
  | inr (old, known) ↦ rw (known, read_banner) v
]

close_modal-IsValid : (d : Dialog) → IsValid d → IsValid (close_modal d)
unfolding close_modal
close_modal-IsValid d v = ground arith

Step-IsValid : {d e : Dialog} → Step d e → IsValid d → IsValid e
unfolding settle
Step-IsValid (run d t o) v = run_task-IsValid d t o v
Step-IsValid (press d now spawned o) v = press_button-IsValid d now spawned o v
Step-IsValid (banner d r id) v = read_banner-IsValid d r id v
Step-IsValid (exit d r ok code now) v =
    finish_run-IsValid d r (settle_result (run_at d r) ok code).0 _ v
Step-IsValid (close d) v = close_modal-IsValid d v

-- In every reachable dialog the duration timer runs exactly while a process does, the process
-- belongs to the active run, there is one only while the dialog is open, and the bar for the input
-- is shown only while there is one.
pub Reachable-IsValid : {d : Dialog} → Reachable d → IsValid d
Reachable-IsValid start = closed-IsValid
Reachable-IsValid (next r s) = Step-IsValid s (Reachable-IsValid r)

-- While the process of a run is there, the exit of any other run changes nothing in the dialog.
pub settle_superseded :
    {d : Dialog} {r : ℕ} (q : ℕ) (ok : Bool) (code : Option ℤ) (now : ℕ)
    → Reachable d
    → d.proc ≡ some r
    → q ≢ r
    → settle d q ok code now ≡ d
unfolding settle finish_run
settle_superseded {d} {r} q ok code now reach busy other =
    let v = Reachable-IsValid reach in ground (arith, v.owner)

-- A run that was stopped never counts as a success, and its exit code is not 0.
pub settle_result_stopped :
    (r : Run) (ok : Bool) (code : Option ℤ)
    → r.stopped ≡ true
    → ((settle_result r ok code).0 ≡ false) × ((settle_result r ok code).1 ≢ pos 0)
unfolding settle_result
settle_result_stopped r ok code h = ground arith

-- If the dialog is closed on a run and opened for another task that has an id, and the closed run then
-- exits, the status line does not stay the one of a task that has not run.
pub settle_abandoned :
    (d : Dialog) (t : Task) (r : ℕ) (ok : Bool) (code : Option ℤ) (now : ℕ)
    → t.id ≢ 0
    → (settle (run_task (close_modal d) (some t)) r ok code now).status ≢ ready
unfolding settle finish_run run_task close_modal
settle_abandoned d t r ok code now h = ground arith
