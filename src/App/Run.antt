-- ===== src/App/Run.antt =====
-- app.js, the run dialog: `runTask`, `showOutputModal`, `startRunOutput`, `stopRunOutput`,
-- `finishRun`, `closeOutputModal` and the click on the run button. A run object is shared by the
-- callbacks of its process and by `activeRun`, so runs stand in a store and are named by their
-- index there, the token. The terminal's text is in App/Output; labels and styles are left out.
pub mod Invariant
use cockpit_cronplus.Common.{
  ℕ, zero, suc, ◌+◌, ◌-◌, ◌≤◌, ◌<◌, ◌≡◌, refl, Bool, true, false, not, ◌&&◌, ◌||◌, Option, none,
  some, List, [], ◌∷◌, ◌++◌, if◌then◌else◌, ◌==◌, ltb, ℤ, pos, negsuc, Text, codes, length, set,
  get_elem?,
}
use cockpit_cronplus.App.Types.{Task}

-- `{ startedAt, stopped, runID }`
pub record Run : Type 0 where
  pub started_at : ℕ
  pub stopped : Bool
  pub run_id : Option Text

-- The status line: the user's name before a run, then the run id with what is said of it. `done`
-- says whether the run succeeded, and after how many milliseconds.
pub data Status : Type 0 where
  ready : Status
  executing stopping : Text → Status
  done : Text → Bool → ℕ → Status

-- `pending` is `pendingRunTask`, `proc` the token of the run whose process is `runningProc`,
-- `active` is `activeRun`, and `timer` says that `runDurationTimer` is set.
pub record Dialog : Type 0 where
  pub is_open : Bool
  pub pending : Option Task
  pub runs : List Run
  pub proc : Option ℕ
  pub active : Option ℕ
  pub timer : Bool
  pub status : Status
  pub stdin_bar : Bool

abbrev pub run_at : Dialog → ℕ → Run
run_at d r = elim (get_elem? d.runs r) [
  | none ↦ record { started_at = 0; stopped = false; run_id = none }
  | some run ↦ run
]

abbrev pub same_run : Option ℕ → ℕ → Bool
same_run none r = false
same_run (some q) r = q == r

-- `showOutputModal` for the pending task
abbrev show_modal : Dialog → Dialog
show_modal d = record d {
  status = ready;
  proc = none;
  active = none;
  stdin_bar = false;
  is_open = true;
}

-- `runTask`; none is an index with no task.
unfoldable pub run_task : Dialog → Option Task → Dialog
run_task d none = d
run_task d (some t) = if t.id == 0 then d else show_modal (record d { pending = some t })

-- `finishRun`: a run that another one has superseded changes nothing here.
abbrev is_superseded : Option ℕ → ℕ → Bool
is_superseded none r = false
is_superseded (some q) r = not (q == r)

abbrev id_text : Option Text → Text
id_text none = []
id_text (some id) = id

unfoldable pub finish_run : Dialog → ℕ → Bool → ℕ → Dialog
finish_run d r success elapsed =
    let finished = record d {
      timer = false;
      proc = none;
      active = none;
      stdin_bar = false;
      status = done (id_text (run_at d r).run_id) success elapsed;
    } in
    if is_superseded d.active r then d else finished

-- `startRunOutput` at the time `now`; `spawned` says that `cockpit.spawn` did not throw.
unfoldable pub start_run : Dialog → ℕ → Bool → Dialog
start_run d now spawned = elim d.pending [
  | none ↦ d
  | some task ↦
      let r = length d.runs in
      let begun = record d {
        runs = d.runs ++ record { started_at = now; stopped = false; run_id = none } ∷ [];
        active = some r;
        stdin_bar = true;
        status = executing [];
        timer = true;
      } in
      if spawned then record begun { proc = some r } else finish_run begun r false 0
]

abbrev mark_stopped : Dialog → Option ℕ → List Run
mark_stopped d none = d.runs
mark_stopped d (some r) = set d.runs r (record (run_at d r) { stopped = true })

abbrev active_id : Dialog → Text
active_id d = elim d.active [ none ↦ [] | some r ↦ id_text (run_at d r).run_id ]

-- `stopRunOutput`: the process is asked to end; it is still there.
unfoldable pub stop_run : Dialog → Dialog
stop_run d = elim d.proc [
  | none ↦ d
  | some r ↦ record d { runs = mark_stopped d d.active; status = stopping (active_id d) }
]

-- The click on the run button.
unfoldable pub press_button : Dialog → ℕ → Bool → Dialog
press_button d now spawned = elim d.proc [ none ↦ start_run d now spawned | some r ↦ stop_run d ]

-- The stream callback of run `r` when its banner holds `run=…`: the id is kept once, and written
-- into the status line where that shows an id.
abbrev with_id : Text → Status → Status
with_id id ready = ready
with_id id (executing _) = executing id
with_id id (stopping _) = stopping id
with_id id (done _ success ms) = done id success ms

unfoldable pub read_banner : Dialog → ℕ → Text → Dialog
read_banner d r id = elim (run_at d r).run_id [
  | some old ↦ d
  | none ↦ record d {
    runs = set d.runs r (record (run_at d r) { run_id = some id });
    status = with_id id d.status;
  }
]

-- `settle`: the status and the exit code of a run; `code` is none where the error has no exit
-- status.
unfoldable pub settle_result : Run → Bool → Option ℤ → Bool × ℤ
settle_result run ok code =
    let reported : ℤ = if ok then pos 0 else elim code [ none ↦ negsuc 0 | some c ↦ c ] in
    let stopped_code : ℤ = elim reported [
      | pos zero ↦ negsuc 0
      | pos (suc n) ↦ pos (suc n)
      | negsuc n ↦ negsuc n
    ] in
    if run.stopped then (false, stopped_code) else (ok, reported)

unfoldable pub settle : Dialog → ℕ → Bool → Option ℤ → ℕ → Dialog
settle d r ok code now =
    finish_run d r (settle_result (run_at d r) ok code).0 (now - (run_at d r).started_at)

-- `closeOutputModal`; `activeRun` stays.
unfoldable pub close_modal : Dialog → Dialog
close_modal d =
    let stopped : List Run = elim d.proc [ none ↦ d.runs | some r ↦ mark_stopped d d.active ] in
    record d {
      runs = stopped;
      proc = none;
      timer = false;
      pending = none;
      stdin_bar = false;
      is_open = false;
    }

-- What happens to the dialog. A task is run from the list, which the open dialog covers, and the
-- button is in the dialog; a process settles once, and at any time.
pub data Step : Dialog → Dialog → Type 0 where
  run : (d : Dialog) (t : Task) → d.is_open ≡ false → Step d (run_task d (some t))
  press :
      (d : Dialog) (now : ℕ) (spawned : Bool)
      → d.is_open ≡ true
      → Step d (press_button d now spawned)
  banner : (d : Dialog) (r : ℕ) (id : Text) → Step d (read_banner d r id)
  exit :
      (d : Dialog) (r : ℕ) (ok : Bool) (code : Option ℤ) (now : ℕ) → Step d (settle d r ok code now)
  close : (d : Dialog) → Step d (close_modal d)

abbrev pub closed : Dialog
closed = record {
  is_open = false;
  pending = none;
  runs = [];
  proc = none;
  active = none;
  timer = false;
  status = ready;
  stdin_bar = false;
}

pub data Reachable : Dialog → Type 0 where
  start : Reachable closed
  next : {d e : Dialog} → Reachable d → Step d e → Reachable e
