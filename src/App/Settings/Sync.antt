-- ===== src/App/Settings/Sync.antt =====
-- The page's variables follow the settings, whatever is done.
use cockpit_cronplus.Common.{
  ℕ, ◌+◌, ◌≡◌, ◌≢◌, refl, ◌⊎◌, inl, inr, arith, Bool, true, false, Option, none, some, ℤ, pos, Text,
  codes, text_eq, Bool-cases, Option-cases,
}
use cockpit_cronplus.App.Types.{num_or, int_or}
use cockpit_cronplus.App.Settings.{
  View, Stored, thousand, restart, stop_auto_refresh, start_auto_refresh, apply_settings,
  load_settings, save_settings,
}
use cockpit_cronplus.App.Settings.Page.{theme_init, init, draw_logs, pick_log_size, pick_task_size}
use cockpit_cronplus.App.Settings.Dialog.{
  SettingsForm, form_settings, handle_save_settings, handle_reset_settings,
}

-- An option of a select for a page size is a number that is not 0.
abbrev pub IsSize : Text → Type 0
IsSize value = int_or value (pos 0) ≢ pos 0

-- The refresh interval is that of the settings, and a timer that runs has this interval. A page size
-- is that of the settings or the one that its select shows, and not 0. The next drawing of the log
-- list takes the select's.
pub record InSync (v : View) : Type 0 where
  pub ms : v.auto_refresh_ms ≡ thousand (num_or v.settings.auto_refresh_interval (pos 15))
  pub ms_nonzero : v.auto_refresh_ms ≢ pos 0
  pub timer : (v.timer ≡ none) ⊎ (v.timer ≡ some v.auto_refresh_ms)
  pub log_page :
      (v.log_page_size ≡ num_or v.settings.log_page_size (pos 20))
      ⊎ (v.log_page_size ≡ int_or v.log_size (pos 0))
  pub log_nonzero : v.log_page_size ≢ pos 0
  pub log_drawn : (draw_logs v).log_page_size ≡ int_or v.log_size (pos 0)
  pub task_page :
      (v.task_page_size ≡ num_or v.settings.task_page_size (pos 20))
      ⊎ (v.task_page_size ≡ int_or v.page_size.value (pos 20))
  pub task_nonzero : v.task_page_size ≢ pos 0
  pub log_size : IsSize v.log_size

num_or-nonzero : (n : ℤ) (d : ℕ) → num_or n (pos (d + 1)) ≢ pos 0
num_or-nonzero n d = ground arith

thousand-nonzero : (n : ℤ) → n ≢ pos 0 → thousand n ≢ pos 0
thousand-nonzero n h = ground arith

-- Only the timer is set anew, to the interval.
pub restart_timer :
    (v : View)
    → (t : Option ℤ) × (restart v ≡ record v { timer = t })
      × ((t ≡ none) ⊎ (t ≡ some v.auto_refresh_ms))
unfolding start_auto_refresh stop_auto_refresh
restart_timer v = elim (Option-cases v.timer) [
  | inl off ↦ (none, rw off refl, inl refl)
  | inr (t, on) ↦ (some v.auto_refresh_ms, rw on refl, inr refl)
]

int_or-IsSize : (value : Text) (d : ℤ) → IsSize value → int_or value d ≡ int_or value (pos 0)
unfolding int_or
int_or-IsSize value d h = ground arith

int_or-nonzero : (value : Text) (d : ℕ) → int_or value (pos (d + 1)) ≢ pos 0
unfolding int_or
int_or-nonzero value d = ground arith

apply_settings-InSync : (v : View) → IsSize v.log_size → InSync (apply_settings v)
unfolding apply_settings draw_logs
apply_settings-InSync v size =
    let s = v.settings in
    let ms = thousand (num_or s.auto_refresh_interval (pos 15)) in
    let (t, anew, running) = restart_timer (record v { auto_refresh_ms = ms }) in
    rw anew (record {
      ms = refl;
      ms_nonzero = thousand-nonzero _ (num_or-nonzero s.auto_refresh_interval 14);
      timer = running;
      log_page = inl refl;
      log_nonzero = num_or-nonzero s.log_page_size 19;
      log_drawn = int_or-IsSize v.log_size _ size;
      task_page = inl refl;
      task_nonzero = num_or-nonzero s.task_page_size 19;
      log_size = size;
    })

-- A view that the page can come to: it starts, the settings are loaded, saved or reset, the timer is
-- stopped or started, the log list is drawn, a page size is picked in a select, or a list is turned
-- to a page.
pub data Reachable : View → Type 0 where
  started : (v : View) (raw : Option Stored) → IsSize v.log_size → Reachable (init v raw)
  loaded : (v : View) (raw : Option Stored) → Reachable v → Reachable (load_settings v raw)
  saved :
      (v : View) (written : Bool) (lang : Text) (f : SettingsForm)
      → Reachable v
      → Reachable (handle_save_settings written lang v f).0
  reset : (v : View) (written : Bool) → Reachable v → Reachable (handle_reset_settings written v).0
  stopped : (v : View) → Reachable v → Reachable (stop_auto_refresh v)
  restarted : (v : View) → Reachable v → Reachable (start_auto_refresh v)
  drawn : (v : View) → Reachable v → Reachable (draw_logs v)
  log_picked :
      (v : View) (value : Text) → IsSize value → Reachable v → Reachable (pick_log_size value v)
  task_picked : (v : View) (value : Text) → Reachable v → Reachable (pick_task_size value v)
  turned : (v : View) (i j : ℕ) → Reachable v → Reachable (record v { log_page = i; task_page = j })

-- A view with the same variables as one that is in sync, other than the theme and the pages shown.
shown-InSync :
    (v : View) (theme : Text) (kept : Option Text) (i j : ℕ)
    → InSync v
    → InSync (record v { shown_theme = theme; saved_theme = kept; log_page = i; task_page = j })
unfolding draw_logs
shown-InSync v theme kept i j s = record {
  ms = s.ms;
  ms_nonzero = s.ms_nonzero;
  timer = s.timer;
  log_page = s.log_page;
  log_nonzero = s.log_nonzero;
  log_drawn = s.log_drawn;
  task_page = s.task_page;
  task_nonzero = s.task_nonzero;
  log_size = s.log_size;
}

set_timer-InSync :
    (v : View) (t : Option ℤ)
    → (t ≡ none) ⊎ (t ≡ some v.auto_refresh_ms)
    → InSync v
    → InSync (record v { timer = t })
unfolding draw_logs
set_timer-InSync v t running s = record {
  ms = s.ms;
  ms_nonzero = s.ms_nonzero;
  timer = running;
  log_page = s.log_page;
  log_nonzero = s.log_nonzero;
  log_drawn = s.log_drawn;
  task_page = s.task_page;
  task_nonzero = s.task_nonzero;
  log_size = s.log_size;
}

-- Drawing the log list, after another size was picked or the same one.
pick_log_size-InSync :
    (v : View) (value : Text) → IsSize value → InSync v → InSync (pick_log_size value v)
unfolding pick_log_size draw_logs
pick_log_size-InSync v value size s =
    let picked = int_or-IsSize value v.log_page_size size in
    record {
      ms = s.ms;
      ms_nonzero = s.ms_nonzero;
      timer = s.timer;
      log_page = inr picked;
      log_nonzero = rw picked size;
      log_drawn = int_or-IsSize value _ size;
      task_page = s.task_page;
      task_nonzero = s.task_nonzero;
      log_size = size;
    }

pick_task_size-InSync : (v : View) (value : Text) → InSync v → InSync (pick_task_size value v)
unfolding pick_task_size draw_logs
pick_task_size-InSync v value s = record {
  ms = s.ms;
  ms_nonzero = s.ms_nonzero;
  timer = s.timer;
  log_page = s.log_page;
  log_nonzero = s.log_nonzero;
  log_drawn = s.log_drawn;
  task_page = inr refl;
  task_nonzero = int_or-nonzero value 19;
  log_size = s.log_size;
}

draw-InSync : (v : View) → InSync v → InSync (draw_logs v)
unfolding pick_log_size draw_logs
draw-InSync v s =
    shown-InSync _ v.shown_theme v.saved_theme v.log_page v.task_page
      (pick_log_size-InSync v v.log_size s.log_size s)

start-InSync : (v : View) → InSync v → InSync (start_auto_refresh v)
unfolding start_auto_refresh stop_auto_refresh
start-InSync v s = set_timer-InSync v (some v.auto_refresh_ms) (inr refl) s

init-InSync : (v : View) (raw : Option Stored) → IsSize v.log_size → InSync (init v raw)
unfolding init load_settings theme_init
init-InSync v raw size =
    start-InSync _ (draw-InSync _ (shown-InSync _ _ _ _ _ (apply_settings-InSync _ size)))

save-InSync :
    (v : View) (written : Bool) (lang : Text) (f : SettingsForm)
    → InSync v
    → InSync (handle_save_settings written lang v f).0
unfolding handle_save_settings save_settings theme_init
save-InSync v false lang f s = s
save-InSync v true lang f s =
    elim (Bool-cases (text_eq (form_settings v.settings f).theme (codes "auto"))) [
      | inl auto ↦
          rw auto (draw-InSync _ (shown-InSync _ _ _ _ _ (apply_settings-InSync _ s.log_size)))
      | inr named ↦
          rw named (draw-InSync _ (shown-InSync _ _ _ _ _ (apply_settings-InSync _ s.log_size)))
    ]

reset-InSync : (v : View) (written : Bool) → InSync v → InSync (handle_reset_settings written v).0
unfolding handle_reset_settings save_settings
reset-InSync v false s = s
reset-InSync v true s = apply_settings-InSync _ s.log_size

-- In every view that the page can come to, from a start with a number in the select for the log
-- list's page size and only such numbers picked there, the interval of the refresh timer is that of
-- the settings, and so is a page size unless it is the one that its select shows; none of them is
-- 0. The next drawing of the log list takes the size of the select, whatever the settings say.
pub Reachable-InSync : (v : View) → Reachable v → InSync v
unfolding load_settings stop_auto_refresh
Reachable-InSync _ (started v raw size) = init-InSync v raw size
Reachable-InSync _ (loaded v raw r) = apply_settings-InSync _ (Reachable-InSync v r).log_size
Reachable-InSync _ (saved v written lang f r) = save-InSync v written lang f (Reachable-InSync v r)
Reachable-InSync _ (reset v written r) = reset-InSync v written (Reachable-InSync v r)
Reachable-InSync _ (stopped v r) = set_timer-InSync v none (inl refl) (Reachable-InSync v r)
Reachable-InSync _ (restarted v r) = start-InSync v (Reachable-InSync v r)
Reachable-InSync _ (drawn v r) = draw-InSync v (Reachable-InSync v r)
Reachable-InSync _ (log_picked v value size r) =
    pick_log_size-InSync v value size (Reachable-InSync v r)
Reachable-InSync _ (task_picked v value r) = pick_task_size-InSync v value (Reachable-InSync v r)
Reachable-InSync _ (turned v i j r) =
    shown-InSync v v.shown_theme v.saved_theme i j (Reachable-InSync v r)
