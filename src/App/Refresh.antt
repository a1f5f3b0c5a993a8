-- ===== src/App/Refresh.antt =====
-- app.js, the automatic refresh and its guards: `autoRefresh`, the refresh button, and the listeners
-- that hold it back while the user does something. A refresh is two events: it begins, and it settles
-- in its `finally`; what happens between them are other events.
use cockpit_cronplus.Common.{
  ℕ, suc, ◌≡◌, refl, ◌∙◌, Bool, true, false, ◌||◌, Option, none, some, List, [], ◌∷◌, if◌then◌else◌,
  Text, codes, text_eq, any, all, length, ltb, ◌≤◌, arith, &&_parts,
}

-- What the guards read of the page: which dialogs are shown, `document.activeElement.tagName`,
-- whether a log entry is expanded, and the tab.
pub record Screen : Type 0 where
  pub task_modal : Bool
  pub output_modal : Bool
  pub cleanup_modal : Bool
  pub settings_modal : Bool
  pub tag : Text
  pub expanded : Bool
  pub tab : Text

pub data Source : Type 0 where
  auto button : Source

-- `refreshing`, `userInteracting`, and the delay of the timeout that `interactionTimer` names, none
-- if no timeout is pending. `in_flight` are the refreshes that have not settled, and `begun` counts
-- the automatic ones.
pub record Refresher : Type 0 where
  pub screen : Screen
  pub refreshing : Bool
  pub interacting : Bool
  pub timeout : Option ℕ
  pub in_flight : List Source
  pub begun : ℕ

-- `/^(INPUT|SELECT|TEXTAREA)$/.test(tag)`
abbrev pub is_field : Text → Bool
is_field tag = any (text_eq tag) (codes "INPUT" ∷ codes "SELECT" ∷ codes "TEXTAREA" ∷ [])

-- The guards of `autoRefresh` in their order.
unfoldable pub is_held : Refresher → Bool
is_held r =
    r.refreshing
    || r.screen.task_modal
    || r.screen.output_modal
    || r.screen.cleanup_modal
    || r.screen.settings_modal
    || r.interacting
    || is_field r.screen.tag
    || r.screen.expanded

pub data Call : Type 0 where
  load_tasks load_logs load_running render_tasks render_logs : Call
  message : Text → Call

-- What a refresh does from its beginning on, where nothing throws: the tab is the one that is active
-- when the loading is done.
unfoldable pub refresh_calls : Source → Text → List Call
refresh_calls auto tab =
    let render : List Call =
      if text_eq tab (codes "tasks")
      then render_tasks ∷ []
      else if text_eq tab (codes "logs")
      then render_logs ∷ []
      else [] in
    load_tasks ∷ load_logs ∷ load_running ∷ render
refresh_calls button tab =
    load_tasks
    ∷ load_logs
    ∷ load_running
    ∷ render_tasks
    ∷ render_logs
    ∷ message (codes "toast.refreshed")
    ∷ []

-- `autoRefresh` up to its first await.
unfoldable pub auto_refresh : Refresher → Refresher
auto_refresh r =
    if is_held r
    then r
    else record r { refreshing = true; in_flight = auto ∷ r.in_flight; begun = suc r.begun }

-- The click on the refresh button.
unfoldable pub press_refresh : Refresher → Refresher
press_refresh r =
    if r.refreshing then r else record r { refreshing = true; in_flight = button ∷ r.in_flight }

-- The `finally` of the refresh that began last.
unfoldable pub settle_refresh : Refresher → Refresher
settle_refresh r = elim r.in_flight [
  | [] ↦ r
  | _ ∷ rest ↦ record r { refreshing = false; in_flight = rest }
]

-- `markInteracting`
unfoldable pub mark_interacting : Refresher → Refresher
mark_interacting r = record r { interacting = true; timeout = some 5000 }

-- The listeners of `focusin` and `focusout`; the first one reads the focused element.
unfoldable pub focus_in : Refresher → Refresher
focus_in r = if is_field r.screen.tag then record r { interacting = true; timeout = none } else r

unfoldable pub focus_out : Refresher → Refresher
focus_out r = record r { timeout = some 2000 }

-- The end of the timeout.
unfoldable pub expire : Refresher → Refresher
expire r = elim r.timeout [ none ↦ r | some _ ↦ record r { interacting = false; timeout = none } ]

pub data Event : Type 0 where
  tick press settles moves focuses leaves expires : Event
  shows : Screen → Event

unfoldable pub step : Refresher → Event → Refresher
step r tick = auto_refresh r
step r press = press_refresh r
step r settles = settle_refresh r
step r moves = mark_interacting r
step r focuses = focus_in r
step r leaves = focus_out r
step r expires = expire r
step r (shows screen) = record r { screen = screen }

abbrev pub run : Refresher → List Event → Refresher
run r [] = r
run r (e ∷ es) = run (step r e) es

-- At most one refresh is under way, and `refreshing` says whether there is one.
abbrev pub IsSingle : Refresher → Type 0
IsSingle r = (r.refreshing ≡ ltb 0 (length r.in_flight)) × (length r.in_flight ≤ 1)

step-IsSingle : (r : Refresher) (e : Event) → IsSingle r → IsSingle (step r e)
unfolding step auto_refresh press_refresh settle_refresh mark_interacting focus_in focus_out expire
    is_held
step-IsSingle r e h = ground arith

-- Whatever happens, at most one refresh is under way, and `refreshing` is set exactly while one is.
pub run-IsSingle : (es : List Event) (r : Refresher) → IsSingle r → IsSingle (run r es)
run-IsSingle [] r h = h
run-IsSingle (e ∷ es) r h = run-IsSingle es (step r e) (step-IsSingle r e h)

abbrev pub is_other : Event → Bool
is_other expires = false
is_other _ = true

step-interacting :
    (r : Refresher) (e : Event)
    → r.interacting ≡ true
    → is_other e ≡ true
    → ((step r e).interacting ≡ true) × ((step r e).begun ≡ r.begun)
unfolding step auto_refresh press_refresh settle_refresh mark_interacting focus_in focus_out is_held
step-interacting r e h o = ground arith

run-interacting :
    (es : List Event) (r : Refresher)
    → r.interacting ≡ true
    → all is_other es ≡ true
    → (run r es).begun ≡ r.begun
run-interacting [] r h o = refl
run-interacting (e ∷ es) r h o =
    let (other, others) = &&_parts (is_other e) (all is_other es) o in
    let (still, same) = step-interacting r e h other in
    run-interacting es (step r e) still others ∙ same

-- After the mouse was moved no automatic refresh begins before a timeout expires.
pub run-mark_interacting :
    (es : List Event) (r : Refresher)
    → all is_other es ≡ true
    → (run (mark_interacting r) es).begun ≡ r.begun
unfolding mark_interacting
run-mark_interacting es r o = run-interacting es (mark_interacting r) refl o
