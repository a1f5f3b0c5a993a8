-- ===== src/App/DaemonLog/Timer/Invariant.antt =====
-- app.js, the timer of the daemon's log: no interval is left behind.
use cockpit_cronplus.Common.{
  ℕ, ◌≡◌, refl, sym, ap, Bool, true, false, ◌&&◌, none, some, List, [], ◌∷◌, if◌then◌else◌, Text,
  text_eq, Bool-cases, ◌⊎◌, inl, inr, ==_refl, subst, text_eq→eq, ℤ,
}
use cockpit_cronplus.App.DaemonLog.{Line}
use cockpit_cronplus.App.DaemonLog.Timer.{
  DaemonView, daemon, interval_ms, clear_interval, stop_timer, start_if, start_timer, select_tab,
  press_tab, change_auto, change_interval, clear_file, refused, failed, cleared, Step, clicks,
  checks, selects, clears, goes, Reaches, here, next,
}

-- One interval runs while the daemon's tab is shown with the checkbox set, at the pace that the
-- controls say, and none runs else.
abbrev is_followed : DaemonView → Bool
is_followed v = text_eq v.tab daemon && v.auto_refresh

abbrev pub Follows : Bool → DaemonView → Type 0
Follows true v = (id : ℕ) × (v.timer ≡ some id) × (v.running ≡ (id, interval_ms v) ∷ [])
Follows false v = (v.timer ≡ none) × (v.running ≡ [])

abbrev pub IsFollowing : DaemonView → Type 0
IsFollowing v = Follows (is_followed v) v

abbrev IsSingle : DaemonView → Type 0
IsSingle v =
    (Follows false v) ⊎ ((id : ℕ) × (ms : ℤ) × (v.timer ≡ some id) × (v.running ≡ (id, ms) ∷ []))

Follows-IsSingle : (b : Bool) (v : DaemonView) → Follows b v → IsSingle v
Follows-IsSingle true v (id, timer, running) = inr (id, interval_ms v, timer, running)
Follows-IsSingle false v h = inl h

clear_interval-IsSingle : (v : DaemonView) → IsSingle v → clear_interval v.timer v.running ≡ []
clear_interval-IsSingle v (inl (timer, running)) = rw (timer, running) refl
clear_interval-IsSingle v (inr (id, ms, timer, running)) = rw (timer, running, ==_refl id) refl

stop_timer-Follows : (v : DaemonView) → IsSingle v → Follows false (stop_timer v)
unfolding stop_timer
stop_timer-Follows v h = (refl, clear_interval-IsSingle v h)

Follows-is : (b c : Bool) (v : DaemonView) → b ≡ c → Follows b v → Follows c v
Follows-is b c v e h = subst (λ x. Follows x v) e h

start_if-IsFollowing :
    (b : Bool) (v : DaemonView)
    → v.auto_refresh ≡ b
    → v.tab ≡ daemon
    → Follows false v
    → IsFollowing (start_if b v)
unfolding interval_ms
start_if-IsFollowing false v auto on h = Follows-is false (is_followed v) v (rw (on, auto) refl) h
start_if-IsFollowing true v auto on (timer, running) =
    Follows-is true (is_followed v) (start_if true v) (rw (on, auto) refl)
      (v.issued, refl, ap (λ rest. (v.issued, interval_ms v) ∷ rest) running)

-- On the daemon's tab a start makes the view follow.
start_timer-IsFollowing :
    (v : DaemonView) → v.tab ≡ daemon → IsSingle v → IsFollowing (start_timer v)
unfolding start_timer stop_timer
start_timer-IsFollowing v on h =
    start_if-IsFollowing v.auto_refresh (stop_timer v) refl on (stop_timer-Follows v h)

restart-IsFollowing :
    (b : Bool) (v : DaemonView)
    → v.auto_refresh ≡ b
    → v.tab ≡ daemon
    → IsSingle v
    → (b ≡ false → Follows false v)
    → IsFollowing (if b then start_timer v else v)
restart-IsFollowing true v auto on single off = start_timer-IsFollowing v on single
restart-IsFollowing false v auto on single off =
    Follows-is false (is_followed v) v (rw (on, auto) refl) (off refl)

Follows-lines :
    (b : Bool) (v : DaemonView) (ls : List Line) → Follows b v → Follows b (record v { lines = ls })
unfolding interval_ms
Follows-lines true v ls h = h
Follows-lines false v ls h = h

press_tab-IsFollowing : (v : DaemonView) (name : Text) → IsSingle v → IsFollowing (press_tab name v)
unfolding press_tab select_tab stop_timer
press_tab-IsFollowing v name single = elim (Bool-cases (text_eq name daemon)) [
  | inl on ↦
      let follows =
        start_timer-IsFollowing (select_tab name v) (text_eq→eq name daemon on) single in
      subst
        (λ b.
          IsFollowing
            (if b then start_timer (select_tab name v) else stop_timer (select_tab name v)))
        (sym on) follows
  | inr off ↦
      let follows =
        Follows-is false (is_followed (stop_timer (select_tab name v))) _ (rw off refl)
          (stop_timer-Follows (select_tab name v) single) in
      subst
        (λ b.
          IsFollowing
            (if b then start_timer (select_tab name v) else stop_timer (select_tab name v)))
        (sym off) follows
]

Step-IsFollowing : {v w : DaemonView} → Step v w → IsFollowing v → IsFollowing w
unfolding change_auto change_interval clear_file select_tab stop_timer
Step-IsFollowing (clicks v name) h =
    press_tab-IsFollowing v name (Follows-IsSingle (is_followed v) v h)
Step-IsFollowing (checks v true on) h =
    start_timer-IsFollowing (record v { auto_refresh = true }) on
      (Follows-IsSingle (is_followed v) v h)
Step-IsFollowing (checks v false on) h =
    Follows-is false (is_followed (record v { auto_refresh = false })) _ (rw on refl) (
      stop_timer-Follows (record v { auto_refresh = false }) (Follows-IsSingle (is_followed v) v h))
Step-IsFollowing (selects v value on) h =
    restart-IsFollowing v.auto_refresh (record v { interval = value }) refl on
      (Follows-IsSingle (is_followed v) v h)
      (λ off. Follows-is (is_followed v) false v (rw (on, off) refl) h)
Step-IsFollowing (clears v refused on) h = h
Step-IsFollowing (clears v failed on) h = h
Step-IsFollowing (clears v cleared on) h = Follows-lines (is_followed v) v [] h
Step-IsFollowing (goes v on) h = Follows-is (is_followed v) false v (rw on refl) h

-- From a page on another tab with no interval, every sequence of clicks on the tabs and of changes of
-- the controls leaves one interval running, at the pace of the controls, while the daemon's tab is
-- shown with the checkbox set, and none else.
pub Reaches-IsFollowing :
    {v w : DaemonView}
    → Reaches v w
    → text_eq v.tab daemon ≡ false
    → v.timer ≡ none
    → v.running ≡ []
    → IsFollowing w
Reaches-IsFollowing (here {v}) off timer running =
    Follows-is false (is_followed v) v (rw off refl) (timer, running)
Reaches-IsFollowing (next r s) off timer running =
    Step-IsFollowing s (Reaches-IsFollowing r off timer running)
