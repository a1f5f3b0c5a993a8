-- ===== src/App/DaemonLog/Parse/Level.antt =====
-- app.js: what `_detectLevel` makes of the level that a line states.
use cockpit_cronplus.Common.{
  ◌≡◌, ◌≤◌, refl, true, false, Text, codes, text_eq, arith, Bool-cases, inl, inr, text_eq→eq,
}
use cockpit_cronplus.App.DaemonLog.{level_rank}
use cockpit_cronplus.App.DaemonLog.Parse.{detect_level}

rank-kept :
    (level name msg : Text)
    → text_eq level name ≡ true
    → level_rank name ≤ level_rank (detect_level name msg)
    → level_rank level ≤ level_rank (detect_level level msg)
rank-kept level name msg e h = rw (text_eq→eq level name e) h

rank-other :
    (level : Text)
    → text_eq level (codes "INFO") ≡ false
    → text_eq level (codes "WARNING") ≡ false
    → text_eq level (codes "ERROR") ≡ false
    → text_eq level (codes "CRITICAL") ≡ false
    → level_rank level ≡ 0
unfolding level_rank
rank-other level i w e c = rw (i, w, e, c) refl

rank-info : (msg : Text) → 1 ≤ level_rank (detect_level (codes "INFO") msg)
unfolding level_rank detect_level
rank-info msg = ground arith

-- The level that is detected is never below the one that the line states.
pub detect_level-level_rank :
    (level msg : Text) → level_rank level ≤ level_rank (detect_level level msg)
unfolding level_rank detect_level
detect_level-level_rank level msg = elim (Bool-cases (text_eq level (codes "INFO"))) [
  | inl i ↦ rank-kept level (codes "INFO") msg i (rank-info msg)
  | inr i ↦ elim (Bool-cases (text_eq level (codes "WARNING"))) [
    | inl w ↦ rank-kept level (codes "WARNING") msg w (omega arith)
    | inr w ↦ elim (Bool-cases (text_eq level (codes "ERROR"))) [
      | inl e ↦ rank-kept level (codes "ERROR") msg e (omega arith)
      | inr e ↦ elim (Bool-cases (text_eq level (codes "CRITICAL"))) [
        | inl c ↦ rank-kept level (codes "CRITICAL") msg c (omega arith)
        | inr c ↦ rw (rank-other level i w e c) (omega arith)
      ]
    ]
  ]
]
