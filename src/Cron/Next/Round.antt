-- ===== src/Cron/Next/Round.antt =====
-- A round of `nextRunTimeAfter`, branch by branch: where each unit that fails goes on.
use cockpit_cronplus.Common.{
  ℕ, ◌+◌, ◌≡◌, inl, inr, Bool, true, false, Option-cases, Bool-cases, ℤ, pos, leb_ℤ,
}
use cockpit_cronplus.Cron.Calendar.{year, month, date, weekday, hour, minute, second, make_date}
use cockpit_cronplus.Cron.Field.{Field, field_matches, field_next_after, field_min}
use cockpit_cronplus.Cron.Field.Next.{
  IsRanged, Ahead, Wrapped, field_next_after-Ahead, field_next_after-Wrapped,
}
use cockpit_cronplus.Cron.Next.{
  Fields, Move, found, invalid, jump, dow_matches, day_fails, move_on, next_move,
}

-- If a round jumps, then to an instant with the property.
abbrev pub JumpsTo : (ℕ → Type 0) → Move → Type 0
JumpsTo P (jump c') = P c'
JumpsTo P found = Unit
JumpsTo P invalid = Unit

-- A unit that fails goes on to its next value, or to the first value of the following unit.
pub move_on-JumpsTo :
    (P : ℕ → Type 0) (lo hi : ℕ) (f : Field) (k : ℕ) (onward : ℤ → ℕ) (wrapped : ℤ → ℕ)
    → IsRanged lo hi f
    → field_matches f k ≡ false
    → ((v : ℤ) → Ahead hi f k v → P (onward v))
    → (Wrapped lo hi f k → P (wrapped (field_min f lo)))
    → JumpsTo P (move_on (field_next_after f k) k onward (wrapped (field_min f lo)))
move_on-JumpsTo P lo hi f k onward wrapped r miss ahead back =
    elim (Option-cases (field_next_after f k)) [
      | inl stuck ↦ rw (stuck, move_on) tt
      | inr (v, next) ↦ elim (Bool-cases (leb_ℤ v (pos k))) [
        | inl again ↦
            rw (next, move_on, again)
              (back (field_next_after-Wrapped lo hi f k {v = v} r miss next again))
        | inr further ↦
            rw (next, move_on, further)
              (ahead v (field_next_after-Ahead lo hi f k {v = v} r miss next further))
      ]
    ]

-- The two instants of each unit: on the same run of the unit, and on the next.
module _ (c : ℕ) (v : ℤ) where
  abbrev pub sec_onward : ℕ
  sec_onward = make_date (year c) (pos (month c)) (date c) (pos (hour c)) (pos (minute c)) v

  abbrev pub sec_wrapped : ℕ
  sec_wrapped = make_date (year c) (pos (month c)) (date c) (pos (hour c)) (pos (minute c + 1)) v

  abbrev pub min_onward : ℕ
  min_onward = make_date (year c) (pos (month c)) (date c) (pos (hour c)) v (pos 0)

  abbrev pub min_wrapped : ℕ
  min_wrapped = make_date (year c) (pos (month c)) (date c) (pos (hour c + 1)) v (pos 0)

  abbrev pub hour_onward : ℕ
  hour_onward = make_date (year c) (pos (month c)) (date c) v (pos 0) (pos 0)

  abbrev pub hour_wrapped : ℕ
  hour_wrapped = make_date (year c) (pos (month c)) (date c + 1) v (pos 0) (pos 0)

  abbrev pub month_onward : ℕ
  month_onward = make_date (year c) v 1 (pos 0) (pos 0) (pos 0)

  abbrev pub month_wrapped : ℕ
  month_wrapped = make_date (year c + 1) v 1 (pos 0) (pos 0) (pos 0)

abbrev pub next_day : ℕ → ℕ
next_day c = make_date (year c) (pos (month c)) (date c + 1) (pos 0) (pos 0) (pos 0)

-- What the branches of a round do.
module _ (f : Fields) (c : ℕ) where
  abbrev pub sec_move : Move
  sec_move =
      move_on (field_next_after f.sec (second c)) (second c) (sec_onward c)
        (sec_wrapped c (field_min f.sec 0))

  abbrev pub min_move : Move
  min_move =
      move_on (field_next_after f.min (minute c)) (minute c) (min_onward c)
        (min_wrapped c (field_min f.min 0))

  abbrev pub hour_move : Move
  hour_move =
      move_on (field_next_after f.hour (hour c)) (hour c) (hour_onward c)
        (hour_wrapped c (field_min f.hour 0))

  abbrev pub month_move : Move
  month_move =
      move_on (field_next_after f.month (month c)) (month c) (month_onward c)
        (month_wrapped c (field_min f.month 1))

-- A property that every branch gives its jump.
pub next_move-JumpsTo :
    (P : ℕ → Type 0) (day_any dow_any : Bool) (f : Fields) (c : ℕ)
    → (field_matches f.month (month c) ≡ false → JumpsTo P (month_move f c))
    → (day_fails day_any dow_any (field_matches f.day (date c)) (dow_matches f.dow (weekday c))
          ≡ true
        → P (next_day c))
    → (field_matches f.hour (hour c) ≡ false → JumpsTo P (hour_move f c))
    → (field_matches f.hour (hour c) ≡ true
        → field_matches f.min (minute c) ≡ false
        → JumpsTo P (min_move f c))
    → (field_matches f.hour (hour c) ≡ true
        → field_matches f.min (minute c) ≡ true
        → field_matches f.sec (second c) ≡ false
        → JumpsTo P (sec_move f c))
    → JumpsTo P (next_move day_any dow_any f c)
unfolding next_move
next_move-JumpsTo P day_any dow_any f c by_month by_day by_hour by_min by_sec =
    elim (Bool-cases (field_matches f.month (month c))) [
      | inr month_off ↦ rw month_off (by_month month_off)
      | inl month_on ↦
          elim (Bool-cases (
            day_fails day_any dow_any (field_matches f.day (date c))
              (dow_matches f.dow (weekday c)))) [
                | inl day_off ↦ rw (month_on, day_off) (by_day day_off)
                | inr day_on ↦ elim (Bool-cases (field_matches f.hour (hour c))) [
                  | inr hour_off ↦ rw (month_on, day_on, hour_off) (by_hour hour_off)
                  | inl hour_on ↦ elim (Bool-cases (field_matches f.min (minute c))) [
                    | inr min_off ↦ rw (month_on, day_on, hour_on, min_off) (by_min hour_on min_off)
                    | inl min_on ↦ elim (Bool-cases (field_matches f.sec (second c))) [
                      | inr sec_off ↦
                          rw (month_on, day_on, hour_on, min_on, sec_off)
                            (by_sec hour_on min_on sec_off)
                      | inl sec_on ↦ rw (month_on, day_on, hour_on, min_on, sec_on) tt
                    ]
                  ]
                ]
              ]
    ]
