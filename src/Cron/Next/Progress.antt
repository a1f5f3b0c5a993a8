-- ===== src/Cron/Next/Progress.antt =====
-- A round of `nextRunTimeAfter` comes nearer to the end: to a later day, or on the same day nearer to
-- an instant that matches.
use cockpit_cronplus.Common.{
  ℕ, zero, suc, ◌+◌, ◌≤◌, ◌<◌, ◌≡◌, inl, inr, ◌⊎◌, arith, Bool, true, false, subst,
}
use cockpit_cronplus.Cron.Calendar.{day_number, year, month, hour, minute, second}
use cockpit_cronplus.Cron.Calendar.Jump
use cockpit_cronplus.Cron.Calendar.Months
use cockpit_cronplus.Cron.Calendar.Bounds.{date_ranges}
use cockpit_cronplus.Cron.Field.{Field, field_matches}
use cockpit_cronplus.Cron.Field.Next.{IsRanged, Wrapped}
use cockpit_cronplus.Cron.Next.{Fields, jump, next_move}
use cockpit_cronplus.Cron.Next.Skip.{AreRanged}
use cockpit_cronplus.Cron.Next.Round.{
  JumpsTo, move_on-JumpsTo, sec_onward, sec_wrapped, min_onward, min_wrapped, hour_onward,
  hour_wrapped, month_onward, month_wrapped, next_day, sec_move, min_move, hour_move, month_move,
  next_move-JumpsTo,
}
use cockpit_cronplus.Cron.Next.Rank.{
  rank, rank_of_sec, rank_of_min, rank_of_hour_min, rank_of_hour, rank_of_no_sec, rank_of_late_sec,
  rank_of_no_min, rank_of_late_min, second-at_time, minute-at_time, hour-at_time, day-at_time,
}

-- To a later day, or to a lower rank.
abbrev pub Progress : Fields → ℕ → ℕ → Type 0
Progress f c c' =
    (day_number c < day_number c') ⊎ ((day_number c ≤ day_number c') × (rank f c' < rank f c))

-- A wrap starts from a number above 0, since the least value is none from there on.
Wrapped-positive : (lo hi : ℕ) (f : Field) (k : ℕ) → Wrapped lo hi f k → 0 < k
Wrapped-positive lo hi f zero w = absurd (cc (w.hit, w.over w.value (omega arith)))
Wrapped-positive lo hi f (suc k) w = omega arith

module _ (day_any dow_any : Bool) (f : Fields) where
  sec-Progress :
      (c : ℕ)
      → IsRanged 0 59 f.sec
      → field_matches f.hour (hour c) ≡ true
      → field_matches f.min (minute c) ≡ true
      → field_matches f.sec (second c) ≡ false
      → JumpsTo (Progress f c) (sec_move f c)
  unfolding rank
  sec-Progress c r h_on mi_on miss =
      let bounds = date_ranges c in
      move_on-JumpsTo (Progress f c) 0 59 f.sec (second c) (sec_onward c) (sec_wrapped c) r miss
        (λ v a.
          rw (a.is_value, Jump.on_day c (hour c) (minute c) a.value)
            (inr (
              day-at_time _ _ _ _,
              rw
                  (
                    hour-at_time _ _ _ a.value bounds.2 bounds.1 a.within,
                    minute-at_time _ _ _ a.value bounds.1 a.within,
                    second-at_time _ _ _ a.value a.within,
                    h_on,
                    mi_on,
                    miss,
                    a.hit,
                  )
                  (omega (arith, rank_of_no_sec (minute c) (second c))),
            )))
        (λ w.
          rw (w.is_value, Jump.on_day c (hour c) (minute c + 1) w.value)
            (inr (
              day-at_time _ _ _ _,
              rw (second-at_time _ _ _ w.value w.within, h_on, mi_on, miss, w.hit)
                  (omega (
                    arith,
                    rank_of_sec _ _ _ _,
                    rank_of_late_sec (minute c) (second c)
                        (Wrapped-positive 0 59 f.sec (second c) w),
                  )),
            )))

  min-Progress :
      (c : ℕ)
      → IsRanged 0 59 f.min
      → field_matches f.hour (hour c) ≡ true
      → field_matches f.min (minute c) ≡ false
      → JumpsTo (Progress f c) (min_move f c)
  unfolding rank
  min-Progress c r h_on miss =
      let bounds = date_ranges c in
      move_on-JumpsTo (Progress f c) 0 59 f.min (minute c) (min_onward c) (min_wrapped c) r miss
        (λ v a.
          rw (a.is_value, Jump.on_day c (hour c) a.value 0)
            (inr (
              day-at_time _ _ _ 0,
              rw
                  (
                    hour-at_time (day_number c) (hour c) a.value 0 bounds.2 a.within (omega arith),
                    minute-at_time (day_number c) (hour c) a.value 0 a.within (omega arith),
                    second-at_time (day_number c) (hour c) a.value 0 (omega arith),
                    h_on,
                    miss,
                    a.hit,
                  )
                  (omega (arith, rank_of_hour_min _ _, rank_of_no_min _ (minute c) (second c))),
            )))
        (λ w.
          rw (w.is_value, Jump.on_day c (hour c + 1) w.value 0)
            (inr (
              day-at_time _ _ _ 0,
              rw
                  (
                    minute-at_time (day_number c) (hour c + 1) w.value 0 w.within (omega arith),
                    second-at_time (day_number c) (hour c + 1) w.value 0 (omega arith),
                    h_on,
                    miss,
                    w.hit,
                  )
                  (omega (
                    arith,
                    rank_of_min _ _ _,
                    rank_of_late_min _ (minute c) (second c)
                        (Wrapped-positive 0 59 f.min (minute c) w),
                  )),
            )))

  hour-Progress :
      (c : ℕ)
      → IsRanged 0 23 f.hour
      → field_matches f.hour (hour c) ≡ false
      → JumpsTo (Progress f c) (hour_move f c)
  unfolding rank
  hour-Progress c r miss =
      move_on-JumpsTo (Progress f c) 0 23 f.hour (hour c) (hour_onward c) (hour_wrapped c) r miss
        (λ v a.
          rw (a.is_value, Jump.on_day c a.value 0 0)
            (inr (
              day-at_time _ _ 0 0,
              rw
                  (
                    hour-at_time (day_number c) a.value 0 0 a.within (omega arith) (omega arith),
                    minute-at_time (day_number c) a.value 0 0 (omega arith) (omega arith),
                    second-at_time (day_number c) a.value 0 0 (omega arith),
                    miss,
                    a.hit,
                  )
                  (omega (arith, rank_of_hour _ _)),
            )))
        (λ w.
          rw (w.is_value, Jump.on_next_day c w.value 0 0)
            (inl (omega (arith, day-at_time (day_number c + 1) w.value 0 0))))

  next_day-Progress : (c : ℕ) → Progress f c (next_day c)
  next_day-Progress c =
      rw (Jump.on_next_day c 0 0 0) (inl (omega (arith, day-at_time (day_number c + 1) 0 0 0)))

  month-Progress :
      (c : ℕ)
      → IsRanged 1 12 f.month
      → field_matches f.month (month c) ≡ false
      → JumpsTo (Progress f c) (month_move f c)
  unfolding day_number
  month-Progress c r miss =
      move_on-JumpsTo (Progress f c) 1 12 f.month (month c) (month_onward c) (month_wrapped c) r
        miss
        (λ v a.
          rw (a.is_value, Jump.at_month (year c) a.value (omega (arith, a.ahead)) a.within)
            (inl (omega (arith, Months.month_later c a.value a.ahead))))
        (λ w.
          rw (w.is_value, Jump.at_month (year c + 1) w.value w.least w.within)
            (inl (omega (arith, Months.next_year_later c w.value))))

  pub next_move-Progress :
      (c : ℕ) {c' : ℕ} → AreRanged f → next_move day_any dow_any f c ≡ jump c' → Progress f c c'
  next_move-Progress c r e = subst (JumpsTo (Progress f c)) e (
      next_move-JumpsTo (Progress f c) day_any dow_any f c (month-Progress c r.month)
        (λ _. next_day-Progress c) (hour-Progress c r.hour) (min-Progress c r.min)
        (sec-Progress c r.sec))
