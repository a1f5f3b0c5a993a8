-- ===== src/Cron/Next/Skip.antt =====
-- A round of `nextRunTimeAfter` passes over no instant that matches, and goes forward.
use cockpit_cronplus.Common.{ℕ, ◌+◌, ◌*◌, ◌≤◌, ◌<◌, ◌≡◌, inl, inr, arith, Bool, true, false, subst}
use cockpit_cronplus.Cron.Calendar.{day_number, year, month, date, weekday, hour, minute, second}
use cockpit_cronplus.Cron.Calendar.Jump
use cockpit_cronplus.Cron.Calendar.Months
use cockpit_cronplus.Cron.Field.{field_matches}
use cockpit_cronplus.Cron.Field.Next.{IsRanged}
use cockpit_cronplus.Cron.Next.{Fields, jump, dow_matches, day_fails, next_move}
use cockpit_cronplus.Cron.Next.Round.{
  JumpsTo, move_on-JumpsTo, sec_onward, sec_wrapped, min_onward, min_wrapped, hour_onward,
  hour_wrapped, month_onward, month_wrapped, next_day, sec_move, min_move, hour_move, month_move,
  next_move-JumpsTo,
}
use cockpit_cronplus.Cron.Next.Sound.{fields_match}

-- Each field's values lie in the range of its unit.
pub record AreRanged (f : Fields) : Type 0 where
  pub sec : IsRanged 0 59 f.sec
  pub min : IsRanged 0 59 f.min
  pub hour : IsRanged 0 23 f.hour
  pub month : IsRanged 1 12 f.month

-- A jump: to a later instant, with none between that satisfies the test.
pub record Skips (test : ℕ → Bool) (c c' : ℕ) : Type 0 where
  pub later : c < c'
  pub over : (u : ℕ) → c ≤ u → u < c' → test u ≡ false

module _ (day_any dow_any : Bool) (f : Fields) where
  abbrev test : ℕ → Bool
  test = fields_match day_any dow_any f

  -- An instant fails where one of its fields does.
  sec_fails : (u : ℕ) → field_matches f.sec (second u) ≡ false → test u ≡ false
  unfolding fields_match
  sec_fails u e = ground (arith, e)

  min_fails : (u : ℕ) → field_matches f.min (minute u) ≡ false → test u ≡ false
  unfolding fields_match
  min_fails u e = ground (arith, e)

  hour_fails : (u : ℕ) → field_matches f.hour (hour u) ≡ false → test u ≡ false
  unfolding fields_match
  hour_fails u e = ground (arith, e)

  month_fails : (u : ℕ) → field_matches f.month (month u) ≡ false → test u ≡ false
  unfolding fields_match
  month_fails u e = ground (arith, e)

  date_fails :
      (u : ℕ)
      → day_fails day_any dow_any (field_matches f.day (date u)) (dow_matches f.dow (weekday u))
        ≡ true
      → test u ≡ false
  unfolding fields_match
  date_fails u e = ground (arith, e)

  sec-Skips :
      (c : ℕ)
      → IsRanged 0 59 f.sec
      → field_matches f.sec (second c) ≡ false
      → JumpsTo (Skips test c) (sec_move f c)
  sec-Skips c r miss =
      move_on-JumpsTo (Skips test c) 0 59 f.sec (second c) (sec_onward c) (sec_wrapped c) r miss
        (λ v a.
          rw
            (
              a.is_value,
              Jump.on_day c (hour c) (minute c) a.value,
              Jump.minute_floor c (a.value * 1000),
            )
            (record {
              later = Jump.second_later c a.value a.ahead;
              over = λ u le lt.
                  let (from, to) = Jump.second_ahead c u a.value le a.within lt in
                  sec_fails u (a.gap (second u) from to);
            }))
        (λ w.
          rw
            (
              w.is_value,
              Jump.on_day c (hour c) (minute c + 1) w.value,
              Jump.next_minute c (w.value * 1000),
            )
            (record {
              later = Jump.next_minute_later c (w.value * 1000);
              over = λ u le lt. sec_fails u (elim (Jump.second_wrap c u w.value le w.within lt) [
                | inl from ↦ w.over (second u) from
                | inr to ↦ w.below (second u) to
              ]);
            }))

  min-Skips :
      (c : ℕ)
      → IsRanged 0 59 f.min
      → field_matches f.min (minute c) ≡ false
      → JumpsTo (Skips test c) (min_move f c)
  min-Skips c r miss =
      move_on-JumpsTo (Skips test c) 0 59 f.min (minute c) (min_onward c) (min_wrapped c) r miss
        (λ v a.
          rw (a.is_value, Jump.on_day c (hour c) a.value 0, Jump.hour_floor c a.value)
            (record {
              later = Jump.minute_later c a.value a.ahead;
              over = λ u le lt.
                  let (from, to) = Jump.minute_ahead c u a.value le a.within lt in
                  min_fails u (a.gap (minute u) from to);
            }))
        (λ w.
          rw (w.is_value, Jump.on_day c (hour c + 1) w.value 0, Jump.next_hour c w.value)
            (record {
              later = Jump.next_hour_later c (w.value * 60000);
              over = λ u le lt. min_fails u (elim (Jump.minute_wrap c u w.value le w.within lt) [
                | inl from ↦ w.over (minute u) from
                | inr to ↦ w.below (minute u) to
              ]);
            }))

  hour-Skips :
      (c : ℕ)
      → IsRanged 0 23 f.hour
      → field_matches f.hour (hour c) ≡ false
      → JumpsTo (Skips test c) (hour_move f c)
  hour-Skips c r miss =
      move_on-JumpsTo (Skips test c) 0 23 f.hour (hour c) (hour_onward c) (hour_wrapped c) r miss
        (λ v a.
          rw (a.is_value, Jump.on_day c a.value 0 0, Jump.hours_only (day_number c) a.value)
            (record {
              later = Jump.hour_later c a.value a.ahead;
              over = λ u le lt.
                  let (from, to) = Jump.hour_ahead c u a.value le a.within lt in
                  hour_fails u (a.gap (hour u) from to);
            }))
        (λ w.
          rw
            (w.is_value, Jump.on_next_day c w.value 0 0, Jump.hours_only (day_number c + 1) w.value)
            (record {
              later = Jump.next_day_later c (w.value * 3600000);
              over = λ u le lt. hour_fails u (elim (Jump.hour_wrap c u w.value le w.within lt) [
                | inl from ↦ w.over (hour u) from
                | inr to ↦ w.below (hour u) to
              ]);
            }))

  day-Skips :
      (c : ℕ)
      → day_fails day_any dow_any (field_matches f.day (date c)) (dow_matches f.dow (weekday c))
        ≡ true
      → Skips test c (next_day c)
  day-Skips c miss =
      rw (Jump.on_next_day c 0 0 0, Jump.hours_only (day_number c + 1) 0)
        (record {
          later = Jump.next_day_later c (0 * 3600000);
          over = λ u le lt.
              let same = Jump.same_day c u le (omega (arith, lt)) in
              date_fails u (rw (← Jump.date_of_day c u same, ← Jump.weekday_of_day c u same) miss);
        })

  month-Skips :
      (c : ℕ)
      → IsRanged 1 12 f.month
      → field_matches f.month (month c) ≡ false
      → JumpsTo (Skips test c) (month_move f c)
  month-Skips c r miss =
      move_on-JumpsTo (Skips test c) 1 12 f.month (month c) (month_onward c) (month_wrapped c) r
        miss
        (λ v a.
          rw (a.is_value, Jump.at_month (year c) a.value (omega (arith, a.ahead)) a.within)
            (record {
              later = Months.month_later c a.value a.ahead;
              over = λ u le lt.
                  let (from, to) = Months.month_ahead c u a.value le a.within lt in
                  month_fails u (a.gap (month u) from to);
            }))
        (λ w.
          rw (w.is_value, Jump.at_month (year c + 1) w.value w.least w.within)
            (record {
              later = Months.next_year_later c w.value;
              over = λ u le lt. month_fails u (elim (Months.month_wrap c u w.value le w.within lt) [
                | inl from ↦ w.over (month u) from
                | inr to ↦ w.below (month u) to
              ]);
            }))

  -- Each round of the loop goes forward, and passes over no instant that matches.
  pub next_move-Skips :
      (c : ℕ) {c' : ℕ} → AreRanged f → next_move day_any dow_any f c ≡ jump c' → Skips test c c'
  next_move-Skips c r e = subst (JumpsTo (Skips test c)) e (
      next_move-JumpsTo (Skips test c) day_any dow_any f c (month-Skips c r.month) (day-Skips c)
        (hour-Skips c r.hour) (λ _ off. min-Skips c r.min off) (λ _ _ off. sec-Skips c r.sec off))
