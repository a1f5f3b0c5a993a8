-- ===== src/Cron/Next/Rank.antt =====
-- How near an instant is to one that matches, on its day; and the parts of an instant that is made of
-- a day and a time.
use cockpit_cronplus.Common.{
  ℕ, ◌+◌, ◌*◌, ◌≤◌, ◌<◌, ◌≡◌, arith, Bool, true, false, ◌==◌, if◌then◌else◌,
}
use cockpit_cronplus.Cron.Calendar.{day_number, hour, minute, second}
use cockpit_cronplus.Cron.Field.{field_matches}
use cockpit_cronplus.Cron.Next.{Fields}

-- The rounds that are left on a day at most, from whether the hour, the minute and the second match,
-- and the minute and the second.
abbrev pub rank_of : Bool → Bool → Bool → ℕ → ℕ → ℕ
rank_of false mi_on s_on mi s = 3
rank_of true false s_on mi s = if mi == 0 then 2 else 4
rank_of true true false mi s = if s == 0 then 1 else 5
rank_of true true true mi s = 0

unfoldable pub rank : Fields → ℕ → ℕ
rank f c =
    rank_of (field_matches f.hour (hour c)) (field_matches f.min (minute c))
      (field_matches f.sec (second c)) (minute c) (second c)

-- What the parts of an instant say of the rank.
pub rank_of_le : (h mi_on s_on : Bool) (mi s : ℕ) → rank_of h mi_on s_on mi s ≤ 5
rank_of_le h mi_on s_on mi s = ground arith

pub rank_of_sec : (h mi_on : Bool) (mi s : ℕ) → rank_of h mi_on true mi s ≤ 4
rank_of_sec h mi_on mi s = ground arith

pub rank_of_min : (h s_on : Bool) (mi : ℕ) → rank_of h true s_on mi 0 ≤ 3
rank_of_min h s_on mi = ground arith

pub rank_of_hour_min : (s_on : Bool) (mi : ℕ) → rank_of true true s_on mi 0 ≤ 1
rank_of_hour_min s_on mi = ground arith

pub rank_of_hour : (mi_on s_on : Bool) → rank_of true mi_on s_on 0 0 ≤ 2
rank_of_hour mi_on s_on = ground arith

pub rank_of_no_sec : (mi s : ℕ) → 1 ≤ rank_of true true false mi s
rank_of_no_sec mi s = ground arith

pub rank_of_late_sec : (mi s : ℕ) → 0 < s → rank_of true true false mi s ≡ 5
rank_of_late_sec mi s h = ground arith

pub rank_of_no_min : (s_on : Bool) (mi s : ℕ) → 2 ≤ rank_of true false s_on mi s
rank_of_no_min s_on mi s = ground arith

pub rank_of_late_min : (s_on : Bool) (mi s : ℕ) → 0 < mi → rank_of true false s_on mi s ≡ 4
rank_of_late_min s_on mi s h = ground arith

pub rank-le : (f : Fields) (c : ℕ) → rank f c ≤ 5
unfolding rank
rank-le f c =
    rank_of_le (field_matches f.hour (hour c)) (field_matches f.min (minute c))
      (field_matches f.sec (second c)) (minute c) (second c)

-- The parts of an instant that is made of a day, an hour, a minute and a second.
abbrev pub at_time : ℕ → ℕ → ℕ → ℕ → ℕ
at_time d h mi s = d * 86400000 + h * 3600000 + mi * 60000 + s * 1000

pub second-at_time : (d h mi s : ℕ) → s ≤ 59 → second (at_time d h mi s) ≡ s
unfolding second
second-at_time d h mi s a = omega arith

pub minute-at_time : (d h mi s : ℕ) → mi ≤ 59 → s ≤ 59 → minute (at_time d h mi s) ≡ mi
unfolding minute
minute-at_time d h mi s a b = omega arith

pub hour-at_time : (d h mi s : ℕ) → h ≤ 23 → mi ≤ 59 → s ≤ 59 → hour (at_time d h mi s) ≡ h
unfolding hour
hour-at_time d h mi s a b e = omega arith

pub day-at_time : (d h mi s : ℕ) → d ≤ day_number (at_time d h mi s)
unfolding day_number
day-at_time d h mi s = omega arith
