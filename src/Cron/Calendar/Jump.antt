-- ===== src/Cron/Calendar/Jump.antt =====
-- The instants that `nextRunTimeAfter` jumps to, and the fields of those that it passes over.
use cockpit_cronplus.Common.{
  ℕ, ◌+◌, ◌-◌, ◌*◌, ◌/◌, ◌%◌, ◌≤◌, ◌<◌, ◌≡◌, refl, ◌∙◌, ap, ◌⊎◌, arith, pos, ◌+ℤ◌, scale,
}
use cockpit_cronplus.Cron.Calendar.{
  days_before_year, days_before_month, day_number, year, month, date, weekday, hour, minute, second,
  make_day, make_date,
}
use cockpit_cronplus.Cron.Calendar.Bounds.{year_of_day_bounds, month_of_day_bounds, date_ranges}

make_day_lem :
    (y m d : ℕ)
    → 1 ≤ m
    → m ≤ 12
    → make_day y (pos m) d ≡ days_before_year y + days_before_month y m + (d - 1)
unfolding make_day
make_day_lem y m d low high =
    let a : (y * 12 + m - 1) / 12 ≡ y = omega arith in
    let b : (y * 12 + m - 1) % 12 + 1 ≡ m = omega arith in rw (a, b) refl

make_date_lem :
    (y m d h mi s : ℕ)
    → make_date y (pos m) d (pos h) (pos mi) (pos s)
      ≡ make_day y (pos m) d * 86400000 + h * 3600000 + mi * 60000 + s * 1000
unfolding make_date ◌+ℤ◌ scale
make_date_lem y m d h mi s = ground arith

-- The day of an instant, from its year, month and date.
day_parts :
    (t : ℕ)
    → days_before_year (year t) + days_before_month (year t) (month t) + (date t - 1) ≡ day_number t
unfolding date year month
day_parts t =
    let n = day_number t in
    let (low, high, start, stop) = month_of_day_bounds n in
    let (before, _) = year_of_day_bounds n in omega (arith, low, high, start, stop, before)

month_range : (t : ℕ) → (1 ≤ month t) × (month t ≤ 12)
month_range t = let r = date_ranges t in (r.5, r.6)

-- A time on the day of an instant, and on the day after it.
pub on_day :
    (c h mi s : ℕ)
    → make_date (year c) (pos (month c)) (date c) (pos h) (pos mi) (pos s)
      ≡ day_number c * 86400000 + h * 3600000 + mi * 60000 + s * 1000
on_day c h mi s =
    let (low, high) = month_range c in
    make_date_lem (year c) (month c) (date c) h mi s
    ∙ ap (λ n. n * 86400000 + h * 3600000 + mi * 60000 + s * 1000)
        (make_day_lem (year c) (month c) (date c) low high ∙ day_parts c)

-- An instant from its parts, to the second.
pub make_date-parts :
    (t : ℕ)
    → make_date (year t) (pos (month t)) (date t) (pos (hour t)) (pos (minute t)) (pos (second t))
      ≡ t / 1000 * 1000
unfolding day_number hour minute second
make_date-parts t = on_day t (hour t) (minute t) (second t) ∙ omega arith

pub on_next_day :
    (c h mi s : ℕ)
    → make_date (year c) (pos (month c)) (date c + 1) (pos h) (pos mi) (pos s)
      ≡ (day_number c + 1) * 86400000 + h * 3600000 + mi * 60000 + s * 1000
on_next_day c h mi s =
    let (low, high) = month_range c in
    let positive = (date_ranges c).3 in
    make_date_lem (year c) (month c) (date c + 1) h mi s
    ∙ ap (λ n. n * 86400000 + h * 3600000 + mi * 60000 + s * 1000)
        (omega
          (arith, make_day_lem (year c) (month c) (date c + 1) low high, day_parts c, positive))

pub at_month :
    (y m : ℕ)
    → 1 ≤ m
    → m ≤ 12
    → make_date y (pos m) 1 (pos 0) (pos 0) (pos 0)
      ≡ (days_before_year y + days_before_month y m) * 86400000
at_month y m low high =
    make_date_lem y m 1 0 0 0 ∙ omega (arith, ap (λ n. n * 86400000) (make_day_lem y m 1 low high))

-- The beginning of the minute, of the hour, and of the next ones.
pub minute_floor :
    (c x : ℕ)
    → day_number c * 86400000 + hour c * 3600000 + minute c * 60000 + x ≡ c / 60000 * 60000 + x
unfolding day_number hour minute
minute_floor c x = omega arith

pub next_minute :
    (c x : ℕ)
    → day_number c * 86400000 + hour c * 3600000 + (minute c + 1) * 60000 + x
      ≡ (c / 60000 + 1) * 60000 + x
unfolding day_number hour minute
next_minute c x = omega arith

pub hour_floor :
    (c n : ℕ)
    → day_number c * 86400000 + hour c * 3600000 + n * 60000 + 0 * 1000
      ≡ c / 3600000 * 3600000 + n * 60000
unfolding day_number hour
hour_floor c n = omega arith

pub next_hour :
    (c n : ℕ)
    → day_number c * 86400000 + (hour c + 1) * 3600000 + n * 60000 + 0 * 1000
      ≡ (c / 3600000 + 1) * 3600000 + n * 60000
unfolding day_number hour
next_hour c n = omega arith

pub hours_only :
    (d n : ℕ) → d * 86400000 + n * 3600000 + 0 * 60000 + 0 * 1000 ≡ d * 86400000 + n * 3600000
hours_only d n = omega arith

pub date_of_day : (c u : ℕ) → day_number c ≡ day_number u → date c ≡ date u
unfolding date year month
date_of_day c u e = rw e refl

pub weekday_of_day : (c u : ℕ) → day_number c ≡ day_number u → weekday c ≡ weekday u
unfolding weekday
weekday_of_day c u e = rw e refl

-- They lie ahead, and so does a later second, minute or hour.
pub second_later : (c n : ℕ) → second c < n → c < c / 60000 * 60000 + n * 1000
unfolding second
second_later c n h = omega arith

pub next_minute_later : (c x : ℕ) → c < (c / 60000 + 1) * 60000 + x
next_minute_later c x = omega arith

pub minute_later : (c n : ℕ) → minute c < n → c < c / 3600000 * 3600000 + n * 60000
unfolding minute
minute_later c n h = omega arith

pub next_hour_later : (c x : ℕ) → c < (c / 3600000 + 1) * 3600000 + x
next_hour_later c x = omega arith

pub hour_later : (c n : ℕ) → hour c < n → c < day_number c * 86400000 + n * 3600000
unfolding hour day_number
hour_later c n h = omega arith

pub next_day_later : (c x : ℕ) → c < (day_number c + 1) * 86400000 + x
unfolding day_number
next_day_later c x = omega arith

-- What is passed over on the way there.
module _ (c u n : ℕ) (le : c ≤ u) where
  pub second_ahead :
      n ≤ 59 → u < c / 60000 * 60000 + n * 1000 → (second c ≤ second u) × (second u < n)
  unfolding second
  second_ahead h lt = omega arith

  pub second_wrap :
      n ≤ 59 → u < (c / 60000 + 1) * 60000 + n * 1000 → (second c ≤ second u) ⊎ (second u < n)
  unfolding second
  second_wrap h lt = ground arith

  pub minute_ahead :
      n ≤ 59 → u < c / 3600000 * 3600000 + n * 60000 → (minute c ≤ minute u) × (minute u < n)
  unfolding minute
  minute_ahead h lt = omega arith

  pub minute_wrap :
      n ≤ 59 → u < (c / 3600000 + 1) * 3600000 + n * 60000 → (minute c ≤ minute u) ⊎ (minute u < n)
  unfolding minute
  minute_wrap h lt = ground arith

  pub hour_ahead :
      n ≤ 23 → u < day_number c * 86400000 + n * 3600000 → (hour c ≤ hour u) × (hour u < n)
  unfolding hour day_number
  hour_ahead h lt = omega arith

  pub hour_wrap :
      n ≤ 23 → u < (day_number c + 1) * 86400000 + n * 3600000 → (hour c ≤ hour u) ⊎ (hour u < n)
  unfolding hour day_number
  hour_wrap h lt = ground arith

pub same_day : (c u : ℕ) → c ≤ u → u < (day_number c + 1) * 86400000 → day_number c ≡ day_number u
unfolding day_number
same_day c u le lt = omega arith
