-- ===== src/Cron/Calendar/Bounds.antt =====
-- The ranges of the fields of a date, and that year, month and day spell the day number.
use cockpit_cronplus.Common.{
  sym, subst, ℕ, zero, suc, ◌+◌, ◌-◌, ◌*◌, ◌/◌, ◌≤◌, ◌<◌, ◌≡◌, refl, arith,
}
use cockpit_cronplus.Cron.Calendar.{
  month_length, days_before_year, days_before_month, year_from, year_of_day, month_from,
  month_of_day, day_number, year, month, date, weekday, hour, minute, second,
}

pub days_before_year-suc :
    (y : ℕ) → days_before_year (suc y) ≡ days_before_year y + days_before_month y 13
unfolding days_before_year days_before_month
days_before_year-suc y = ground arith

days_before_year-le : (y : ℕ) → days_before_year y ≤ 366 * y
unfolding days_before_year
days_before_year-le y = omega arith

days_before_year-ge : (y : ℕ) → 365 * y ≤ days_before_year y
unfolding days_before_year
days_before_year-ge y = omega arith

year_from-le : (fuel y n : ℕ) → days_before_year y ≤ n → days_before_year (year_from fuel y n) ≤ n
unfolding year_from
year_from-le zero y n h = h
year_from-le (suc fuel) y n h = ground (arith, year_from-le fuel (suc y) n)

lt-year_from :
    (fuel y k n : ℕ)
    → y + fuel ≡ k
    → n < days_before_year k
    → n < days_before_year (suc (year_from fuel y n))
unfolding year_from
lt-year_from zero y k n e h =
    let e' : y ≡ k = omega arith in
    omega (arith, subst (λ j. n < days_before_year j) (sym e') h, days_before_year-suc y)
lt-year_from (suc fuel) y k n e h = ground (arith, lt-year_from fuel (suc y) k n)

-- The year of a day number: the days before it, and not those before the next.
pub year_of_day_bounds :
    (n : ℕ) → (days_before_year (year_of_day n) ≤ n) × (n < days_before_year (suc (year_of_day n)))
unfolding year_of_day
year_of_day_bounds n = (
  year_from-le (suc (n / 365)) (n / 366) n (omega (arith, days_before_year-le (n / 366))),
  lt-year_from (suc (n / 365)) (n / 366) (n / 366 + suc (n / 365)) n refl
      (omega (arith, days_before_year-ge (n / 366 + suc (n / 365)))),
)

month_from_range :
    (fuel y m r : ℕ) → (m ≤ month_from fuel y m r) × (month_from fuel y m r ≤ m + fuel)
unfolding month_from
month_from_range zero y m r = omega arith
month_from_range (suc fuel) y m r = ground (arith, month_from_range fuel y (suc m) r)

month_from-le :
    (fuel y m r : ℕ) → days_before_month y m ≤ r → days_before_month y (month_from fuel y m r) ≤ r
unfolding month_from
month_from-le zero y m r h = h
month_from-le (suc fuel) y m r h = ground (arith, month_from-le fuel y (suc m) r)

lt-month_from :
    (fuel y m k r : ℕ)
    → m + fuel ≡ k
    → r < days_before_month y (suc k)
    → r < days_before_month y (suc (month_from fuel y m r))
unfolding month_from
lt-month_from zero y m k r e h =
    let e' : m ≡ k = omega arith in subst (λ j. r < days_before_month y (suc j)) (sym e') h
lt-month_from (suc fuel) y m k r e h = ground (arith, lt-month_from fuel y (suc m) k r)

-- The month of a day number is in 1..12, and holds the day.
pub month_of_day_bounds :
    (n : ℕ)
    → let y = year_of_day n in
      let m = month_of_day n in
      let r = n - days_before_year y in
      (1 ≤ m) × (m ≤ 12) × (days_before_month y m ≤ r) × (r < days_before_month y (suc m))
unfolding month_of_day
month_of_day_bounds n =
    let y = year_of_day n in
    let r = n - days_before_year y in
    let (le, lt) = year_of_day_bounds n in
    let (low, high) = month_from_range 11 y 1 r in
    (
      low,
      high,
      month_from-le 11 y 1 r (unfold days_before_month in omega arith),
      lt-month_from 11 y 1 12 r refl (omega (arith, days_before_year-suc y)),
    )

pub days_before_month-suc :
    (y m : ℕ) → 1 ≤ m → days_before_month y (suc m) ≡ days_before_month y m + month_length y m
unfolding days_before_month
days_before_month-suc y zero h = absurd (omega arith)
days_before_month-suc y (suc m) h = refl

pub month_length-le : (y m : ℕ) → month_length y m ≤ 31
unfolding month_length
month_length-le y m = ground arith

-- The fields of a date are in the ranges of the cron fields.
pub date_ranges :
    (t : ℕ)
    → (second t ≤ 59)
      × (minute t ≤ 59)
      × (hour t ≤ 23)
      × (1 ≤ date t)
      × (date t ≤ 31)
      × (1 ≤ month t)
      × (month t ≤ 12)
      × (weekday t ≤ 6)
unfolding second minute hour date month year weekday
date_ranges t =
    let n = day_number t in
    let y = year_of_day n in
    let m = month_of_day n in
    let (low, high, start, stop) = month_of_day_bounds n in
    omega (arith, days_before_month-suc y m low, month_length-le y m, low, high, start, stop)
