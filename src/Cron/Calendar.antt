-- ===== src/Cron/Calendar.antt =====
-- JavaScript's `Date` in a zone of constant offset: an instant is the number of local milliseconds
-- since the first day of the year 0. Only differences of `getTime()` matter to the program, so the
-- origin cannot be seen. Instants before the year 0 do not occur.
pub mod Bounds
pub mod Jump
pub mod Months
use cockpit_cronplus.Common.{
  ℕ, zero, suc, ◌+◌, ◌-◌, ◌*◌, ◌/◌, ◌%◌, ◌≡◌, refl, Bool, true, false, not, ◌||◌, ltb, ◌==◌,
  if◌then◌else◌, ℤ, pos, pos_part, neg_part, ◌+ℤ◌, scale,
}

pub is_leap : ℕ → Bool
is_leap y = if not (y % 4 == 0) then false else if not (y % 100 == 0) then true else y % 400 == 0

pub month_length : ℕ → ℕ → ℕ
month_length y m =
    if m == 2
    then (if is_leap y then 29 else 28)
    else if (m == 4) || (m == 6) || (m == 9) || (m == 11)
    then 30
    else 31

-- The days of the years 0 to y - 1; the year 0 is a leap year.
pub days_before_year : ℕ → ℕ
days_before_year y = y * 365 + (y + 3) / 4 - (y + 99) / 100 + (y + 399) / 400

-- The days of the months 1 to m - 1.
unfoldable pub days_before_month : ℕ → ℕ → ℕ
unfolding month_length is_leap
days_before_month y zero = 0
days_before_month y (suc zero) = 0
days_before_month y (suc (suc m)) = days_before_month y (suc m) + month_length y (suc m)

-- The largest year that begins on day `n` or before it.
year_from : ℕ → ℕ → ℕ → ℕ
year_from zero y n = y
year_from (suc fuel) y n =
    let later = year_from fuel (suc y) n in if ltb n (days_before_year (suc y)) then y else later

pub year_of_day : ℕ → ℕ
year_of_day n = year_from (suc (n / 365)) (n / 366) n

month_from : ℕ → ℕ → ℕ → ℕ → ℕ
month_from zero y m r = m
month_from (suc fuel) y m r =
    let later = month_from fuel y (suc m) r in
    if ltb r (days_before_month y (suc m)) then m else later

pub month_of_day : ℕ → ℕ
month_of_day n = let y = year_of_day n in month_from 11 y 1 (n - days_before_year y)

unfoldable pub day_number : ℕ → ℕ
day_number t = t / 86400000

-- `getFullYear`, `getMonth() + 1`, `getDate`, `getDay`, `getHours`, `getMinutes`, `getSeconds`
unfoldable pub year : ℕ → ℕ
unfolding day_number year_of_day year_from days_before_year
year t = year_of_day (day_number t)

unfoldable pub month : ℕ → ℕ
unfolding day_number month_of_day month_from year_of_day year_from days_before_year
    days_before_month
month t = month_of_day (day_number t)

unfoldable pub date : ℕ → ℕ
unfolding year month
date t = suc (day_number t - days_before_year (year t) - days_before_month (year t) (month t))

unfoldable pub weekday : ℕ → ℕ
unfolding day_number
weekday t = (day_number t + 6) % 7

unfoldable pub hour : ℕ → ℕ
hour t = t / 3600000 % 24

unfoldable pub minute : ℕ → ℕ
minute t = t / 60000 % 60

unfoldable pub second : ℕ → ℕ
second t = t / 1000 % 60

-- The day number of `new Date(y, m - 1, d)`: a month out of range carries into the year, and a day
-- into the months that follow.
unfoldable pub make_day : ℕ → ℤ → ℕ → ℕ
unfolding days_before_year days_before_month
make_day y m d =
    let months = y * 12 + pos_part m - (neg_part m + 1) in
    let y' = months / 12 in
    let m' = months % 12 + 1 in days_before_year y' + days_before_month y' m' + (d - 1)

-- `new Date(y, m - 1, d, h, mi, s)`
unfoldable pub make_date : ℕ → ℤ → ℕ → ℤ → ℤ → ℤ → ℕ
unfolding make_day ◌+ℤ◌ scale
make_date y m d h mi s =
    1000 * pos_part (pos (make_day y m d * 86400) +ℤ scale 3600 h +ℤ scale 60 mi +ℤ s)

-- 2026-04-23 09:30:40 is a Thursday; the day after 2024-02-28 is the 29th.
date_tests :
    let t = make_date 2026 (pos 4) 23 (pos 9) (pos 30) (pos 40) in
    (year t ≡ 2026)
    × (month t ≡ 4)
    × (date t ≡ 23)
    × (weekday t ≡ 4)
    × (hour t ≡ 9)
    × (minute t ≡ 30)
    × (second t ≡ 40)
unfolding make_date year month date weekday hour minute second
date_tests = (refl, refl, refl, refl, refl, refl, refl)

carry_tests :
    (make_date 2024 (pos 2) 29 (pos 0) (pos 0) (pos 0)
      ≡ make_date 2024 (pos 2) 28 (pos 24) (pos 0) (pos 0))
    × (make_date 2024 (pos 2) 30 (pos 0) (pos 0) (pos 0)
        ≡ make_date 2024 (pos 3) 1 (pos 0) (pos 0) (pos 0))
    × (make_date 2025 (pos 0) 1 (pos 0) (pos 0) (pos 0)
        ≡ make_date 2024 (pos 12) 1 (pos 0) (pos 0) (pos 0))
unfolding make_date
carry_tests = (refl, refl, refl)
