-- ===== src/Cron/Calendar/Months.antt =====
-- The months that `nextRunTimeAfter` passes over when it jumps to the first day of a month.
use cockpit_cronplus.Common.{
  ℕ, zero, suc, ◌+◌, ◌*◌, ◌≤◌, ◌<◌, ◌≡◌, inl, inr, ◌⊎◌, arith, subst, Bool-cases, leb, leb→le,
  ==_iff, ◌==◌,
}
use cockpit_cronplus.Cron.Calendar.{days_before_year, days_before_month, day_number, year, month}
use cockpit_cronplus.Cron.Calendar.Bounds.{
  days_before_year-suc, year_of_day_bounds, month_of_day_bounds,
}

days_before_year_mono : (a b : ℕ) → a ≤ b → days_before_year a ≤ days_before_year b
unfolding days_before_year
days_before_year_mono a b h = omega arith

days_before_month_step : (y n : ℕ) → days_before_month y n ≤ days_before_month y (suc n)
unfolding days_before_month
days_before_month_step y zero = omega arith
days_before_month_step y (suc n) = omega arith

days_before_month_mono : (y m n : ℕ) → m ≤ n → days_before_month y m ≤ days_before_month y n
days_before_month_mono y m zero h = let e : m ≡ 0 = omega arith in rw e (omega arith)
days_before_month_mono y m (suc n) h = elim (Bool-cases (leb m n)) [
  | inl le ↦ omega (arith, days_before_month_mono y m n (leb→le m n le), days_before_month_step y n)
  | inr lt ↦ let e : m ≡ suc n = ground arith in rw e (omega arith)
]

-- The day number of an instant lies in its year, and in its month.
in_year :
    (t : ℕ)
    → (days_before_year (year t) ≤ day_number t) × (day_number t < days_before_year (suc (year t)))
unfolding year
in_year t = year_of_day_bounds (day_number t)

in_month :
    (t : ℕ)
    → (days_before_year (year t) + days_before_month (year t) (month t) ≤ day_number t)
      × (day_number t < days_before_year (year t) + days_before_month (year t) (suc (month t)))
unfolding year month
in_month t =
    let (_, _, start, stop) = month_of_day_bounds (day_number t) in
    let (before, _) = year_of_day_bounds (day_number t) in omega (arith, start, stop, before)

-- Within one year months do not go back, and a day before a month is in an earlier one.
month_mono : (c u : ℕ) → year c ≡ year u → day_number c ≤ day_number u → month c ≤ month u
month_mono c u same le =
    let a =
      subst (λ y. days_before_year y + days_before_month y (month c) ≤ day_number c) same
        (in_month c).0 in
    ground (arith, a, (in_month u).1, days_before_month_mono (year u) (suc (month u)) (month c))

month_below :
    (u n : ℕ)
    → day_number u < days_before_year (year u) + days_before_month (year u) n
    → month u < n
month_below u n lt = ground (arith, (in_month u).0, days_before_month_mono (year u) n (month u))

year_mono : (c u : ℕ) → day_number c ≤ day_number u → year c ≤ year u
year_mono c u le =
    ground (arith, (in_year c).0, (in_year u).1, days_before_year_mono (suc (year u)) (year c))

year_below : (u y : ℕ) → day_number u < days_before_year (suc y) → year u ≤ y
year_below u y lt = ground (arith, (in_year u).0, days_before_year_mono (suc y) (year u))

day_mono : (c u : ℕ) → c ≤ u → day_number c ≤ day_number u
unfolding day_number
day_mono c u le = omega arith

day_below : (u n : ℕ) → u < n * 86400000 → day_number u < n
unfolding day_number
day_below u n lt = omega arith

-- Before a later month of the same year begins, the month is the current one or lies between.
pub month_ahead :
    (c u n : ℕ)
    → c ≤ u
    → n ≤ 12
    → u < (days_before_year (year c) + days_before_month (year c) n) * 86400000
    → (month c ≤ month u) × (month u < n)
month_ahead c u n le h lt =
    let y = year c in
    let before = day_below u (days_before_year y + days_before_month y n) lt in
    let within : day_number u < days_before_year (suc y) =
      omega (arith, before, days_before_year-suc y, days_before_month_mono y n 13 (omega arith)) in
    let same : year c ≡ year u =
      omega (arith, year_mono c u (day_mono c u le), year_below u y within) in
    (
      month_mono c u same (day_mono c u le),
      month_below u n
          (subst (λ z. day_number u < days_before_year z + days_before_month z n) same before),
    )

-- Before a month of the next year begins, the month is not before the current one, or it lies below
-- the month of the next year.
pub month_wrap :
    (c u n : ℕ)
    → c ≤ u
    → n ≤ 12
    → u < (days_before_year (year c + 1) + days_before_month (year c + 1) n) * 86400000
    → (month c ≤ month u) ⊎ (month u < n)
month_wrap c u n le h lt =
    let y = year c + 1 in
    let before = day_below u (days_before_year y + days_before_month y n) lt in
    let within : day_number u < days_before_year (suc y) =
      omega (arith, before, days_before_year-suc y, days_before_month_mono y n 13 (omega arith)) in
    elim (Bool-cases (year c == year u)) [
      | inl same ↦ inl (month_mono c u ((==_iff (year c) (year u)).0 same) (day_mono c u le))
      | inr other ↦
          let next : y ≡ year u =
            ground (arith, other, year_mono c u (day_mono c u le), year_below u y within) in
          inr (
            month_below u n
              (subst (λ z. day_number u < days_before_year z + days_before_month z n) next before))
    ]

-- Both lie ahead.
pub month_later :
    (c n : ℕ)
    → month c < n
    → c < (days_before_year (year c) + days_before_month (year c) n) * 86400000
unfolding day_number
month_later c n lt =
    omega (arith, (in_month c).1, days_before_month_mono (year c) (suc (month c)) n lt)

pub next_year_later :
    (c n : ℕ) → c < (days_before_year (year c + 1) + days_before_month (year c + 1) n) * 86400000
unfolding day_number
next_year_later c n =
    let e : suc (year c) ≡ year c + 1 = omega arith in
    let before = subst (λ z. day_number c < days_before_year z) e (in_year c).1 in
    omega (arith, before)
