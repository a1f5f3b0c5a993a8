-- ===== src/Cron/Schedule/Estimate.antt =====
-- app.js, `_estimateIntervalMs`: the interval of a schedule with a fixed hour.
use cockpit_cronplus.Common.{
  ℕ, ◌+◌, ◌≡◌, ◌≢◌, refl, true, false, Text, codes, is_empty, or_else-full, arith, Bool-cases, inl,
  inr,
}
use cockpit_cronplus.Cron.Calendar.{hour}
use cockpit_cronplus.Cron.Field.{is_star, match_field}
use cockpit_cronplus.Cron.Next.{Spec, match_cron}
use cockpit_cronplus.Cron.Schedule.{estimate_interval}

-- A field that accepts at most one value.
abbrev pub IsFixed : Text → Type 0
IsFixed field = (v w : ℕ) → match_field v field 0 ≡ true → match_field w field 0 ≡ true → v ≡ w

hour-later : (t : ℕ) → hour (t + 3600000) ≢ hour t
unfolding hour
hour-later t e = omega arith

match_cron-hour : (t : ℕ) (s : Spec) → match_cron t s ≡ true → match_field (hour t) s.hour 0 ≡ true
unfolding match_cron
match_cron-hour t s h = ground arith

estimate_interval-hour :
    (s : Spec)
    → s.day ≡ codes "*"
    → is_empty s.hour ≡ false
    → is_star s.hour ≡ false
    → estimate_interval s ≡ 3600000
unfolding estimate_interval
estimate_interval-hour s day full fixed =
    rw (estimate_interval, day, or_else-full s.hour (codes "*") full, fixed) refl

-- For a schedule with a fixed hour on any day, the estimated interval after a run there is no run.
pub estimate_interval_misses :
    (s : Spec) (t : ℕ)
    → s.day ≡ codes "*"
    → is_empty s.hour ≡ false
    → is_star s.hour ≡ false
    → IsFixed s.hour
    → match_cron t s ≡ true
    → match_cron (t + estimate_interval s) s ≡ false
estimate_interval_misses s t day full fixed one run =
    rw (estimate_interval-hour s day full fixed) (elim (Bool-cases (match_cron (t + 3600000) s)) [
      | inl again ↦ absurd (
          hour-later t (
            one (hour (t + 3600000)) (hour t) (match_cron-hour (t + 3600000) s again)
              (match_cron-hour t s run)))
      | inr other ↦ other
    ])
