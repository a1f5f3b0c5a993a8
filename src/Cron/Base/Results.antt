-- ===== src/Cron/Base/Results.antt =====
-- cron.js: what `getNextRunTimesFromBase` returns, and where it throws.
use cockpit_cronplus.Common.{
  ℕ, zero, suc, ◌+◌, ◌-◌, ◌*◌, ◌≡◌, ◌≢◌, refl, false, none, some, [], arith, ◌==◌,
}
use cockpit_cronplus.Cron.Next.{Spec, next_run_time_after, match_cron, with_defaults}
use cockpit_cronplus.Cron.Base.{
  type_error, interval_ms, start_time, finish, off_grid, grid, get_next_run_times_from_base,
}

grid_throws :
    (fuel m : ℕ) (spec : Spec) (now start interval : ℕ)
    → match_cron start spec ≡ false
    → next_run_time_after fuel (with_defaults spec) (start - 1000) ≡ some none
    → finish fuel (suc m) spec now (grid fuel (suc m) spec now start interval (suc m) 0 [])
      ≡ type_error
unfolding grid off_grid
grid_throws fuel m spec now start interval misses nothing =
    let first : start + 0 * interval ≡ start = omega arith in
    rw (first, misses, off_grid, nothing) refl

-- For an expression with a step, where the first instant of the grid does not match and no run is
-- found after it, the call throws a TypeError: it takes the last element of an empty list.
pub get_next_run_times_from_base_throws :
    (fuel : ℕ) (spec : Spec) (base count now : ℕ)
    → interval_ms spec ≢ 0
    → match_cron (start_time base now (interval_ms spec)) spec ≡ false
    → next_run_time_after fuel (with_defaults spec) (start_time base now (interval_ms spec) - 1000)
      ≡ some none
    → get_next_run_times_from_base fuel spec (some base) count now ≡ type_error
unfolding get_next_run_times_from_base
get_next_run_times_from_base_throws fuel spec base zero now stepped misses nothing =
    let stepping : (interval_ms spec == 0) ≡ false = ground (arith, stepped) in
    rw stepping (grid_throws fuel 4 spec now _ (interval_ms spec) misses nothing)
get_next_run_times_from_base_throws fuel spec base (suc m) now stepped misses nothing =
    let stepping : (interval_ms spec == 0) ≡ false = ground (arith, stepped) in
    let asked : (suc m == 0) ≡ false = ground arith in
    rw (stepping, asked) (grid_throws fuel m spec now _ (interval_ms spec) misses nothing)
