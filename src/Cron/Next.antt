-- ===== src/Cron/Next.antt =====
-- cron.js, the next run times: `nextRunTimeAfter`, `matchCron6`, `getNextRunTimes`,
-- `getNextRunTime`. `new Date()` is the argument `now`. Results are in `Option` where the
-- loop of `parseFieldValues` may not end; see Cron/Field.
pub mod Sound
pub mod Runs
pub mod Skip
pub mod First
pub mod Round
pub mod Rank
pub mod Progress
pub mod Complete
use cockpit_cronplus.Common.{
  ℕ, zero, suc, ◌+◌, ◌*◌, ◌/◌, Bool, not, ◌&&◌, ◌||◌, Option, none, some, List, [], ◌∷◌, ltb, ◌==◌,
  if◌then◌else◌, ℤ, pos, leb_ℤ, Text, codes, or_else, get_elem?,
}
use cockpit_cronplus.Cron.Field.{
  Field, is_star, is_wildcard, parse_field_values, field_next_after, field_min, field_matches,
  match_field,
}
use cockpit_cronplus.Cron.Calendar.{year, month, date, weekday, hour, minute, second, make_date}

-- The six texts of an expression.
pub record Spec : Type 0 where
  pub sec : Text
  pub min : Text
  pub hour : Text
  pub day : Text
  pub month : Text
  pub dow : Text

-- The six parsed fields.
pub record Fields : Type 0 where
  pub sec : Field
  pub min : Field
  pub hour : Field
  pub day : Field
  pub month : Field
  pub dow : Field

infixl 5 ◌>>=◌
abbrev pub ◌>>=◌ {ℓ κ} : {A : Type ℓ} {B : Type κ} → Option A → (A → Option B) → Option B
none >>= f = none
some a >>= f = f a

unfoldable pub parse_fields : ℕ → Spec → Option Fields
parse_fields fuel spec = do
  s ← parse_field_values fuel spec.sec 0 59
  mi ← parse_field_values fuel spec.min 0 59
  h ← parse_field_values fuel spec.hour 0 23
  d ← parse_field_values fuel spec.day 1 31
  mo ← parse_field_values fuel spec.month 1 12
  w ← parse_field_values fuel spec.dow 0 7
  some (record { sec = s; min = mi; hour = h; day = d; month = mo; dow = w })

-- Sunday is 0 or 7.
unfoldable pub dow_matches : Field → ℕ → Bool
dow_matches dow w = field_matches dow w || (w == 0 && not (is_wildcard dow) && field_matches dow 7)

-- The rule for day and day of week: where both are given, either may match. `day_any` and `dow_any`
-- say that the two texts are "*".
unfoldable pub day_fails : Bool → Bool → Bool → Bool → Bool
day_fails day_any dow_any day_match dow_match =
    if not day_any && not dow_any
    then not day_match && not dow_match
    else (not day_any && not day_match) || (not dow_any && not dow_match)

-- What one round of the loop does: return `cur`, go on at another instant, or go on at an invalid
-- date, `new Date(…, undefined, …)`, which ends the loop.
pub data Move : Type 0 where
  found invalid : Move
  jump : ℕ → Move

-- To the next value, or to the first value of the following unit.
abbrev pub move_on : Option ℤ → ℕ → (ℤ → ℕ) → ℕ → Move
move_on none current onward wrapped = invalid
move_on (some v) current onward wrapped =
    if leb_ℤ v (pos current) then jump wrapped else jump (onward v)

unfoldable pub next_move : Bool → Bool → Fields → ℕ → Move
next_move day_any dow_any f cur =
    let y = year cur in
    let m = month cur in
    let d = date cur in
    let h = hour cur in
    let mi = minute cur in
    let s = second cur in
    if not (field_matches f.month m)
    then move_on (field_next_after f.month m) m (λ nm. make_date y nm 1 (pos 0) (pos 0) (pos 0))
        (make_date (y + 1) (field_min f.month 1) 1 (pos 0) (pos 0) (pos 0))
    else if day_fails day_any dow_any (field_matches f.day d) (dow_matches f.dow (weekday cur))
    then jump (make_date y (pos m) (d + 1) (pos 0) (pos 0) (pos 0))
    else if not (field_matches f.hour h)
    then move_on (field_next_after f.hour h) h (λ nh. make_date y (pos m) d nh (pos 0) (pos 0))
        (make_date y (pos m) (d + 1) (field_min f.hour 0) (pos 0) (pos 0))
    else if not (field_matches f.min mi)
    then move_on (field_next_after f.min mi) mi (λ nmin. make_date y (pos m) d (pos h) nmin (pos 0))
        (make_date y (pos m) d (pos (h + 1)) (field_min f.min 0) (pos 0))
    else if not (field_matches f.sec s)
    then move_on (field_next_after f.sec s) s (λ ns. make_date y (pos m) d (pos h) (pos mi) ns)
        (make_date y (pos m) d (pos h) (pos (mi + 1)) (field_min f.sec 0))
    else found

-- The loop, with the iterations that are left; `none` is `null`.
unfoldable pub search_run : ℕ → (ℕ → Move) → ℕ → ℕ → Option ℕ
search_run zero move limit cur = none
search_run (suc left) move limit cur =
    let next : Option ℕ = elim (move cur) [
      | found ↦ some cur
      | invalid ↦ none
      | jump cur' ↦ search_run left move limit cur'
    ] in
    if ltb cur limit then next else none

abbrev pub max_iterations : ℕ
max_iterations = 100000

-- 4 years
abbrev pub horizon : ℕ
horizon = 4 * 365 * 24 * 3600 * 1000

-- `new Date(after.getTime() + 1000)` with its milliseconds set to 0
abbrev pub first_candidate : ℕ → ℕ
first_candidate after = (after + 1000) / 1000 * 1000

unfoldable pub next_run_time_after : ℕ → Spec → ℕ → Option (Option ℕ)
next_run_time_after fuel spec after = do
  f ← parse_fields fuel spec
  let cur = first_candidate after
  some (
      search_run max_iterations (next_move (is_star spec.day) (is_star spec.dow) f) (cur + horizon)
        cur)

-- `matchCron6`
unfoldable pub match_cron : ℕ → Spec → Bool
match_cron t spec =
    let dow =
      match_field (weekday t) spec.dow 0
      || (weekday t == 0 && not (is_star spec.dow) && match_field 7 spec.dow 0) in
    match_field (second t) spec.sec 0
    && match_field (minute t) spec.min 0
    && match_field (hour t) spec.hour 0
    && match_field (month t) spec.month 1
    && not (day_fails (is_star spec.day) (is_star spec.dow) (match_field (date t) spec.day 1) dow)

-- `[sec || '0', min || '*', …]`
abbrev pub with_defaults : Spec → Spec
with_defaults spec = record {
  sec = or_else spec.sec (codes "0");
  min = or_else spec.min (codes "*");
  hour = or_else spec.hour (codes "*");
  day = or_else spec.day (codes "*");
  month = or_else spec.month (codes "*");
  dow = or_else spec.dow (codes "*");
}

abbrev pub push_runs : Option ℕ → (ℕ → Option (List ℕ)) → Option (List ℕ)
push_runs none rest = some []
push_runs (some t) rest = do ts ← rest t; some (t ∷ ts)

-- `count` more runs after `cur`; the loop breaks at the first `null`.
unfoldable pub runs_after : ℕ → ℕ → Spec → ℕ → Option (List ℕ)
runs_after zero fuel spec cur = some []
runs_after (suc count) fuel spec cur = do
  nxt ← next_run_time_after fuel spec cur
  push_runs nxt (λ t. runs_after count fuel spec t)

unfoldable pub get_next_run_times : ℕ → Spec → ℕ → Option (List ℕ)
get_next_run_times fuel spec now = runs_after 5 fuel (with_defaults spec) now

unfoldable pub get_next_run_time : ℕ → Spec → ℕ → Option (Option ℕ)
get_next_run_time fuel spec now = do
  runs ← get_next_run_times fuel spec now
  some (get_elem? runs 0)
