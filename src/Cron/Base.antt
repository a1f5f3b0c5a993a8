-- ===== src/Cron/Base.antt =====
-- cron.js, `getNextRunTimesFromBase`: run times counted from an anchor.
pub mod Results
pub mod Chain
pub mod Fill
pub mod Rising
mod Tests
use cockpit_cronplus.Common.{
  ℕ, zero, suc, ◌+◌, ◌-◌, ◌*◌, ◌/◌, Option, none, some, List, [], ◌∷◌, ◌++◌, if◌then◌else◌, ltb,
  ◌==◌, length, take,
}
use cockpit_cronplus.Cron.Next.{
  Spec, next_run_time_after, match_cron, get_next_run_times, with_defaults,
}
use cockpit_cronplus.Cron.Schedule.{get_step}

-- A call returns run times, throws a TypeError, or does not return.
pub data Outcome : Type 0 where
  runs : List ℕ → Outcome
  type_error hangs : Outcome

abbrev pub of_option : Option (List ℕ) → Outcome
of_option none = hangs
of_option (some ts) = runs ts

-- The largest unit with a step: day, hour, minute, second; 0 if there is none.
unfoldable pub interval_ms : Spec → ℕ
interval_ms spec =
    if ltb 0 (get_step spec.day)
    then get_step spec.day * 86400000
    else if ltb 0 (get_step spec.hour)
    then get_step spec.hour * 3600000
    else if ltb 0 (get_step spec.min)
    then get_step spec.min * 60000
    else if ltb 0 (get_step spec.sec)
    then get_step spec.sec * 1000
    else 0

-- `startTime`: the base itself where it lies ahead, or the first instant of the interval's grid
-- after `now`. (`elapsed` is negative in the first case, and then not used.)
unfoldable pub start_time : ℕ → ℕ → ℕ → ℕ
start_time base now interval =
    if ltb now base then base else base + ((now - base) / interval + 1) * interval

abbrev pub last_or : ℕ → List ℕ → ℕ
last_or d [] = d
last_or d (t ∷ ts) = last_or t ts

module _ (fuel count : ℕ) (spec : Spec) (now : ℕ) where
  abbrev fields : Spec
  fields = with_defaults spec

  -- The loop that fills up with the standard method, after `ref`, with `left` results to go.
  unfoldable pub fill : ℕ → List ℕ → ℕ → Outcome
  fill zero results ref = runs results
  fill (suc left) results ref = elim (next_run_time_after fuel fields ref) [
    | none ↦ hangs
    | some none ↦ runs results
    | some (some t) ↦ fill left (results ++ t ∷ []) t
  ]

  -- The last part: fill up from the last result, or from `now`, and cut at `count`.
  abbrev pub finish : Outcome → Outcome
  finish type_error = type_error
  finish hangs = hangs
  finish (runs results) =
      let filled = fill (count - length results) results (last_or now results) in
      elim filled [ runs ts ↦ runs (take count ts) | type_error ↦ type_error | hangs ↦ hangs ]

  -- `results` empty makes `results[results.length - 1]` undefined, and `after.getTime()` throws,
  -- where the loop makes a round.
  abbrev pub refill : List ℕ → Outcome
  refill [] = elim count [ zero ↦ runs [] | suc n ↦ type_error ]
  refill (t ∷ ts) = fill (count - length (t ∷ ts)) (t ∷ ts) (last_or t ts)

  -- `if (!results.length || fallback.getTime() !== last) results.push(fallback)`
  abbrev pub push_new : List ℕ → ℕ → List ℕ
  push_new [] t = t ∷ []
  push_new (r ∷ rs) t = if last_or r rs == t then r ∷ rs else (r ∷ rs) ++ t ∷ []

  abbrev pub push_fallback : List ℕ → Option ℕ → List ℕ
  push_fallback results none = results
  push_fallback results (some t) =
      if ltb (length results) count then push_new results t else results

  -- The branch for an instant of the grid that does not match.
  unfoldable pub off_grid : List ℕ → ℕ → Outcome
  off_grid results prev = elim (next_run_time_after fuel fields prev) [
    | none ↦ hangs
    | some found ↦ refill (push_fallback results found)
  ]

  -- The rounds of `for (i …)`, with `left` to go.
  unfoldable pub grid : ℕ → ℕ → ℕ → ℕ → List ℕ → Outcome
  grid start interval zero i results = runs results
  grid start interval (suc left) i results =
      let t = start + i * interval in
      let next = grid start interval left (suc i) (results ++ t ∷ []) in
      let stop = off_grid results (if i == 0 then start - 1000 else last_or 0 results) in
      if match_cron t spec then next else stop

-- `count || 5`; the base is none if its `getTime()` is NaN.
unfoldable pub get_next_run_times_from_base : ℕ → Spec → Option ℕ → ℕ → ℕ → Outcome
get_next_run_times_from_base fuel spec none count now = of_option (get_next_run_times fuel spec now)
get_next_run_times_from_base fuel spec (some base) count now =
    let n = if count == 0 then 5 else count in
    let interval = interval_ms spec in
    if interval == 0
    then of_option (get_next_run_times fuel spec now)
    else finish fuel n spec now
        (grid fuel n spec now (start_time base now interval) interval n 0 [])
