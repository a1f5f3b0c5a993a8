-- ===== src/App/TaskView/Params.antt =====
-- app.js, the parameters and the times of a task's card in `renderTasks`. `runInfo.pid` is a text,
-- empty where it is missing, and `runInfo` none where the task does not run.
use cockpit_cronplus.Common.{
  ℕ, ◌+◌, ◌*◌, ◌-◌, ◌≤◌, ◌≡◌, refl, Bool, true, false, not, ◌&&◌, Option, none, some, List, [], ◌∷◌,
  ◌++◌, if◌then◌else◌, ◌==◌, ℤ, pos, ltb_ℤ, pos_part, neg_part, Bool-cases, inl, inr, Text, codes,
  is_empty, or_else, starts_with, arith,
}
use cockpit_cronplus.Cron.Next.{get_next_run_time}
use cockpit_cronplus.Cron.Schedule.{parse_schedule, estimate_interval}
use cockpit_cronplus.App.Types.{Task, is_enabled}

pub data Badge : Type 0 where
  schedule_badge user_badge cwd_badge : Text → Badge
  timeout_badge retries_badge concurrent_badge : ℤ → Badge
  runs_badge : ℤ → ℤ → Badge
  kill_badge : Badge
  running_badge : Text → Badge

abbrev only_if : Bool → Badge → List Badge
only_if test b = if test then b ∷ [] else []

-- `params`, in their order
unfoldable pub params : Option Text → Task → List Badge
params run_info t =
    only_if (not (is_empty t.schedule)) (schedule_badge t.schedule)
    ++ user_badge (or_else t.run_user (codes "root")) ∷ []
    ++ only_if (not (is_empty t.cwd)) (cwd_badge t.cwd)
    ++ only_if (ltb_ℤ (pos 0) t.timeout) (timeout_badge t.timeout)
    ++ only_if (ltb_ℤ (pos 0) t.max_retries) (retries_badge t.max_retries)
    ++ only_if (ltb_ℤ (pos 1) t.max_concurrent) (concurrent_badge t.max_concurrent)
    ++ only_if (ltb_ℤ (pos 0) t.max_runs) (runs_badge t.run_count t.max_runs)
    ++ only_if t.kill_previous kill_badge
    ++ elim run_info [ none ↦ [] | some pid ↦ running_badge pid ∷ [] ]

-- `nextRunDate`; none if the search does not return.
unfoldable pub next_run_date : ℕ → ℕ → Task → Option (Option ℕ)
next_run_date fuel now t =
    if is_enabled t && not (is_empty t.schedule) && not (starts_with (codes "@") t.schedule)
    then get_next_run_time fuel (parse_schedule t.schedule) now
    else some none

-- `Math.max(0, max - count)`
abbrev pub remaining_runs : ℤ → ℤ → ℕ
remaining_runs most count = pos_part most + neg_part count - (pos_part count + neg_part most)

-- What follows the next run: nothing for a task that has no limit; the runs that are left, with the
-- time at which they end where it is known; or that the task is completed.
pub data Progress : Type 0 where
  unlimited : Progress
  left : ℕ → Option ℕ → Progress
  completed : Progress

-- `nextRunDate.getTime() + intervalMs * (remaining - 1)`, where there is an interval
abbrev pub end_time : ℕ → ℕ → ℕ → Option ℕ
end_time interval remaining next =
    if interval == 0 then none else some (next + interval * (remaining - 1))

abbrev end_of : Task → ℕ → Option ℕ → Option ℕ
end_of t remaining none = none
end_of t remaining (some next) =
    end_time (estimate_interval (parse_schedule t.schedule)) remaining next

unfoldable pub progress : Option ℕ → Task → Progress
progress next t =
    let remaining = remaining_runs t.max_runs t.run_count in
    if not (ltb_ℤ (pos 0) t.max_runs)
    then unlimited
    else if remaining == 0
    then completed
    else left remaining (end_of t remaining next)

abbrev pub IsProgress : Task → Option ℕ → Progress → Type 0
IsProgress t next unlimited = ltb_ℤ (pos 0) t.max_runs ≡ false
IsProgress t next completed = ltb_ℤ t.run_count t.max_runs ≡ false
IsProgress t next (left remaining none) = ltb_ℤ t.run_count t.max_runs ≡ true
IsProgress t next (left remaining (some end)) =
    (ltb_ℤ t.run_count t.max_runs ≡ true) × ((start : ℕ) × (next ≡ some start) × (start ≤ end))

end_of-IsProgress :
    (next : Option ℕ) (t : Task) (remaining : ℕ)
    → ltb_ℤ t.run_count t.max_runs ≡ true
    → IsProgress t next (left remaining (end_of t remaining next))
end_of-IsProgress none t remaining h = h
end_of-IsProgress (some next) t remaining h =
    let interval = estimate_interval (parse_schedule t.schedule) in
    elim (Bool-cases (interval == 0)) [
      | inl no_interval ↦ rw no_interval h
      | inr some_interval ↦ rw some_interval (h, (next, refl, omega arith))
    ]

-- A card says that its task is completed exactly if as many runs are counted as the task may have, and
-- the end that it shows is never before the next run.
pub progress-IsProgress : (next : Option ℕ) (t : Task) → IsProgress t next (progress next t)
unfolding progress
progress-IsProgress next t = elim (Bool-cases (ltb_ℤ (pos 0) t.max_runs)) [
  | inr no_limit ↦ rw (progress, no_limit) no_limit
  | inl limit ↦ elim (Bool-cases (remaining_runs t.max_runs t.run_count == 0)) [
    | inl over ↦ rw (progress, limit, over) (ground arith)
    | inr open_runs ↦
        rw (progress, limit, open_runs)
          (end_of-IsProgress next t (remaining_runs t.max_runs t.run_count) (ground arith))
  ]
]
