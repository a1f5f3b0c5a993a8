-- ===== src/App/Form/RoundTrip.antt =====
-- The task dialog saves what it shows.
use cockpit_cronplus.Common.{
  or_else-full, ℕ, zero, suc, ◌≤◌, ◌≡◌, ◌≢◌, refl, sym, ◌∙◌, ap, inl, inr, arith, false, none, List,
  [], ◌∷◌, ◌++◌, Text, Bool-cases, is_empty, any, text_eq, ||_neither, ◌==◌, ==_iff, has_char, trim,
  take, length, length-append, ℤ, pos,
}
use cockpit_cronplus.App.Types.{num_or-full, num_or-zero, is_enabled_given, Task, num_or, int_or}
use cockpit_cronplus.App.Values.{IsLine, line_value-IsLine, area_value-no_return}
use cockpit_cronplus.App.Form.{
  env_text, Form, show_int, custom, root, selected_user, replace_first, edit_form, form_task,
}
use cockpit_cronplus.App.Form.Inputs.{int_or-show_int, int_or-num_or}
use cockpit_cronplus.App.Form.EnvVars.{IsEnv, read_env-env_text}
use cockpit_cronplus.App.Form.Schedules.{IsSchedule, form_schedule-shown}

replace_first-none : (c r : ℕ) (s : Text) → has_char c s ≡ false → replace_first c r s ≡ s
replace_first-none c r [] h = refl
replace_first-none c r (d ∷ s) h =
    let (other, rest) = ||_neither (d == c) (has_char c s) h in
    rw (other, replace_first-none c r s rest) refl

replace_first-found :
    (c r : ℕ) (d t : Text) → has_char c d ≡ false → replace_first c r (d ++ c ∷ t) ≡ d ++ r ∷ t
replace_first-found c r [] t h = rw ((==_iff c c).1 refl) refl
replace_first-found c r (x ∷ d) t h =
    let (other, rest) = ||_neither (x == c) (has_char c d) h in
    rw (other, replace_first-found c r d t rest) refl

take-all : (n : ℕ) (s : Text) → length s ≤ n → take n s ≡ s
take-all zero [] h = refl
take-all zero (c ∷ s) h = absurd (omega arith)
take-all (suc n) [] h = refl
take-all (suc n) (c ∷ s) h = ap (λ r. c ∷ r) (take-all n s (omega arith))

-- No base time, or a date and a time, of 19 characters at most.
pub data IsBaseTime : Text → Type 0 where
  no_base : IsBaseTime []
  date_and_time :
      (d t : Text)
      → has_char b' ' d ≡ false
      → has_char b'T' d ≡ false
      → length (d ++ b' ' ∷ t) ≤ 19
      → IsBaseTime (d ++ b' ' ∷ t)

length-swapped : (d t : Text) → length (d ++ b' ' ∷ t) ≤ 19 → length (d ++ b'T' ∷ t) ≤ 19
length-swapped d t h = rw (length-append d (b'T' ∷ t)) (rw (length-append d (b' ' ∷ t)) at h)

base_time-shown :
    (s : Text) → IsBaseTime s → replace_first b'T' b' ' (take 19 (replace_first b' ' b'T' s)) ≡ s
base_time-shown _ no_base = refl
base_time-shown _ (date_and_time d t no_space no_t short) =
    rw
      (
        replace_first-found b' ' b'T' d t no_space,
        take-all 19 (d ++ b'T' ∷ t) (length-swapped d t short),
      )
      (replace_first-found b'T' b' ' d t no_t)

-- A task that the dialog can show and save as it is: its texts are trimmed, of one line where their
-- input is, and without carriage returns where it is a text area; nothing is missing for which the
-- dialog fills in something else; and the two counters of runs agree.
pub record CanEdit (t : Task) : Type 0 where
  pub title : trim t.title ≡ t.title
  pub one_line :
      IsLine t.title × IsLine t.comment × IsLine t.tags × IsLine t.cwd × IsLine t.run_user
  pub no_return : (has_char 13 t.command ≡ false) × (has_char 13 (env_text t.env_vars) ≡ false)
  pub command : trim t.command ≡ t.command
  pub comment : trim t.comment ≡ t.comment
  pub tags : trim t.tags ≡ t.tags
  pub cwd : trim t.cwd ≡ t.cwd
  pub enabled : t.enabled ≢ none
  pub run_user : (is_empty t.run_user ≡ false) × (trim t.run_user ≡ t.run_user)
  pub no_marker : text_eq t.run_user custom ≡ false
  pub retry_interval : t.retry_interval ≢ pos 0
  pub max_concurrent : t.max_concurrent ≢ pos 0
  pub counters : t.run_count ≡ t.run_seq
  pub schedule : IsSchedule t.schedule
  pub base_time : IsBaseTime t.cron_base_time
  pub env : IsEnv t.env_vars

-- `t.run_seq || t.run_count || 0` of two counters that agree
counter : (n : ℤ) → int_or (show_int (num_or n (num_or n (pos 0)))) (pos 0) ≡ n
counter n = rw (num_or-zero n) (int_or-show_int _ _ ∙ ground arith)

-- The user is shown in the list, or as a custom one.
selected_user-edit_form :
    (users : List Text) (old : Form) (t : Task)
    → CanEdit t
    → selected_user (edit_form users old t) ≡ t.run_user
unfolding selected_user edit_form
selected_user-edit_form users old t c =
    let (full, trimmed) = c.run_user in
    let (_, _, _, _, line) = c.one_line in
    elim (Bool-cases (any (text_eq t.run_user) users)) [
      | inl known ↦ simp (known, full, or_else-full t.run_user root full, c.no_marker)
      | inr unknown ↦
          rw (unknown, full, line_value-IsLine t.run_user line, trimmed)
            (or_else-full t.run_user root full)
    ]

-- Saving the task dialog as it opens gives the same task, if its texts are trimmed, the command and
-- the variables hold no carriage return and the other texts no line break; it is enabled or not, has
-- a user other than the list's marker, a retry interval and a number of concurrent runs that are not
-- 0, and both counters of runs alike; its schedule has six words, the first two not begun by "@", or
-- begins with "@reboot"; its base time is none or a date and a time of 19 characters at most; and
-- its variables have different names and can stand on a line each.
pub form_task-edit_form :
    (users : List Text) (old : Form) (t : Task)
    → CanEdit t
    → form_task (edit_form users old t) t.id ≡ t
unfolding form_task edit_form
form_task-edit_form users old t c =
    let number : (n : ℤ) → int_or (show_int (num_or n (pos 0))) (pos 0) ≡ n =
      λ n. int_or-num_or n (pos 0) ∙ num_or-zero n in
    let (title, comment, tags, cwd, _) = c.one_line in
    let (command, env) = c.no_return in
    rw (form_task, selected_user-edit_form users old t c)
      (simp
        (
          line_value-IsLine t.title title,
          area_value-no_return t.command command,
          line_value-IsLine t.comment comment,
          line_value-IsLine t.tags tags,
          line_value-IsLine t.cwd cwd,
          area_value-no_return (env_text t.env_vars) env,
          c.title,
          c.command,
          c.comment,
          c.tags,
          c.cwd,
          is_enabled_given t c.enabled,
          form_schedule-shown t.schedule c.schedule,
          base_time-shown t.cron_base_time c.base_time,
          read_env-env_text t.env_vars c.env,
          number t.timeout,
          number t.max_retries,
          number t.max_runs,
          number t.log_retention_days,
          number t.log_max_entries,
          number t.reboot_delay,
          int_or-show_int t.retry_interval (pos 60)
              ∙ num_or-full t.retry_interval (pos 60) c.retry_interval,
          num_or-full t.retry_interval (pos 60) c.retry_interval,
          int_or-show_int t.max_concurrent (pos 1)
              ∙ num_or-full t.max_concurrent (pos 1) c.max_concurrent,
          num_or-full t.max_concurrent (pos 1) c.max_concurrent,
          c.counters,
          counter t.run_seq,
        )
        (ap (λ n. record t { run_count = n }) (sym c.counters)))
