-- ===== src/App/Config/Accepts.antt =====
-- What the raw editor accepts.
use cockpit_cronplus.Common.{
  ℕ, suc, ◌≡◌, ◌↔◌, refl, ◌∙◌, inl, inr, arith, Bool, true, false, ◌||◌, Option, none, some, List,
  [], ◌∷◌, ◌++◌, Text, codes, or_else, trim, starts_with, All, Option-cases, is_empty, is_space,
  any, text_eq, ||_neither,
}
use cockpit_cronplus.Cron.Next.{Spec}
use cockpit_cronplus.Cron.Schedule.{print_spec, spec}
use cockpit_cronplus.Cron.Schedule.RoundTrip.{IsWord, IsWords, print_spec_lem}
use cockpit_cronplus.App.Types.{Task}
use cockpit_cronplus.App.Form.{Form, form_task, form_schedule, selected_user}
use cockpit_cronplus.App.Store.{Page}
use cockpit_cronplus.App.Config.{
  count_from, count_words, is_schedule, is_user, check_task, check_tasks, save_raw_editor,
  ConfigCall, write,
}
use cockpit_cronplus.Utils.Base64.{Browser}

count_from-word :
    (w s : Text) (n : ℕ)
    → any is_space w ≡ false
    → count_from false n (w ++ b' ' ∷ s) ≡ count_from true n s
count_from-word [] s n h = refl
count_from-word (c ∷ w) s n h =
    let (visible, rest) = ||_neither (is_space c) (any is_space w) h in
    rw visible (count_from-word w s n rest)

count_from-next :
    (w s : Text) (n : ℕ) → IsWord w → count_from true n (w ++ b' ' ∷ s) ≡ count_from true (suc n) s
count_from-next [] s n (full, _) = absurd (cc full)
count_from-next (c ∷ w) s n (_, h) =
    let (visible, rest) = ||_neither (is_space c) (any is_space w) h in
    rw visible (count_from-word w s (suc n) rest)

count_from-end : (w : Text) (n : ℕ) → any is_space w ≡ false → count_from false n w ≡ some n
count_from-end [] n h = refl
count_from-end (c ∷ w) n h =
    let (visible, rest) = ||_neither (is_space c) (any is_space w) h in
    rw visible (count_from-end w n rest)

count_from-last : (w : Text) (n : ℕ) → IsWord w → count_from true n w ≡ some (suc n)
count_from-last [] n (full, _) = absurd (cc full)
count_from-last (c ∷ w) n (_, h) =
    let (visible, rest) = ||_neither (is_space c) (any is_space w) h in
    rw visible (count_from-end w (suc n) rest)

count_words-first : (w s : Text) → IsWord w → count_words (w ++ b' ' ∷ s) ≡ count_from true 1 s
count_words-first [] s (full, _) = absurd (cc full)
count_words-first (c ∷ w) s (_, h) =
    let (visible, rest) = ||_neither (is_space c) (any is_space w) h in
    rw visible (count_from-word w s 1 rest)

count_words-print_spec : (s : Spec) → IsWords s → count_words (print_spec s) ≡ some 6
count_words-print_spec s h =
    let from_day = s.day ++ b' ' ∷ (s.month ++ b' ' ∷ s.dow) in
    let from_min = s.min ++ b' ' ∷ (s.hour ++ b' ' ∷ from_day) in
    rw (print_spec_lem s) (
      count_words-first s.sec from_min h.sec
      ∙ count_from-next s.min (s.hour ++ b' ' ∷ from_day) 1 h.min
      ∙ count_from-next s.hour from_day 2 h.hour
      ∙ count_from-next s.day (s.month ++ b' ' ∷ s.dow) 3 h.day
      ∙ count_from-next s.month s.dow 4 h.month
      ∙ count_from-last s.dow 5 h.dow)

-- The schedule that is written for an expression of six words passes the test of the raw editor.
pub is_schedule-print_spec : (s : Spec) → IsWords s → is_schedule (print_spec s) ≡ true
unfolding is_schedule
is_schedule-print_spec s h = rw (count_words-print_spec s h) refl

-- The six schedule inputs, trimmed and with the defaults.
abbrev pub filled : Spec → Spec
filled c =
    spec (or_else (trim c.sec) (codes "0")) (or_else (trim c.min) (codes "*"))
      (or_else (trim c.hour) (codes "*")) (or_else (trim c.day) (codes "*"))
      (or_else (trim c.month) (codes "*")) (or_else (trim c.dow) (codes "*"))

-- A task that the raw editor takes.
pub record IsAccepted (t : Task) : Type 0 where
  pub command : is_empty t.command ≡ false
  pub run_user :
      (is_empty t.run_user || text_eq t.run_user (codes "root") || is_user t.run_user) ≡ true
  pub schedule : (is_empty t.schedule || is_schedule t.schedule) ≡ true

check_task-none : (t : Task) → check_task t ≡ none → IsAccepted t
unfolding check_task is_schedule
check_task-none t e = record {
  command = ground arith;
  run_user = ground arith;
  schedule = ground arith;
}

IsAccepted-check_task : (t : Task) → IsAccepted t → check_task t ≡ none
unfolding check_task
IsAccepted-check_task t a = ground (arith, a.command, a.run_user, a.schedule)

check_tasks-none : (i : ℕ) (ts : List Task) → check_tasks i ts ≡ none → All IsAccepted ts
check_tasks-none i [] e = tt
check_tasks-none i (t ∷ ts) e = elim (Option-cases (check_task t)) [
  | inl good ↦ (check_task-none t good, check_tasks-none (suc i) ts (rw (check_tasks, good) at e))
  | inr (fault, bad) ↦ absurd (cc (rw (check_tasks, bad) at e))
]

All-check_tasks : (i : ℕ) (ts : List Task) → All IsAccepted ts → check_tasks i ts ≡ none
All-check_tasks i [] a = refl
All-check_tasks i (t ∷ ts) (a, rest) =
    rw (check_tasks, IsAccepted-check_task t a) (All-check_tasks (suc i) ts rest)

abbrev is_write : ConfigCall → Bool
is_write (write content) = true
is_write _ = false

-- tasks.conf is written from the editor.
abbrev pub is_written : List ConfigCall → Bool
is_written calls = any is_write calls

accepted-is_written :
    (b : Browser) (parsed : List Task) (written : Bool) (file : Option (List Task)) (p : Page)
    (content : Text)
    → check_tasks 0 parsed ≡ none
    → is_written (save_raw_editor b (some (some parsed)) written file p content).1 ≡ true
unfolding save_raw_editor
accepted-is_written b parsed true file p content good = rw (save_raw_editor, good) refl
accepted-is_written b parsed false file p content good = rw (save_raw_editor, good) refl

-- The raw editor's text, when it is an array of tasks, is written exactly if each task is accepted: it
-- has a command, its user is none, "root" or a name, and its schedule is none, of five or six words, or
-- a special name.
pub save_raw_editor-is_written :
    (b : Browser) (parsed : List Task) (written : Bool) (file : Option (List Task)) (p : Page)
    (content : Text)
    → (is_written (save_raw_editor b (some (some parsed)) written file p content).1 ≡ true)
      ↔ All IsAccepted parsed
unfolding save_raw_editor
save_raw_editor-is_written b parsed written file p content =
    elim (Option-cases (check_tasks 0 parsed)) [
      | inl good ↦ (
        λ _. check_tasks-none 0 parsed good,
        λ _. accepted-is_written b parsed written file p content good,
      )
      | inr (fault, bad) ↦ (
        λ e. absurd (cc (rw (save_raw_editor, bad) at e)),
        λ a. absurd (cc (bad, All-check_tasks 0 parsed a)),
      )
    ]

-- The task that the dialog saves passes the test of the raw editor if a command is typed, its user is
-- one that the editor takes, and the six schedule inputs, trimmed and with the defaults, are words, the
-- minutes with no "@".
pub check_task-form_task :
    (f : Form) (id : ℕ)
    → is_empty (trim f.command) ≡ false
    → (text_eq (selected_user f) (codes "root") || is_user (selected_user f)) ≡ true
    → IsWords (filled f.cron)
    → starts_with (codes "@") (filled f.cron).min ≡ false
    → check_task (form_task f id) ≡ none
unfolding form_task form_schedule
check_task-form_task f id command user words regular = IsAccepted-check_task _ (record {
  command = command;
  run_user = ground (arith, user);
  schedule = rw regular (ground (arith, is_schedule-print_spec (filled f.cron) words));
})
