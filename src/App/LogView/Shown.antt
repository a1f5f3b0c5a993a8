-- ===== src/App/LogView/Shown.antt =====
-- app.js, `renderLogs`: the entries that are shown, and the tasks that can be selected.
use cockpit_cronplus.Common.{
  ℕ, zero, suc, ◌-◌, ◌*◌, ◌≤◌, ◌≡◌, refl, inl, inr, Bool, true, not, ◌&&◌, ◌||◌, List, [], ◌∷◌,
  ◌++◌, ◌==◌, Text, show, any, length, filter, take, drop, All, arith, length-take, Bool-cases,
  ==_iff, ==_refl,
}
use cockpit_cronplus.App.Types.{Task, LogEntry}
use cockpit_cronplus.App.Paging.{page_items}
use cockpit_cronplus.App.LogView.{
  Filters, passes, insert_log, sort_logs, render_logs, label, has_option, options_of_tasks,
  add_option, add_logs, task_options,
}

any-append {ℓ} :
    {A : Type ℓ} (p : A → Bool) (xs ys : List A) → any p (xs ++ ys) ≡ (any p xs || any p ys)
any-append p [] ys = refl
any-append p (x ∷ xs) ys = ground (arith, any-append p xs ys)

tasks_have :
    (id : ℕ) (ts : List Task)
    → has_option id (options_of_tasks ts) ≡ (not (id == 0) && any (λ t. t.id == id) ts)
tasks_have id [] = ground arith
tasks_have id (t ∷ ts) = ground (arith, tasks_have id ts)

add_has :
    (id n : ℕ) (text : Text) (options : List (ℕ × Text))
    → has_option id (add_option n text options)
      ≡ (has_option id options || (not (id == 0) && n == id))
add_has id n text options = elim (Bool-cases (n == id)) [
  | inl same ↦
      let is : n ≡ id = (==_iff n id).0 same in
      rw (is, ==_refl id)
        (ground (arith, any-append (λ o. o.0 == id) options ((id, text) ∷ []), ==_refl id))
  | inr other ↦
      rw other (ground (arith, any-append (λ o. o.0 == id) options ((n, text) ∷ []), other))
]

logs_have :
    (id : ℕ) (ls : List LogEntry) (options : List (ℕ × Text))
    → has_option id (add_logs ls options)
      ≡ (has_option id options || (not (id == 0) && any (λ l. l.task_id == id) ls))
logs_have id [] options = ground arith
logs_have id (l ∷ ls) options = ground (
  arith,
  logs_have id ls (add_option l.task_id (label l.task_id l.title l.command) options),
  add_has id l.task_id (label l.task_id l.title l.command) options,
)

-- The task filter has an option for an id exactly if the id is not 0 and a task has it, a log entry
-- has it, or it is selected.
pub task_options_ids :
    (id : ℕ) (tasks : List Task) (logs : List LogEntry) (selected : ℕ)
    → has_option id (task_options tasks logs selected) ≡ (
        not (id == 0)
        && (any (λ t. t.id == id) tasks || any (λ l. l.task_id == id) logs || selected == id))
unfolding task_options
task_options_ids id tasks logs selected = ground (
  arith,
  tasks_have id tasks,
  logs_have id logs (options_of_tasks tasks),
  add_has id selected (b'#' ∷ show selected) (add_logs logs (options_of_tasks tasks)),
)

insert_All {κ} :
    (P : LogEntry → Type κ) (newer : Text → Text → Bool) (l : LogEntry) (ls : List LogEntry)
    → P l
    → All P ls
    → All P (insert_log newer l ls)
insert_All P newer l [] pl pls = (pl, tt)
insert_All P newer l (m ∷ ms) pl (pm, pms) = elim (Bool-cases (newer m.created_at l.created_at)) [
  | inl after ↦ rw after (pm, insert_All P newer l ms pl pms)
  | inr before ↦ rw before (pl, (pm, pms))
]

sort_All {κ} :
    (P : LogEntry → Type κ) (newer : Text → Text → Bool) (ls : List LogEntry)
    → All P ls
    → All P (sort_logs newer ls)
sort_All P newer [] _ = tt
sort_All P newer (l ∷ ls) (pl, pls) =
    insert_All P newer l (sort_logs newer ls) pl (sort_All P newer ls pls)

filter_All : (p : LogEntry → Bool) (ls : List LogEntry) → All (λ l. p l ≡ true) (filter p ls)
filter_All p [] = tt
filter_All p (l ∷ ls) = elim (Bool-cases (p l)) [
  | inl passed ↦ rw passed (passed, filter_All p ls)
  | inr failed ↦ rw failed (filter_All p ls)
]

take-All {κ} : (P : LogEntry → Type κ) (n : ℕ) (ls : List LogEntry) → All P ls → All P (take n ls)
take-All P zero ls h = tt
take-All P (suc n) [] h = tt
take-All P (suc n) (l ∷ ls) (pl, h) = (pl, take-All P n ls h)

drop-All {κ} : (P : LogEntry → Type κ) (n : ℕ) (ls : List LogEntry) → All P ls → All P (drop n ls)
drop-All P zero ls h = h
drop-All P (suc n) [] h = tt
drop-All P (suc n) (l ∷ ls) (pl, h) = drop-All P n ls h

page_items-All {κ} :
    (P : LogEntry → Type κ) (page size : ℕ) (ls : List LogEntry)
    → All P ls
    → All P (page_items page size ls) × (length (page_items page size ls) ≤ size)
unfolding page_items
page_items-All P page size ls h =
    let left = drop ((page - 1) * size) ls in
    (
      take-All P size left (drop-All P ((page - 1) * size) ls h),
      omega (arith, length-take size left),
    )

-- Every entry on the page that is shown passes all the filters, and there are at most as many as
-- the page size.
pub render_logs_items :
    (newer : Text → Text → Bool) (f : Filters) (page size : ℕ) (logs : List LogEntry)
    → let shown = (render_logs newer f page size logs).items in
      All (λ l. passes f l ≡ true) shown × (length shown ≤ size)
unfolding render_logs
render_logs_items newer f page size logs =
    page_items-All (λ l. passes f l ≡ true) _ size _
      (sort_All (λ l. passes f l ≡ true) newer (filter (passes f) logs)
        (filter_All (passes f) logs))
