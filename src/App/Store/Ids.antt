-- ===== src/App/Store/Ids.antt =====
-- The ids of the tasks: each task has one, no two have the same, and every handler keeps it so.
use cockpit_cronplus.Common.{
  ℕ, zero, suc, ◌+◌, ◌≤◌, ◌<◌, ◌≡◌, ◌≢◌, refl, sym, Option, none, some, List, [], ◌∷◌, ◌++◌, max,
  is_empty, trim, set, get_elem?, remove_at, arith, All, All-append, Bool-cases, Option-cases, inl,
  inr, subst,
}
use cockpit_cronplus.App.Types.{Task}
use cockpit_cronplus.App.Form.{Form, form_task}
use cockpit_cronplus.App.Store.{
  Page, Call, toggled, toggle_task, delete_splice, max_id_from, max_id, save_task, Item,
  import_item, import_items, import_config,
}

-- No task of the list has this id.
abbrev pub IsFree : ℕ → List Task → Type 0
IsFree id = All (λ t. t.id ≢ id)

abbrev pub HasUniqueIds : List Task → Type 0
HasUniqueIds [] = Unit
HasUniqueIds (t ∷ ts) = IsFree t.id ts × HasUniqueIds ts

pub record IsValid (tasks : List Task) : Type 0 where
  pub positive : All (λ t. 0 < t.id) tasks
  pub unique : HasUniqueIds tasks

max_id_from-le : (m : ℕ) (ts : List Task) → m ≤ max_id_from m ts
max_id_from-le m [] = omega arith
max_id_from-le m (t ∷ ts) = omega (arith, max_id_from-le (max m t.id) ts)

max_id_from-All : (m : ℕ) (ts : List Task) → All (λ t. t.id ≤ max_id_from m ts) ts
max_id_from-All m [] = tt
max_id_from-All m (t ∷ ts) =
    (omega (arith, max_id_from-le (max m t.id) ts), max_id_from-All (max m t.id) ts)

le-IsFree : (k id : ℕ) (ts : List Task) → k < id → All (λ t. t.id ≤ k) ts → IsFree id ts
le-IsFree k id [] h _ = tt
le-IsFree k id (t ∷ ts) h (le, a) = (λ e. absurd (omega arith), le-IsFree k id ts h a)

-- An id above the largest is free.
pub max_id-IsFree : (id : ℕ) (ts : List Task) → max_id ts < id → IsFree id ts
max_id-IsFree id ts h = le-IsFree (max_id ts) id ts h (max_id_from-All 0 ts)

IsFree-append : (id : ℕ) (ts us : List Task) → IsFree id ts → IsFree id us → IsFree id (ts ++ us)
IsFree-append id ts us = All-append (λ t. t.id ≢ id) ts us

-- Lists whose ids lie on different sides of a bound go together.
append-HasUniqueIds :
    (k : ℕ) (ts us : List Task)
    → All (λ t. t.id ≤ k) ts
    → All (λ t. k < t.id) us
    → HasUniqueIds ts
    → HasUniqueIds us
    → HasUniqueIds (ts ++ us)
append-HasUniqueIds k [] us _ _ _ h = h
append-HasUniqueIds k (t ∷ ts) us (le, a) above (free, h) g =
    (IsFree-append t.id ts us free (gt-IsFree us above le), append-HasUniqueIds k ts us a above h g)
  where
    gt-IsFree : (vs : List Task) → All (λ v. k < v.id) vs → t.id ≤ k → IsFree t.id vs
    gt-IsFree [] _ _ = tt
    gt-IsFree (v ∷ vs) (lt, b) l = (λ e. absurd (omega arith), gt-IsFree vs b l)

All-weaken : (k m : ℕ) (ts : List Task) → k ≤ m → All (λ t. m < t.id) ts → All (λ t. k < t.id) ts
All-weaken k m [] h _ = tt
All-weaken k m (t ∷ ts) h (lt, a) = (omega arith, All-weaken k m ts h a)

-- `set` at an index with a task of the same id.
set-IsFree :
    (id : ℕ) (ts : List Task) (i : ℕ) {old : Task} (new : Task)
    → get_elem? ts i ≡ some old
    → new.id ≡ old.id
    → IsFree id ts
    → IsFree id (set ts i new)
set-IsFree id [] i new e same h = tt
set-IsFree id (t ∷ ts) zero {old} new e same (ne, h) = (λ q. ne (cc), h)
set-IsFree id (t ∷ ts) (suc i) {old} new e same (ne, h) =
    (ne, set-IsFree id ts i {old = old} new e same h)

set-IsValid :
    (ts : List Task) (i : ℕ) {old : Task} (new : Task)
    → get_elem? ts i ≡ some old
    → new.id ≡ old.id
    → IsValid ts
    → IsValid (set ts i new)
set-IsValid [] i new e same v = v
set-IsValid (t ∷ ts) zero {old} new e same v =
    let q : new.id ≡ t.id = cc in
    record {
      positive = (subst (λ k. 0 < k) (sym q) v.positive.0, v.positive.1);
      unique = (subst (λ k. IsFree k ts) (sym q) v.unique.0, v.unique.1);
    }
set-IsValid (t ∷ ts) (suc i) {old} new e same v =
    let rest =
      set-IsValid ts i {old = old} new e same
        (record { positive = v.positive.1; unique = v.unique.1 }) in
    record {
      positive = (v.positive.0, rest.positive);
      unique = (set-IsFree t.id ts i {old = old} new e same v.unique.0, rest.unique);
    }

remove_at-All : (P : Task → Type 0) (ts : List Task) (i : ℕ) → All P ts → All P (remove_at ts i)
remove_at-All P [] i h = tt
remove_at-All P (t ∷ ts) zero (p, h) = h
remove_at-All P (t ∷ ts) (suc i) (p, h) = (p, remove_at-All P ts i h)

remove_at-HasUniqueIds : (ts : List Task) (i : ℕ) → HasUniqueIds ts → HasUniqueIds (remove_at ts i)
remove_at-HasUniqueIds [] i h = tt
remove_at-HasUniqueIds (t ∷ ts) zero (f, h) = h
remove_at-HasUniqueIds (t ∷ ts) (suc i) (f, h) =
    (remove_at-All (λ u. u.id ≢ t.id) ts i f, remove_at-HasUniqueIds ts i h)

toggled_id : (t : Task) → (toggled t).id ≡ t.id
toggled_id t = ground arith

-- What a handler that may throw leaves behind is valid.
abbrev pub LeavesValid : Option (Page × List Call) → Type 0
LeavesValid none = Unit
LeavesValid (some (q, calls)) = IsValid q.tasks

-- Toggling a task keeps the ids valid: they are positive, and no two tasks share one.
pub toggle_task-IsValid : (p : Page) (i : ℕ) → IsValid p.tasks → LeavesValid (toggle_task p i)
unfolding toggle_task
toggle_task-IsValid p i v = elim (Option-cases (get_elem? p.tasks i)) [
  | inl missing ↦ rw (missing, toggle_task) tt
  | inr (t, there) ↦
      rw (there, toggle_task) (set-IsValid p.tasks i {old = t} (toggled t) there (toggled_id t) v)
]

form_task_id : (f : Form) (id : ℕ) → (form_task f id).id ≡ id
unfolding form_task
form_task_id f id = refl

above_max : (m : ℕ) (ts : List Task) → max_id ts < m → All (λ t. t.id ≤ max_id ts) ts
above_max m ts h = max_id_from-All 0 ts

append-IsValid :
    (ts us : List Task)
    → All (λ u. max_id ts < u.id) us
    → HasUniqueIds us
    → IsValid ts
    → IsValid (ts ++ us)
append-IsValid ts us above h v = record {
  positive =
      All-append (λ t. 0 < t.id) ts us v.positive (All-weaken 0 (max_id ts) us (omega arith) above);
  unique = append-HasUniqueIds (max_id ts) ts us (max_id_from-All 0 ts) above v.unique h;
}

-- Where the ids are valid, they are so after saving the dialog, for a new task and for an edited one.
pub save_task-IsValid : (p : Page) (f : Form) → IsValid p.tasks → LeavesValid (save_task p f)
unfolding save_task
save_task-IsValid p f v = elim (Bool-cases (is_empty (trim f.command))) [
  | inl blank ↦ rw blank v
  | inr given ↦ elim (Option-cases p.editing) [
    | inl new ↦
        rw (given, new, save_task)
          (append-IsValid p.tasks (form_task f (max_id p.tasks + 1) ∷ [])
            (unfold form_task in (omega arith, tt)) (tt, tt) v)
    | inr (i, edited) ↦ elim (Option-cases (get_elem? p.tasks i)) [
      | inl missing ↦ rw (given, edited, missing, save_task) tt
      | inr (old, there) ↦
          rw (given, edited, there, save_task)
            (set-IsValid p.tasks i {old = old} (form_task f old.id) there (form_task_id f old.id) v)
    ]
  ]
]

import_items-above :
    (last : ℕ) (items : List Item) → All (λ t. last < t.id) (import_items last items)
unfolding import_item
import_items-above last [] = tt
import_items-above last (item ∷ items) = elim (Bool-cases (is_empty item.task.command)) [
  | inl passed ↦ rw passed (import_items-above last items)
  | inr taken ↦ rw taken (
    omega arith,
    All-weaken last (suc last) (import_items (suc last) items) (omega arith)
        (import_items-above (suc last) items),
  )
]

above-IsFree : (k : ℕ) (ts : List Task) → All (λ t. k < t.id) ts → IsFree k ts
above-IsFree k [] _ = tt
above-IsFree k (t ∷ ts) (lt, a) = (λ e. absurd (omega arith), above-IsFree k ts a)

import_items-HasUniqueIds : (last : ℕ) (items : List Item) → HasUniqueIds (import_items last items)
unfolding import_item
import_items-HasUniqueIds last [] = tt
import_items-HasUniqueIds last (item ∷ items) = elim (Bool-cases (is_empty item.task.command)) [
  | inl passed ↦ rw passed (import_items-HasUniqueIds last items)
  | inr taken ↦ rw taken (
    above-IsFree (suc last) (import_items (suc last) items) (import_items-above (suc last) items),
    import_items-HasUniqueIds (suc last) items,
  )
]

-- Importing a file keeps the ids valid, whatever ids its tasks had.
pub import_config-IsValid :
    (p : Page) (file : Option (List Item))
    → IsValid p.tasks
    → IsValid (import_config p file).0.tasks
unfolding import_config
import_config-IsValid p none v = v
import_config-IsValid p (some items) v =
    append-IsValid p.tasks (import_items (max_id p.tasks) items)
      (import_items-above (max_id p.tasks) items) (import_items-HasUniqueIds (max_id p.tasks) items)
      v

-- Deleting, at whatever index, keeps the ids valid.
pub delete_splice-IsValid :
    (p : Page) (i : ℕ) → IsValid p.tasks → IsValid (delete_splice p i).0.tasks
unfolding delete_splice
delete_splice-IsValid p i v = record {
  positive = remove_at-All (λ t. 0 < t.id) p.tasks i v.positive;
  unique = remove_at-HasUniqueIds p.tasks i v.unique;
}
