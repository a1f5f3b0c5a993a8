-- ===== src/App/Store/Delete.antt =====
-- What a confirmed deletion removes, and what it removes if the list changes while it waits.
use cockpit_cronplus.Common.{
  some_eq, ℕ, zero, suc, ◌<◌, ◌≡◌, ◌≢◌, refl, sym, ap, ◌∙◌, false, not, none, some, List, [], ◌∷◌,
  ◌==◌, ==_iff, get_elem?, find_index, filter, remove_at, arith, All, Bool-cases, Option-cases, inl,
  inr, any,
}
use cockpit_cronplus.App.Types.{Task, LogEntry}
use cockpit_cronplus.App.Store.{
  Page, Call, delete_target, delete_resolve, delete_splice, delete_forget, delete_task,
}
use cockpit_cronplus.App.Store.Ids.{IsFree, HasUniqueIds}

abbrev pub without : ℕ → List Task → List Task
without id = filter (λ t. not (t.id == id))

without_free : (id : ℕ) (ts : List Task) → IsFree id ts → without id ts ≡ ts
without_free id [] h = refl
without_free id (t ∷ ts) (ne, h) = ground (arith, without_free id ts h)

-- Removing the first task with an id is removing all with it, where ids are unique.
remove_at-find :
    (id : ℕ) (ts : List Task) (i : ℕ)
    → HasUniqueIds ts
    → find_index (λ t. t.id == id) ts ≡ some i
    → remove_at ts i ≡ without id ts
remove_at-find id [] i u e = absurd (cc)
remove_at-find id (t ∷ ts) i (free, u) e = elim (Bool-cases (t.id == id)) [
  | inl hit ↦
      let same : t.id ≡ id = (==_iff t.id id).0 hit in
      let at : 0 ≡ i = ground arith in rw (hit, ← at) (sym (without_free id ts (rw same at free)))
  | inr miss ↦ elim (Option-cases (find_index (λ u. u.id == id) ts)) [
    | inl absent ↦ absurd (ground arith)
    | inr (j, found) ↦
        let at : suc j ≡ i = ground arith in
        rw (miss, ← at) (ap (λ us. t ∷ us) (remove_at-find id ts j u found))
  ]
]

missing-without :
    (id : ℕ) (ts : List Task) → find_index (λ t. t.id == id) ts ≡ none → without id ts ≡ ts
missing-without id [] e = refl
missing-without id (t ∷ ts) e = elim (Option-cases (find_index (λ u. u.id == id) ts)) [
  | inl absent ↦ ground (arith, missing-without id ts absent)
  | inr (j, found) ↦ absurd (ground arith)
]

All-filtered :
    (id : ℕ) (ls : List LogEntry)
    → All (λ l. l.task_id ≢ id) (filter (λ l. not (l.task_id == id)) ls)
All-filtered id [] = tt
All-filtered id (l ∷ ls) = ground (arith, All-filtered id ls)

delete_target_id :
    (ts : List Task) (clicked : Task) (index : ℕ)
    → 0 < clicked.id
    → delete_target ts clicked index ≡ find_index (λ t. t.id == clicked.id) ts
unfolding delete_target
delete_target_id ts clicked index h = ground arith

abbrev found_page : Page → ℕ → ℕ → Page
found_page p i id = (delete_forget (delete_splice p i).0 id).0

delete_task_found :
    (p : Page) (clicked : Task) (index i : ℕ)
    → 0 < clicked.id
    → find_index (λ t. t.id == clicked.id) p.tasks ≡ some i
    → (delete_task p clicked index).0 ≡ found_page p i clicked.id
unfolding delete_task delete_resolve
delete_task_found p clicked index i h found =
    rw (delete_target_id p.tasks clicked index h ∙ found, delete_resolve, delete_task) refl

delete_task_absent :
    (p : Page) (clicked : Task) (index : ℕ)
    → 0 < clicked.id
    → find_index (λ t. t.id == clicked.id) p.tasks ≡ none
    → (delete_task p clicked index).0 ≡ p
unfolding delete_task delete_resolve
delete_task_absent p clicked index h absent =
    rw (delete_target_id p.tasks clicked index h ∙ absent, delete_resolve, delete_task) refl

forget-tasks : (p : Page) (id : ℕ) → (delete_forget p id).0.tasks ≡ p.tasks
unfolding delete_forget
forget-tasks p id = ground arith

-- Where no two tasks of the list have one id, a confirmed deletion of a task whose id is not 0, with
-- nothing else happening at its awaits, removes from the list exactly the task with that id, at
-- whatever index it was when the dialog was opened, and nothing where there is none.
pub delete_task-tasks :
    (p : Page) (clicked : Task) (index : ℕ)
    → 0 < clicked.id
    → HasUniqueIds p.tasks
    → (delete_task p clicked index).0.tasks ≡ without clicked.id p.tasks
unfolding delete_splice
delete_task-tasks p clicked index h u =
    elim (Option-cases (find_index (λ t. t.id == clicked.id) p.tasks)) [
      | inl absent ↦
          ap (λ (q : Page). q.tasks) (delete_task_absent p clicked index h absent)
          ∙ sym (missing-without clicked.id p.tasks absent)
      | inr (i, found) ↦
          ap (λ (q : Page). q.tasks) (delete_task_found p clicked index i h found)
          ∙ forget-tasks (delete_splice p i).0 clicked.id
          ∙ remove_at-find clicked.id p.tasks i u found
    ]

-- The page knows nothing more of a task.
pub record IsForgotten (id : ℕ) (q : Page) : Type 0 where
  pub logs : All (λ l. l.task_id ≢ id) q.logs
  pub running : any (λ r. r == id) q.running ≡ false
  pub filter : q.log_filter ≢ id

none_running : (id : ℕ) (rs : List ℕ) → any (λ r. r == id) (filter (λ r. not (r == id)) rs) ≡ false
none_running id [] = refl
none_running id (r ∷ rs) = ground (arith, none_running id rs)

forget-IsForgotten : (p : Page) (id : ℕ) → 0 < id → IsForgotten id (delete_forget p id).0
unfolding delete_forget
forget-IsForgotten p id h =
    let has_id : (id == 0) ≡ false = ground arith in
    rw has_id (record {
      logs = All-filtered id p.logs;
      running = none_running id p.running;
      filter = ground arith;
    })

-- A confirmed deletion of a task with an id that is still in the list leaves none of its log
-- entries, no mark that it runs, and not the log view's filter on it.
pub delete_task-IsForgotten :
    (p : Page) (clicked : Task) (index : ℕ) {i : ℕ}
    → 0 < clicked.id
    → find_index (λ t. t.id == clicked.id) p.tasks ≡ some i
    → IsForgotten clicked.id (delete_task p clicked index).0
unfolding delete_splice
delete_task-IsForgotten p clicked index {i} h found =
    rw (delete_task_found p clicked index i h found)
      (forget-IsForgotten (delete_splice p i).0 clicked.id h)

get-IsFree :
    (id : ℕ) (ts : List Task) (i : ℕ) {t : Task}
    → IsFree id ts
    → get_elem? ts i ≡ some t
    → t.id ≢ id
get-IsFree id [] i h e = absurd (cc)
get-IsFree id (u ∷ us) zero (ne, h) e = λ q. ne (ground arith)
get-IsFree id (u ∷ us) (suc i) {t} (ne, h) e = get-IsFree id us i {t = t} h e

remove_at-IsFree :
    (ts : List Task) (i : ℕ) {t : Task}
    → HasUniqueIds ts
    → get_elem? ts i ≡ some t
    → IsFree t.id (remove_at ts i)
remove_at-IsFree [] i u e = absurd (cc)
remove_at-IsFree (v ∷ vs) zero {t} (free, u) e = let q : v ≡ t = some_eq e in rw (← q) free
remove_at-IsFree (v ∷ vs) (suc i) {t} (free, u) e =
    (λ q. get-IsFree v.id vs i {t = t} free e (sym q), remove_at-IsFree vs i {t = t} u e)

remove_at-keeps :
    (ts : List Task) (i : ℕ) {t : Task} (id : ℕ)
    → get_elem? ts i ≡ some t
    → t.id ≢ id
    → any (λ v. v.id == id) (remove_at ts i) ≡ any (λ v. v.id == id) ts
remove_at-keeps [] i id e ne = absurd (cc)
remove_at-keeps (v ∷ vs) zero {t} id e ne = let q : v ≡ t = some_eq e in rw q (ground arith)
remove_at-keeps (v ∷ vs) (suc i) {t} id e ne = rw (remove_at-keeps vs i {t = t} id e ne)

-- The index is taken before the stop command is awaited. If the list is reloaded meanwhile, as `p'`, and a task with another id
-- stands at that index, then that task is deleted, and the confirmed one stays in the list if it is there.
pub delete_splice_stale :
    (p p' : Page) (clicked : Task) (index i : ℕ) {stop : List Call} {t : Task}
    → delete_resolve p clicked index ≡ some (i, stop)
    → HasUniqueIds p'.tasks
    → get_elem? p'.tasks i ≡ some t
    → t.id ≢ clicked.id
    → IsFree t.id (delete_splice p' i).0.tasks
      × (any (λ v. v.id == clicked.id) (delete_splice p' i).0.tasks
          ≡ any (λ v. v.id == clicked.id) p'.tasks)
unfolding delete_splice
delete_splice_stale p p' clicked index i {t = t} resolved u there ne = (
  remove_at-IsFree p'.tasks i {t = t} u there,
  remove_at-keeps p'.tasks i {t = t} clicked.id there ne,
)
