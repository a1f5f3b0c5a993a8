-- ===== src/App/Store/Steps.antt =====
-- The task list through any sequence of the page's operations.
use cockpit_cronplus.Common.{ℕ, ◌≡◌, Bool-cases, ◌==◌, inl, inr, Option, none, some, List, subst}
use cockpit_cronplus.App.Form.{Form}
use cockpit_cronplus.App.Store.{
  Page, Call, Item, toggle_task, delete_splice, delete_forget, save_task, import_config,
  load_running,
}
use cockpit_cronplus.App.Store.Ids.{
  IsValid, LeavesValid, toggle_task-IsValid, save_task-IsValid, import_config-IsValid,
  delete_splice-IsValid,
}

-- The pages that come from `p`: a task is toggled, the dialog opened or saved, a file imported, a task
-- deleted at an index and forgotten, or the running tasks are loaded.
pub data Reaches (p : Page) : Page → Type 0 where
  here : Reaches p p
  toggles :
      (q : Page) (i : ℕ) (r : Page) (calls : List Call)
      → Reaches p q
      → toggle_task q i ≡ some (r, calls)
      → Reaches p r
  saves :
      (q : Page) (f : Form) (r : Page) (calls : List Call)
      → Reaches p q
      → save_task q f ≡ some (r, calls)
      → Reaches p r
  opens : (q : Page) (index : Option ℕ) → Reaches p q → Reaches p (record q { editing = index })
  imports :
      (q : Page) (file : Option (List Item)) → Reaches p q → Reaches p (import_config q file).0
  deletes : (q : Page) (i : ℕ) → Reaches p q → Reaches p (delete_splice q i).0
  forgets : (q : Page) (id : ℕ) → Reaches p q → Reaches p (delete_forget q id).0
  loads : (q : Page) (ids : Option (List ℕ)) → Reaches p q → Reaches p (load_running q ids)

forget-IsValid : (q : Page) (id : ℕ) → IsValid q.tasks → IsValid (delete_forget q id).0.tasks
unfolding delete_forget
forget-IsValid q id v = elim (Bool-cases (id == 0)) [
  | inl no_id ↦ rw no_id v
  | inr given ↦ rw given v
]

running-IsValid :
    (q : Page) (ids : Option (List ℕ)) → IsValid q.tasks → IsValid (load_running q ids).tasks
unfolding load_running
running-IsValid q none v = v
running-IsValid q (some ids) v = v

-- From a page whose tasks have positive and distinct ids, every sequence of toggling, saving the dialog,
-- importing and deleting comes to a page whose tasks have such ids.
pub Reaches-IsValid : (p q : Page) → IsValid p.tasks → Reaches p q → IsValid q.tasks
Reaches-IsValid p _ v here = v
Reaches-IsValid p _ v (toggles q i r calls before e) =
    subst LeavesValid e (toggle_task-IsValid q i (Reaches-IsValid p q v before))
Reaches-IsValid p _ v (saves q f r calls before e) =
    subst LeavesValid e (save_task-IsValid q f (Reaches-IsValid p q v before))
Reaches-IsValid p _ v (opens q index before) = Reaches-IsValid p q v before
Reaches-IsValid p _ v (imports q file before) =
    import_config-IsValid q file (Reaches-IsValid p q v before)
Reaches-IsValid p _ v (deletes q i before) =
    delete_splice-IsValid q i (Reaches-IsValid p q v before)
Reaches-IsValid p _ v (forgets q id before) = forget-IsValid q id (Reaches-IsValid p q v before)
Reaches-IsValid p _ v (loads q ids before) = running-IsValid q ids (Reaches-IsValid p q v before)
