-- ===== src/App/TaskView/Cards.antt =====
-- The cards of the task list stand for the tasks that their buttons act on.
use cockpit_cronplus.Common.{
  ℕ, zero, suc, ◌+◌, ◌-◌, ◌*◌, ◌≤◌, ◌≡◌, refl, ◌∙◌, ap, inl, inr, arith, Bool, true, some, List, [],
  ◌∷◌, map, ◌==◌, Text, length, length-take, filter, take, drop, get_elem?, All, Bool-cases,
}
use cockpit_cronplus.App.Types.{Task}
use cockpit_cronplus.App.Paging.{page_count, clamp_page, page_items}
use cockpit_cronplus.App.Store.{Page}
use cockpit_cronplus.App.TaskView.{Card, render_tasks, is_found, indexed, card}

module _ {A : Type 0} (P : A → Type 0) where
  All-take : (n : ℕ) (xs : List A) → All P xs → All P (take n xs)
  All-take zero xs h = tt
  All-take (suc n) [] h = tt
  All-take (suc n) (x ∷ xs) (p, h) = (p, All-take n xs h)

  All-drop : (n : ℕ) (xs : List A) → All P xs → All P (drop n xs)
  All-drop zero xs h = h
  All-drop (suc n) [] h = tt
  All-drop (suc n) (x ∷ xs) (p, h) = All-drop n xs h

  All-page_items : (page size : ℕ) (xs : List A) → All P xs → All P (page_items page size xs)
  unfolding page_items
  All-page_items page size xs h = All-take size (drop _ xs) (All-drop _ xs h)

  All-filter :
      (test : A → Bool) (xs : List A) → All P xs → All (λ x. P x × (test x ≡ true)) (filter test xs)
  All-filter test [] h = tt
  All-filter test (x ∷ xs) (p, h) = elim (Bool-cases (test x)) [
    | inl kept ↦ rw kept ((p, kept), All-filter test xs h)
    | inr left ↦ rw left (All-filter test xs h)
  ]

length-map : {A B : Type 0} (f : A → B) (xs : List A) → length (map f xs) ≡ length xs
length-map f [] = refl
length-map f (x ∷ xs) = ap suc (length-map f xs)

length-page_items :
    {A : Type 0} (page size : ℕ) (xs : List A) → length (page_items page size xs) ≤ size
unfolding page_items
length-page_items page size xs = omega (arith, length-take size (drop ((page - 1) * size) xs))

All-map :
    {A B : Type 0} (P : B → Type 0) (f : A → B) (xs : List A)
    → All (λ x. P (f x)) xs
    → All P (map f xs)
All-map P f [] h = tt
All-map P f (x ∷ xs) (p, h) = (p, All-map P f xs h)

-- Each task stands at its index.
indexed-All :
    (all_tasks : List Task) (i : ℕ) (ts : List Task)
    → ((j : ℕ) → get_elem? all_tasks (i + j) ≡ get_elem? ts j)
    → All (λ x. get_elem? all_tasks x.0 ≡ some x.1) (indexed i ts)
indexed-All all_tasks i [] h = tt
indexed-All all_tasks i (t ∷ ts) h = (
  ap (get_elem? all_tasks) (omega arith) ∙ h 0,
  indexed-All all_tasks (suc i) ts (λ j. ap (get_elem? all_tasks) (omega arith) ∙ h (suc j)),
)

-- What a card promises: its task is found by the search and stands in the list at the card's index.
abbrev pub IsCard : (Text → Text) → Text → Page → Card → Type 0
IsCard lower search p c =
    (get_elem? p.tasks c.index ≡ some c.task) × (is_found lower search c.task ≡ true)

-- Every card on the page of the task list stands for a task that the search finds, at the index that
-- its buttons pass on, and there are at most as many as the page size.
pub render_tasks_cards :
    (lower t : Text → Text) (fuel now : ℕ) (search : Text) (p : Page)
    → All (IsCard lower search p) (render_tasks lower t fuel now search p).cards
      × (length (render_tasks lower t fuel now search p).cards ≤ p.task_page_size)
unfolding render_tasks card
render_tasks_cards lower t fuel now search p =
    let found_at = filter (λ x. is_found lower search x.1) (indexed 0 p.tasks) in
    let size = p.task_page_size in
    let page = clamp_page p.task_page (page_count (length found_at) size) in
    let good =
      All-filter (λ x. get_elem? p.tasks x.0 ≡ some x.1) (λ x. is_found lower search x.1)
        (indexed 0 p.tasks)
        (indexed-All p.tasks 0 p.tasks (λ j. ap (get_elem? p.tasks) (omega arith))) in
    elim (Bool-cases (length found_at == 0)) [
      | inl nothing ↦ rw nothing (tt, omega arith)
      | inr some_found ↦ rw some_found (
        All-map (IsCard lower search p) (card t fuel now p) (page_items page size found_at)
            (All-page_items _ page size found_at good),
        omega (
          arith,
          length-map (card t fuel now p) (page_items page size found_at),
          length-page_items page size found_at,
        ),
      )
    ]
