-- ===== src/App/Paging.antt =====
-- app.js, paging: the page arithmetic of `renderTasks` and `renderLogs`, and `paginationHtml`.
use cockpit_cronplus.Common.{
  ℕ, zero, suc, ◌+◌, ◌-◌, ◌*◌, ◌/◌, ◌≤◌, ◌<◌, ◌≡◌, refl, ap, sym, ◌∙◌, Bool, true, false, List, [],
  ◌∷◌, ◌++◌, if◌then◌else◌, ltb, leb, ◌==◌, length, take, drop, min, max, arith, All, All-append,
}

-- `Math.max(1, Math.ceil(n / size))`, for a size that is not 0
unfoldable pub page_count : ℕ → ℕ → ℕ
page_count n size = max 1 ((n + size - 1) / size)

-- `if (page > total) page = total; if (page < 1) page = 1;`
unfoldable pub clamp_page : ℕ → ℕ → ℕ
clamp_page page total = let p = if ltb total page then total else page in if ltb p 1 then 1 else p

-- `items.slice(start, start + size)` with `start = (page - 1) * size`
unfoldable pub page_items {ℓ} : {A : Type ℓ} → ℕ → ℕ → List A → List A
page_items page size items = take size (drop ((page - 1) * size) items)

-- One control of the pager: a button for a page, whether it is disabled, whether it is the active
-- one; or an ellipsis.
pub data Control : Type 0 where
  button : (target : ℕ) (disabled active : Bool) → Control
  ellipsis : Control

-- `for (p = start; p <= end; p++)`, with the rounds that are left
abbrev window : ℕ → ℕ → ℕ → List Control
window page zero p = []
window page (suc left) p = button p false (p == page) ∷ window page left (suc p)

-- The first page, and an ellipsis where pages are left out before the window.
abbrev before_window : ℕ → List Control
before_window first =
    if ltb 1 first then button 1 false false ∷ (if ltb 2 first then ellipsis ∷ [] else []) else []

abbrev after_window : ℕ → ℕ → List Control
after_window last total =
    if ltb last total
    then (if ltb last (total - 1) then ellipsis ∷ [] else []) ++ button total false false ∷ []
    else []

-- `paginationHtml`: the controls in their order, for a page from 1 on.
unfoldable pub pagination : ℕ → ℕ → List Control
pagination page total =
    let first = max 1 (page - 3) in
    let last = min total (page + 3) in
    button 1 (leb page 1) false
    ∷ button (page - 1) (leb page 1) false
    ∷ (before_window first
        ++ (window page (last + 1 - first) first
            ++ (after_window last total
                ++ button (page + 1) (leb total page) false
                  ∷ button total (leb total page) false
                  ∷ [])))

-- `renderPagination` and `renderTaskPagination`: no pager for one page.
unfoldable pub render_pagination : ℕ → ℕ → List Control
render_pagination page total = if leb total 1 then [] else pagination page total

-- The page is at least 1 and at most the number of pages, whatever it was before.
pub clamp_page_bounds :
    (page n size : ℕ)
    → (1 ≤ clamp_page page (page_count n size))
      × (clamp_page page (page_count n size) ≤ page_count n size)
unfolding clamp_page page_count
clamp_page_bounds page n size = ground arith

-- All pages from `p` on, `left` of them.
abbrev pub pages_from {ℓ} : {A : Type ℓ} → ℕ → ℕ → ℕ → List A → List A
pages_from zero p size items = []
pages_from (suc left) p size items = page_items p size items ++ pages_from left (suc p) size items

drop-nil {ℓ} : {A : Type ℓ} (n : ℕ) → drop {A = A} n [] ≡ []
drop-nil zero = refl
drop-nil (suc n) = refl

drop-drop {ℓ} : {A : Type ℓ} (m n k : ℕ) (xs : List A) → m + n ≡ k → drop n (drop m xs) ≡ drop k xs
drop-drop zero n k xs e = let e' : n ≡ k = omega arith in rw e'
drop-drop (suc m) n k [] e = drop-nil n ∙ sym (drop-nil k)
drop-drop (suc m) n zero (x ∷ xs) e = absurd (omega arith)
drop-drop (suc m) n (suc k) (x ∷ xs) e = drop-drop m n k xs (omega arith)

drop_all {ℓ} : {A : Type ℓ} (k : ℕ) (xs : List A) → length xs ≤ k → drop k xs ≡ []
drop_all k [] h = drop-nil k
drop_all zero (x ∷ xs) h = absurd (omega arith)
drop_all (suc k) (x ∷ xs) h = drop_all k xs (omega arith)

take-append-drop {ℓ} : {A : Type ℓ} (n : ℕ) (xs : List A) → take n xs ++ drop n xs ≡ xs
take-append-drop zero xs = refl
take-append-drop (suc n) [] = refl
take-append-drop (suc n) (x ∷ xs) = rw (take-append-drop n xs)

suc_pred : (p : ℕ) → 1 ≤ p → suc p - 1 ≡ p - 1 + 1
suc_pred p h = omega arith

drop_zero {ℓ} : {A : Type ℓ} (k : ℕ) (xs : List A) → k ≡ 0 → drop k xs ≡ xs
drop_zero k xs e = rw e

pages_from-drop {ℓ} :
    {A : Type ℓ} (left p size : ℕ) (xs : List A)
    → 1 ≤ p
    → length xs ≤ (p - 1) * size + left * size
    → pages_from left p size xs ≡ drop ((p - 1) * size) xs
unfolding page_items
pages_from-drop zero p size xs one h = sym (drop_all ((p - 1) * size) xs (omega arith))
pages_from-drop (suc left) p size xs one h =
    let e : (p - 1) * size + size ≡ (suc p - 1) * size =
      omega (arith, ap (λ (t : ℕ). t * size) (suc_pred p one)) in
    rw (pages_from-drop left (suc p) size xs (omega arith) (omega (arith, e, h))) (
      rw (← drop-drop ((p - 1) * size) size ((suc p - 1) * size) xs e)
        (take-append-drop size (drop ((p - 1) * size) xs)))

page_count-covers : (n size : ℕ) → 0 < size → n ≤ max 1 ((n + size - 1) / size) * size
page_count-covers n size h = grind arith

-- For a page size that is not 0, the pages in their order make up the whole list.
pub pages-append :
    {A : Type 0} (size : ℕ) (items : List A)
    → 0 < size
    → pages_from (page_count (length items) size) 1 size items ≡ items
unfolding page_count
pages-append size items h =
    pages_from-drop (max 1 ((length items + size - 1) / size)) 1 size items (omega arith)
      (omega (arith, page_count-covers (length items) size h))
    ∙ drop_zero ((1 - 1) * size) items (omega arith)

-- Every enabled button of the pager leads to a page that exists, for a page from 1 to `total`.
abbrev pub IsWithin : ℕ → Control → Type 0
IsWithin total (button target true active) = Unit
IsWithin total (button target false active) = (1 ≤ target) × (target ≤ total)
IsWithin total ellipsis = Unit

window-IsWithin :
    (page total left p : ℕ)
    → 1 ≤ p
    → p + left ≤ total + 1
    → All (IsWithin total) (window page left p)
window-IsWithin page total zero p one h = tt
window-IsWithin page total (suc left) p one h =
    ((one, omega arith), window-IsWithin page total left (suc p) (omega arith) (omega arith))

before_window-IsWithin : (total first : ℕ) → 1 ≤ total → All (IsWithin total) (before_window first)
before_window-IsWithin total first h = ground arith

after_window-IsWithin :
    (last total : ℕ) → 1 ≤ total → All (IsWithin total) (after_window last total)
after_window-IsWithin last total h = ground arith

-- For a page that exists, no control that can be pressed leads to a page that does not.
pub pagination-IsWithin :
    (page total : ℕ) → 1 ≤ page → page ≤ total → All (IsWithin total) (pagination page total)
unfolding pagination
pagination-IsWithin page total one h =
    let first = max 1 (page - 3) in
    let last = min total (page + 3) in
    let ends =
      button (page + 1) (leb total page) false ∷ button total (leb total page) false ∷ [] in
    (
      ground arith,
      (
        ground arith,
        All-append (IsWithin total) (before_window first) _
            (before_window-IsWithin total first (omega arith))
            (All-append (IsWithin total) (window page (last + 1 - first) first) _
              (window-IsWithin page total (last + 1 - first) first (omega arith) (omega arith))
              (All-append (IsWithin total) (after_window last total) ends
                (after_window-IsWithin last total (omega arith)) (ground arith))),
      ),
    )
