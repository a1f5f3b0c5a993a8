-- ===== src/App/LogView/Order.antt =====
-- app.js, `renderLogs`: the order of the entries that are shown.
use cockpit_cronplus.Common.{
  ℕ, zero, suc, ◌≡◌, inl, inr, Bool, true, false, List, [], ◌∷◌, Text, take, drop, filter,
  Bool-cases,
}
use cockpit_cronplus.App.Types.{LogEntry}
use cockpit_cronplus.App.Paging.{page_items}
use cockpit_cronplus.App.LogView.{Filters, passes, insert_log, sort_logs, render_logs}

module _ (newer : Text → Text → Bool) where
  -- No entry is newer than the one before it.
  abbrev pub IsNewestFirst : List LogEntry → Type 0
  IsNewestFirst [] = Unit
  IsNewestFirst (l ∷ []) = Unit
  IsNewestFirst (l ∷ m ∷ ms) = (newer m.created_at l.created_at ≡ false) × IsNewestFirst (m ∷ ms)

  -- An entry that may stand before a list.
  abbrev IsBefore : LogEntry → List LogEntry → Type 0
  IsBefore l [] = Unit
  IsBefore l (m ∷ ms) = newer m.created_at l.created_at ≡ false

  cons-IsNewestFirst :
      (l : LogEntry) (ms : List LogEntry)
      → IsBefore l ms
      → IsNewestFirst ms
      → IsNewestFirst (l ∷ ms)
  cons-IsNewestFirst l [] _ _ = tt
  cons-IsNewestFirst l (m ∷ ms) b h = (b, h)

  tail-IsNewestFirst :
      (l : LogEntry) (ms : List LogEntry) → IsNewestFirst (l ∷ ms) → IsNewestFirst ms
  tail-IsNewestFirst l [] h = tt
  tail-IsNewestFirst l (m ∷ ms) h = h.1

  head-IsBefore : (l : LogEntry) (ms : List LogEntry) → IsNewestFirst (l ∷ ms) → IsBefore l ms
  head-IsBefore l [] h = tt
  head-IsBefore l (m ∷ ms) h = h.0

  take-IsNewestFirst : (n : ℕ) (ls : List LogEntry) → IsNewestFirst ls → IsNewestFirst (take n ls)
  take-IsNewestFirst zero ls h = tt
  take-IsNewestFirst (suc n) [] h = tt
  take-IsNewestFirst (suc zero) (l ∷ ms) h = tt
  take-IsNewestFirst (suc (suc n)) (l ∷ []) h = tt
  take-IsNewestFirst (suc (suc n)) (l ∷ m ∷ ms) h = (h.0, take-IsNewestFirst (suc n) (m ∷ ms) h.1)

  drop-IsNewestFirst : (n : ℕ) (ls : List LogEntry) → IsNewestFirst ls → IsNewestFirst (drop n ls)
  drop-IsNewestFirst zero ls h = h
  drop-IsNewestFirst (suc n) [] h = tt
  drop-IsNewestFirst (suc n) (l ∷ ls) h = drop-IsNewestFirst n ls (tail-IsNewestFirst l ls h)

  module _ (asym : (a b : Text) → newer a b ≡ true → newer b a ≡ false) where
    insert-IsBefore :
        (l m : LogEntry) (ms : List LogEntry)
        → newer m.created_at l.created_at ≡ true
        → IsBefore m ms
        → IsBefore m (insert_log newer l ms)
    insert-IsBefore l m [] later h = asym m.created_at l.created_at later
    insert-IsBefore l m (k ∷ ks) later h = elim (Bool-cases (newer k.created_at l.created_at)) [
      | inl after ↦ rw after h
      | inr before ↦ rw before (asym m.created_at l.created_at later)
    ]

    insert-IsNewestFirst :
        (l : LogEntry) (ls : List LogEntry)
        → IsNewestFirst ls
        → IsNewestFirst (insert_log newer l ls)
    insert-IsNewestFirst l [] h = tt
    insert-IsNewestFirst l (m ∷ ms) h = elim (Bool-cases (newer m.created_at l.created_at)) [
      | inl later ↦ rw later (
          cons-IsNewestFirst m (insert_log newer l ms)
            (insert-IsBefore l m ms later (head-IsBefore m ms h))
            (insert-IsNewestFirst l ms (tail-IsNewestFirst m ms h)))
      | inr before ↦ rw before (before, h)
    ]

    sort-IsNewestFirst : (ls : List LogEntry) → IsNewestFirst (sort_logs newer ls)
    sort-IsNewestFirst [] = tt
    sort-IsNewestFirst (l ∷ ls) =
        insert-IsNewestFirst l (sort_logs newer ls) (sort-IsNewestFirst ls)

    -- Where of two times at most one is newer than the other, the entries on the page that is shown
    -- are in order: none is newer than the one before it.
    pub render_logs-IsNewestFirst :
        (f : Filters) (page size : ℕ) (logs : List LogEntry)
        → IsNewestFirst (render_logs newer f page size logs).items
    unfolding render_logs page_items
    render_logs-IsNewestFirst f page size logs = take-IsNewestFirst size _ (
        drop-IsNewestFirst _ (sort_logs newer (filter (passes f) logs))
          (sort-IsNewestFirst (filter (passes f) logs)))
