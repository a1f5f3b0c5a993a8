-- ===== src/App/DaemonLog.antt =====
-- app.js, the daemon's log: the lines that `renderDaemonLogs` shows, from those that were read.
pub mod Parse
pub mod Timer
use cockpit_cronplus.Common.{
  ℕ, suc, ◌≤◌, ◌≡◌, refl, ap, inl, inr, Bool, true, false, not, ◌&&◌, Option, none, some, List, [],
  ◌∷◌, ◌++◌, if◌then◌else◌, ◌==◌, leb, Text, codes, text_eq, is_empty, is_digit, trim_start,
  drop_prefix, length, filter, any, last_of, arith, Option-cases, text_eq→eq,
}
use cockpit_cronplus.Cron.Next.{◌>>=◌}

-- A line, with the level that `parseLogLine` gave it.
pub record Line : Type 0 where
  pub ts : Text
  pub name : Text
  pub level : Text
  pub msg : Text

-- `LOG_LEVEL_MAP[level] || 0`
unfoldable pub level_rank : Text → ℕ
level_rank level =
    if text_eq level (codes "INFO")
    then 1
    else if text_eq level (codes "WARNING")
    then 2
    else if text_eq level (codes "ERROR")
    then 3
    else if text_eq level (codes "CRITICAL")
    then 4
    else 0

-- `(\d+)\]`: the digits, where there are some and a bracket follows.
abbrev digits_then_bracket : Text → Text → Option Text
digits_then_bracket cur [] = none
digits_then_bracket cur (c ∷ s) =
    let more = digits_then_bracket (cur ++ c ∷ []) s in
    if is_digit c then more else if c == b']' && not (is_empty cur) then some cur else none

-- The task id of `/^Next:\s*task\s*\[(\d+)\]/`
unfoldable pub next_id : Text → Option Text
next_id msg = do
  s ← drop_prefix (codes "Next:") msg
  s' ← drop_prefix (codes "task") (trim_start s)
  s'' ← drop_prefix (codes "[") (trim_start s')
  digits_then_bracket [] s''

abbrev pub has_seen : Text → List Text → Bool
has_seen id seen = any (λ s. text_eq s id) seen

-- The filter on the "Next:" lines, with the ids that were seen.
unfoldable pub dedup : List Text → List Line → List Line
dedup seen [] = []
dedup seen (l ∷ ls) =
    let same = dedup seen ls in
    elim (next_id l.msg) [
      | none ↦ l ∷ same
      | some id ↦ let more = dedup (id ∷ seen) ls in if has_seen id seen then same else l ∷ more
    ]

-- `renderDaemonLogs` with the chosen level, none for all, and the number of lines, none where it is
-- no number: the lines that are shown, and how many there were to choose from.
unfoldable pub render_daemon_logs : Option Text → Option ℕ → List Line → List Line × ℕ
render_daemon_logs level lines all_lines =
    let most : ℕ = elim lines [ none ↦ 100 | some n ↦ if n == 0 then 100 else n ] in
    let chosen : List Line = elim level [
      | none ↦ all_lines
      | some wanted ↦ filter (λ l. leb (level_rank wanted) (level_rank l.level)) all_lines
    ] in
    let filtered = dedup [] chosen in (last_of most filtered, length filtered)

-- Whether a line is about the next run of a task, the first such line, and how many there are.
abbrev pub is_next : Text → Line → Bool
is_next id l = elim (next_id l.msg) [ none ↦ false | some j ↦ text_eq j id ]

abbrev pub first_next : Text → List Line → Option Line
first_next id [] = none
first_next id (l ∷ ls) = let rest = first_next id ls in if is_next id l then some l else rest

abbrev pub times_next : Text → List Line → ℕ
times_next id [] = 0
times_next id (l ∷ ls) = let rest = times_next id ls in if is_next id l then suc rest else rest

same_seen :
    (j id : Text) (seen : List Text) → text_eq j id ≡ true → has_seen j seen ≡ has_seen id seen
same_seen j id seen e = ap (λ k. has_seen k seen) (text_eq→eq j id e)

first_next-seen :
    (id : Text) (seen : List Text) (ls : List Line)
    → first_next id (dedup seen ls) ≡ (if has_seen id seen then none else first_next id ls)
unfolding dedup
first_next-seen id seen [] = ground arith
first_next-seen id seen (l ∷ ls) = elim (Option-cases (next_id l.msg)) [
  | inl other ↦
      let is : is_next id l ≡ false = rw (is_next, other) refl in
      rw (dedup, other, is) (first_next-seen id seen ls)
  | inr (j, found) ↦
      let is : is_next id l ≡ text_eq j id = rw (is_next, found) refl in
      rw (dedup, found)
        (ground (
          arith,
          is,
          first_next-seen id seen ls,
          first_next-seen id (j ∷ seen) ls,
          same_seen j id seen,
        ))
]

times_next-seen :
    (id : Text) (seen : List Text) (ls : List Line)
    → times_next id (dedup seen ls) ≤ (if has_seen id seen then 0 else 1)
unfolding dedup
times_next-seen id seen [] = ground arith
times_next-seen id seen (l ∷ ls) = elim (Option-cases (next_id l.msg)) [
  | inl other ↦
      let is : is_next id l ≡ false = rw (is_next, other) refl in
      rw (dedup, other, is) (times_next-seen id seen ls)
  | inr (j, found) ↦
      let is : is_next id l ≡ text_eq j id = rw (is_next, found) refl in
      rw (dedup, found)
        (ground (
          arith,
          is,
          times_next-seen id seen ls,
          times_next-seen id (j ∷ seen) ls,
          same_seen j id seen,
        ))
]

abbrev pub is_other : Line → Bool
is_other l = elim (next_id l.msg) [ none ↦ true | some j ↦ false ]

filter-dedup :
    (seen : List Text) (ls : List Line) → filter is_other (dedup seen ls) ≡ filter is_other ls
unfolding dedup
filter-dedup seen [] = refl
filter-dedup seen (l ∷ ls) = elim (Option-cases (next_id l.msg)) [
  | inl other ↦
      let is : is_other l ≡ true = rw (is_other, other) refl in
      rw (dedup, other, is) (ap (λ rest. l ∷ rest) (filter-dedup seen ls))
  | inr (j, found) ↦
      let is : is_other l ≡ false = rw (is_other, found) refl in
      rw (dedup, found) (ground (arith, is, filter-dedup seen ls, filter-dedup (j ∷ seen) ls))
]

-- For each task id, at most one of the lines about its next run is kept, and it is the first of
-- them; all other lines are kept in their order.
pub dedup-first_next :
    (id : Text) (ls : List Line)
    → (times_next id (dedup [] ls) ≤ 1)
      × (first_next id (dedup [] ls) ≡ first_next id ls)
      × (filter is_other (dedup [] ls) ≡ filter is_other ls)
dedup-first_next id ls = (times_next-seen id [] ls, first_next-seen id [] ls, filter-dedup [] ls)
