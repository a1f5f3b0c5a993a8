-- ===== src/Cron/Next/Complete.antt =====
-- The rounds of `nextRunTimeAfter` are enough: its `null` means that nothing matches in the four years.
use cockpit_cronplus.Common.{
  some_eq, ℕ, zero, suc, ◌+◌, ◌-◌, ◌*◌, ◌/◌, ◌≤◌, ◌<◌, ◌≡◌, ◌≢◌, refl, sym, ◌∙◌, inl, inr, arith,
  Bool, true, false, Option, none, some, [], ◌∷◌, Option-cases, Bool-cases, ltb, ltb→lt, ℤ,
}
use cockpit_cronplus.Cron.Calendar.{day_number, month, hour, minute, second}
use cockpit_cronplus.Cron.Field.{is_star, Field, wildcard, values, field_next_after, first_above}
use cockpit_cronplus.Cron.Next.{
  Spec, Fields, Move, invalid, jump, parse_fields, move_on, next_move, search_run, first_candidate,
  next_run_time_after, match_cron, max_iterations, horizon,
}
use cockpit_cronplus.Cron.Next.Sound.{
  IsPlainSpec, parse_fields-Parsed, fields_match, fields_match-match_cron, Move-cases,
}
use cockpit_cronplus.Cron.Next.Skip.{next_move-Skips}
use cockpit_cronplus.Cron.Next.First.{
  AreWithin, Parsed-AreRanged, IsNextRun, IsClear, start-IsClear, Skips-IsClear,
  next_run_time_after-IsNextRun,
}
use cockpit_cronplus.Cron.Next.Rank.{rank, rank-le}
use cockpit_cronplus.Cron.Next.Progress.{Progress, next_move-Progress}

-- The rounds that are left: six for each day up to the end, and those of the day.
abbrev rounds : Fields → ℕ → ℕ → ℕ
rounds f last c = 6 * (last - day_number c) + rank f c

Progress-rounds :
    (f : Fields) (last c c' : ℕ)
    → day_number c < last
    → Progress f c c'
    → rounds f last c' < rounds f last c
Progress-rounds f last c c' h (inl later) = omega (arith, rank-le f c')
Progress-rounds f last c c' h (inr (le, lower)) = omega arith

day-lt : (c limit : ℕ) → c < limit → day_number c < limit / 86400000 + 1
unfolding day_number
day-lt c limit h = omega arith

module _ (f : Fields) (move : ℕ → Move) (test : ℕ → Bool) (start limit : ℕ) where
  -- A search that fails within its rounds has passed over everything before the limit.
  search_run-none :
      ((c : ℕ) → move c ≢ invalid)
      → ((c c' : ℕ) → move c ≡ jump c' → Progress f c c')
      → ((c c' : ℕ) → IsClear test start c → move c ≡ jump c' → IsClear test start c')
      → (left cur : ℕ) → rounds f (limit / 86400000 + 1) cur < left
      → IsClear test start cur
      → search_run left move limit cur ≡ none
      → (u : ℕ) → start ≤ u
      → u < limit
      → test u ≡ false
  unfolding search_run
  search_run-none valid nearer keep zero cur few clear e u from to = absurd (omega arith)
  search_run-none valid nearer keep (suc left) cur few (le, clear) e u from to =
      elim (Bool-cases (ltb cur limit)) [
        | inr over ↦ clear u from (ground (arith, over))
        | inl within ↦ elim (Move-cases (move cur)) [
          | inl done ↦ absurd (cc (rw (within, done) at e))
          | inr (inl bad) ↦ absurd (valid cur bad)
          | inr (inr (c, go)) ↦
              search_run-none valid nearer keep left c
                (omega (
                  arith,
                  Progress-rounds f (limit / 86400000 + 1) cur c
                      (day-lt cur limit (ltb→lt cur limit within)) (nearer cur c go),
                  few,
                ))
                (keep cur c (le, clear) go) (rw (within, go) at e) u from to
        ]
      ]

-- The field has a value.
abbrev pub HasValue : Field → Type 0
HasValue wildcard = Unit
HasValue (values xs) = xs ≢ []

-- The fields for which a round looks for a value have one.
pub record HaveValues (f : Fields) : Type 0 where
  pub sec : HasValue f.sec
  pub min : HasValue f.min
  pub hour : HasValue f.hour
  pub month : HasValue f.month

next_value : (f : Field) (k : ℕ) → HasValue f → field_next_after f k ≢ none
unfolding field_next_after
next_value wildcard k h e = absurd (cc)
next_value (values []) k h e = absurd (h refl)
next_value (values (x ∷ xs)) k h e = elim (Option-cases (first_above (x ∷ xs) k)) [
  | inl top ↦ absurd (cc (rw (field_next_after, top) at e))
  | inr (v, next) ↦ absurd (cc (rw (field_next_after, next) at e))
]

move_on-valid :
    (o : Option ℤ) (k : ℕ) (onward : ℤ → ℕ) (wrapped : ℕ)
    → o ≢ none
    → move_on o k onward wrapped ≢ invalid
move_on-valid none k onward wrapped h = absurd (h refl)
move_on-valid (some v) k onward wrapped h = ground arith

-- No round makes an invalid date.
next_move-valid :
    (day_any dow_any : Bool) (f : Fields) (c : ℕ)
    → HaveValues f
    → next_move day_any dow_any f c ≢ invalid
unfolding next_move
next_move-valid day_any dow_any f c h e = grind (
  arith,
  move_on-valid,
  next_value f.month (month c) h.month,
  next_value f.hour (hour c) h.hour,
  next_value f.min (minute c) h.min,
  next_value f.sec (second c) h.sec,
)

-- Four years have fewer rounds than the loop makes.
rounds-lt :
    (f : Fields) (start : ℕ) → rounds f ((start + horizon) / 86400000 + 1) start < max_iterations
unfolding day_number
rounds-lt f start = omega (arith, rank-le f start)

-- Where `nextRunTimeAfter` gives `null`, for such an expression, nothing in the four years matches.
next_run_time_after-none :
    (fuel : ℕ) (spec : Spec) (after : ℕ) {f : Fields}
    → IsPlainSpec spec
    → parse_fields fuel spec ≡ some f
    → AreWithin f
    → HaveValues f
    → next_run_time_after fuel spec after ≡ some none
    → (u : ℕ) → first_candidate after ≤ u
    → u < first_candidate after + horizon
    → match_cron u spec ≡ false
unfolding next_run_time_after
next_run_time_after-none fuel spec after {f} plain parse within have e u from to =
    let day_any = is_star spec.day in
    let dow_any = is_star spec.dow in
    let start = first_candidate after in
    let test = fields_match day_any dow_any f in
    let parsed = parse_fields-Parsed fuel spec {f = f} parse in
    let ranged = Parsed-AreRanged fuel spec f parsed within in
    sym (fields_match-match_cron fuel spec f u plain parsed)
    ∙ search_run-none f (next_move day_any dow_any f) test start (start + horizon)
        (λ c. next_move-valid day_any dow_any f c have)
        (λ c c' go. next_move-Progress day_any dow_any f c {c' = c'} ranged go)
        (λ c c' h go.
          Skips-IsClear test start c c' h (next_move-Skips day_any dow_any f c {c' = c'} ranged go))
        max_iterations start (rounds-lt f start) (start-IsClear test start)
        (some_eq (rw parse at e)) u from to

-- Let an expression have plain texts, and fields for the second, the minute, the hour and the month that
-- have values, only such as these units have. If it holds, in the sense of `matchCron6`, at an instant
-- of the four years from the first whole second after a given one, then `nextRunTimeAfter` returns the
-- next run: its 100000 rounds are enough.
pub next_run_time_after_finds :
    (fuel : ℕ) (spec : Spec) (after u : ℕ) {f : Fields}
    → IsPlainSpec spec
    → parse_fields fuel spec ≡ some f
    → AreWithin f
    → HaveValues f
    → first_candidate after ≤ u
    → u < first_candidate after + horizon
    → match_cron u spec ≡ true
    → (t : ℕ) × (next_run_time_after fuel spec after ≡ some (some t)) × IsNextRun spec after t
unfolding next_run_time_after
next_run_time_after_finds fuel spec after u {f} plain parse within have from to hits =
    elim (Option-cases (next_run_time_after fuel spec after)) [
      | inl stuck ↦ absurd (cc (rw (next_run_time_after, parse) at stuck))
      | inr (none, e) ↦ absurd (
          cc (
            hits,
            next_run_time_after-none fuel spec after {f = f} plain parse within have e u from to,
          ))
      | inr (some t, e) ↦
          (t, e, next_run_time_after-IsNextRun fuel spec after {f = f} {t = t} plain parse within e)
    ]
