-- ===== src/Cron/Next/First.antt =====
-- `nextRunTimeAfter` against what it promises: the first instant after a given one that satisfies
-- the expression.
use cockpit_cronplus.Common.{
  some_eq, ℕ, ◌+◌, ◌≤◌, ◌<◌, ◌≡◌, sym, ◌∙◌, arith, Bool, true, false, some, pos, ◌≤ℤ◌, All, Text,
  inl, inr, Bool-cases, ltb, leb, leb→le, ltb→lt,
}
use cockpit_cronplus.Cron.Field.{is_star, Field, wildcard, values, parse_field_values}
use cockpit_cronplus.Cron.Field.Ordered.{parse_field_values-IsSorted}
use cockpit_cronplus.Cron.Field.Next.{IsRanged}
use cockpit_cronplus.Cron.Next.{
  Spec, Fields, parse_fields, next_move, first_candidate, next_run_time_after, match_cron,
  max_iterations, horizon,
}
use cockpit_cronplus.Cron.Next.Sound.{
  IsPlainSpec, Parsed, parse_fields-Parsed, fields_match, fields_match-match_cron, search_run_inv,
  next_run_time_after-match_cron,
}
use cockpit_cronplus.Cron.Next.Skip.{AreRanged, Skips, next_move-Skips}

-- What a next run is: of the instants from the first whole second after `after` on, the first that
-- satisfies the expression.
pub record IsNextRun (spec : Spec) (after t : ℕ) : Type 0 where
  pub later : first_candidate after ≤ t
  pub hits : match_cron t spec ≡ true
  pub first : (u : ℕ) → first_candidate after ≤ u → u < t → match_cron u spec ≡ false

-- There is one next run at most.
pub IsNextRun-unique :
    (spec : Spec) (after t t' : ℕ) → IsNextRun spec after t → IsNextRun spec after t' → t ≡ t'
IsNextRun-unique spec after t t' r r' = elim (Bool-cases (ltb t t')) [
  | inl before ↦ absurd (cc (r.hits, r'.first t r.later (ltb→lt t t' before)))
  | inr not_before ↦ elim (Bool-cases (ltb t' t)) [
    | inl after_it ↦ absurd (cc (r'.hits, r.first t' r'.later (ltb→lt t' t after_it)))
    | inr not_after ↦ ground arith
  ]
]

-- Nothing from `start` to `c` satisfies the test.
abbrev pub IsClear : (ℕ → Bool) → ℕ → ℕ → Type 0
IsClear test start c = (start ≤ c) × ((u : ℕ) → start ≤ u → u < c → test u ≡ false)

pub start-IsClear : (test : ℕ → Bool) (start : ℕ) → IsClear test start start
start-IsClear test start = (omega arith, λ u from to. absurd (omega arith))

pub Skips-IsClear :
    (test : ℕ → Bool) (start c c' : ℕ)
    → IsClear test start c
    → Skips test c c'
    → IsClear test start c'
Skips-IsClear test start c c' (le, clear) s = (
  omega (arith, s.later),
  λ u from to. elim (Bool-cases (leb c u)) [
    | inl past ↦ s.over u (leb→le c u past) to
    | inr before ↦ clear u from (ground arith)
  ],
)

-- The values of a field are numbers from `lo` to `hi`.
abbrev pub IsWithin : ℕ → ℕ → Field → Type 0
IsWithin lo hi wildcard = Unit
IsWithin lo hi (values xs) = All (λ w. (pos lo ≤ℤ w) × (w ≤ℤ pos hi)) xs

-- The values of the fields for the second, the minute, the hour and the month are such as these
-- units have.
pub record AreWithin (f : Fields) : Type 0 where
  pub sec : IsWithin 0 59 f.sec
  pub min : IsWithin 0 59 f.min
  pub hour : IsWithin 0 23 f.hour
  pub month : IsWithin 1 12 f.month

parsed-IsRanged :
    (fuel : ℕ) (spec : Text) (lo hi : ℕ) (f : Field)
    → parse_field_values fuel spec lo hi ≡ some f
    → IsWithin lo hi f
    → IsRanged lo hi f
parsed-IsRanged fuel spec lo hi wildcard e h = tt
parsed-IsRanged fuel spec lo hi (values xs) e h =
    (parse_field_values-IsSorted fuel spec lo hi {xs = xs} e, h)

pub Parsed-AreRanged :
    (fuel : ℕ) (spec : Spec) (f : Fields) → Parsed fuel spec f → AreWithin f → AreRanged f
Parsed-AreRanged fuel spec f p h = record {
  sec = parsed-IsRanged fuel spec.sec 0 59 f.sec p.sec h.sec;
  min = parsed-IsRanged fuel spec.min 0 59 f.min p.min h.min;
  hour = parsed-IsRanged fuel spec.hour 0 23 f.hour p.hour h.hour;
  month = parsed-IsRanged fuel spec.month 1 12 f.month p.month h.month;
}

-- What `nextRunTimeAfter` returns for an expression of plain texts, whose values for the second, the
-- minute, the hour and the month are such as these units have, is the next run: the first instant
-- from the first whole second after the given one on that satisfies the expression, in the sense of
-- `matchCron6`.
pub next_run_time_after-IsNextRun :
    (fuel : ℕ) (spec : Spec) (after : ℕ) {f : Fields} {t : ℕ}
    → IsPlainSpec spec
    → parse_fields fuel spec ≡ some f
    → AreWithin f
    → next_run_time_after fuel spec after ≡ some (some t)
    → IsNextRun spec after t
unfolding next_run_time_after
next_run_time_after-IsNextRun fuel spec after {f} {t} plain parse within e =
    let day_any = is_star spec.day in
    let dow_any = is_star spec.dow in
    let start = first_candidate after in
    let test = fields_match day_any dow_any f in
    let parsed = parse_fields-Parsed fuel spec {f = f} parse in
    let ranged = Parsed-AreRanged fuel spec f parsed within in
    let ((le, clear), _, _) =
      search_run_inv (IsClear test start) (next_move day_any dow_any f) (start + horizon)
        (λ c c' h go.
          Skips-IsClear test start c c' h (next_move-Skips day_any dow_any f c {c' = c'} ranged go))
        max_iterations start {t = t} (start-IsClear test start) (some_eq (rw parse at e)) in
    record {
      later = le;
      hits = next_run_time_after-match_cron fuel spec after {t = t} plain e;
      first =
          λ u from to. sym (fields_match-match_cron fuel spec f u plain parsed) ∙ clear u from to;
    }
