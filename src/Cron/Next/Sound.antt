-- ===== src/Cron/Next/Sound.antt =====
-- What `nextRunTimeAfter` returns satisfies the expression, as `matchCron6` reads it.
use cockpit_cronplus.Common.{
  some_eq, ℕ, zero, suc, ◌+◌, ◌<◌, ◌≡◌, refl, sym, ◌∙◌, arith, Bool, true, not, ◌&&◌, Option, none,
  some, Bool-cases, inl, inr, ltb, ltb→lt, subst, ◌⊎◌, Text, ℤ, ◌≢◌,
}
use cockpit_cronplus.Cron.Calendar.{month, date, weekday, hour, minute, second}
use cockpit_cronplus.Cron.Calendar.Bounds.{date_ranges}
use cockpit_cronplus.Cron.Field.{Field, is_star, is_wildcard, field_matches, parse_field_values}
use cockpit_cronplus.Cron.Field.Agree.{IsPlain, field_matches-match_field}
use cockpit_cronplus.Cron.Next.{
  Spec, Fields, Move, found, invalid, jump, parse_fields, dow_matches, day_fails, move_on,
  next_move, search_run, first_candidate, next_run_time_after, match_cron, max_iterations, horizon,
  ◌>>=◌,
}

-- Each of the six texts is trimmed, with no "*" among several items.
pub record IsPlainSpec (spec : Spec) : Type 0 where
  pub sec : IsPlain spec.sec
  pub min : IsPlain spec.min
  pub hour : IsPlain spec.hour
  pub day : IsPlain spec.day
  pub month : IsPlain spec.month
  pub dow : IsPlain spec.dow

-- The expression holds of an instant, on the parsed fields.
unfoldable pub fields_match : Bool → Bool → Fields → ℕ → Bool
fields_match day_any dow_any f t =
    field_matches f.sec (second t)
    && field_matches f.min (minute t)
    && field_matches f.hour (hour t)
    && field_matches f.month (month t)
    && not
        (day_fails day_any dow_any (field_matches f.day (date t)) (dow_matches f.dow (weekday t)))

move_on-ne-found :
    (o : Option ℤ) (c : ℕ) (onward : ℤ → ℕ) (wrapped : ℕ) → move_on o c onward wrapped ≢ found
move_on-ne-found none c onward wrapped = cc
move_on-ne-found (some v) c onward wrapped = ground arith

-- A round returns its instant only if all fields match.
next_move-found :
    (day_any dow_any : Bool) (f : Fields) (t : ℕ)
    → next_move day_any dow_any f t ≡ found
    → fields_match day_any dow_any f t ≡ true
unfolding next_move fields_match
next_move-found day_any dow_any f t e = grind (arith, move_on-ne-found)

pub Move-cases : (m : Move) → (m ≡ found) ⊎ (m ≡ invalid) ⊎ ((c : ℕ) × (m ≡ jump c))
Move-cases found = inl refl
Move-cases invalid = inr (inl refl)
Move-cases (jump c) = inr (inr (c, refl))

-- What the loop returns was found within the limit, and what every jump keeps holds of it.
pub search_run_inv :
    (P : ℕ → Type 0) (move : ℕ → Move) (limit : ℕ)
    → ((c c' : ℕ) → P c → move c ≡ jump c' → P c')
    → (left cur : ℕ) {t : ℕ} → P cur
    → search_run left move limit cur ≡ some t
    → P t × (move t ≡ found) × (t < limit)
unfolding search_run
search_run_inv P move limit keep zero cur h e = absurd (cc)
search_run_inv P move limit keep (suc left) cur {t} h e = elim (Bool-cases (ltb cur limit)) [
  | inr over ↦ absurd (cc (rw over at e))
  | inl within ↦ elim (Move-cases (move cur)) [
    | inl done ↦
        let same : cur ≡ t = some_eq (rw (within, done) at e) in
        subst (λ c. P c × (move c ≡ found) × (c < limit)) same (h, done, ltb→lt cur limit within)
    | inr (inl bad) ↦ absurd (cc (rw (within, bad) at e))
    | inr (inr (c, go)) ↦
        search_run_inv P move limit keep left c {t = t} (keep cur c h go) (rw (within, go) at e)
  ]
]

bind-eq-some :
    {A B : Type 0} (m : Option A) (g : A → Option B) {b : B}
    → (m >>= g) ≡ some b
    → (a : A) × (m ≡ some a) × (g a ≡ some b)
bind-eq-some none g e = absurd (cc)
bind-eq-some (some a) g e = (a, refl, e)

-- The six fields of an expression, parsed.
pub record Parsed (fuel : ℕ) (spec : Spec) (f : Fields) : Type 0 where
  pub sec : parse_field_values fuel spec.sec 0 59 ≡ some f.sec
  pub min : parse_field_values fuel spec.min 0 59 ≡ some f.min
  pub hour : parse_field_values fuel spec.hour 0 23 ≡ some f.hour
  pub day : parse_field_values fuel spec.day 1 31 ≡ some f.day
  pub month : parse_field_values fuel spec.month 1 12 ≡ some f.month
  pub dow : parse_field_values fuel spec.dow 0 7 ≡ some f.dow

pub parse_fields-Parsed :
    (fuel : ℕ) (spec : Spec) {f : Fields} → parse_fields fuel spec ≡ some f → Parsed fuel spec f
unfolding parse_fields
parse_fields-Parsed fuel spec {f} e =
    let (s, ps, e1) = bind-eq-some (parse_field_values fuel spec.sec 0 59) _ e in
    let (mi, pmi, e2) = bind-eq-some (parse_field_values fuel spec.min 0 59) _ e1 in
    let (h, ph, e3) = bind-eq-some (parse_field_values fuel spec.hour 0 23) _ e2 in
    let (d, pd, e4) = bind-eq-some (parse_field_values fuel spec.day 1 31) _ e3 in
    let (mo, pmo, e5) = bind-eq-some (parse_field_values fuel spec.month 1 12) _ e4 in
    let (w, pw, e6) = bind-eq-some (parse_field_values fuel spec.dow 0 7) _ e5 in
    let same = some_eq e6 in
    subst (λ g. Parsed fuel spec g) same
      (record { sec = ps; min = pmi; hour = ph; day = pd; month = pmo; dow = pw })

is_wildcard-is_star :
    (fuel : ℕ) (spec : Text) (lowest highest : ℕ) {f : Field}
    → parse_field_values fuel spec lowest highest ≡ some f
    → is_wildcard f ≡ is_star spec
unfolding parse_field_values
is_wildcard-is_star fuel spec lowest highest {f} e = ground arith

-- On fields that were parsed from plain texts the two readings of an expression agree.
pub fields_match-match_cron :
    (fuel : ℕ) (spec : Spec) (f : Fields) (t : ℕ)
    → IsPlainSpec spec
    → Parsed fuel spec f
    → fields_match (is_star spec.day) (is_star spec.dow) f t ≡ match_cron t spec
unfolding fields_match match_cron dow_matches
fields_match-match_cron fuel spec f t plain parsed =
    let r = date_ranges t in
    simp (
      field_matches-match_field fuel spec.sec 0 59 (second t) plain.sec parsed.sec (omega arith)
          (omega arith),
      field_matches-match_field fuel spec.min 0 59 (minute t) plain.min parsed.min (omega arith)
          (omega arith),
      field_matches-match_field fuel spec.hour 0 23 (hour t) plain.hour parsed.hour (omega arith)
          (omega arith),
      field_matches-match_field fuel spec.day 1 31 (date t) plain.day parsed.day (omega arith)
          (omega arith),
      field_matches-match_field fuel spec.month 1 12 (month t) plain.month parsed.month
          (omega arith) (omega arith),
      field_matches-match_field fuel spec.dow 0 7 (weekday t) plain.dow parsed.dow (omega arith)
          (omega arith),
      field_matches-match_field fuel spec.dow 0 7 7 plain.dow parsed.dow (omega arith)
          (omega arith),
      is_wildcard-is_star fuel spec.dow 0 7 parsed.dow,
    )

-- Inversion of `nextRunTimeAfter`: the parsed fields, and the loop.
pub next_run_time_after-inv :
    (fuel : ℕ) (spec : Spec) (after : ℕ) {t : ℕ}
    → next_run_time_after fuel spec after ≡ some (some t)
    → (f : Fields) × Parsed fuel spec f
      × (search_run max_iterations
            (next_move (is_star spec.day) (is_star spec.dow) f)
            (first_candidate after + horizon)
            (first_candidate after)
          ≡ some t)
unfolding next_run_time_after
next_run_time_after-inv fuel spec after {t} e =
    let (f, parsed, e') = bind-eq-some (parse_fields fuel spec) _ e in
    (f, parse_fields-Parsed fuel spec {f = f} parsed, some_eq e')

-- The instant that `nextRunTimeAfter` returns for an expression of plain texts satisfies it, in
-- the sense of `matchCron6`.
pub next_run_time_after-match_cron :
    (fuel : ℕ) (spec : Spec) (after : ℕ) {t : ℕ}
    → IsPlainSpec spec
    → next_run_time_after fuel spec after ≡ some (some t)
    → match_cron t spec ≡ true
next_run_time_after-match_cron fuel spec after {t} plain e =
    let (f, parsed, run) = next_run_time_after-inv fuel spec after {t = t} e in
    let move = next_move (is_star spec.day) (is_star spec.dow) f in
    let (_, hit, _) =
      search_run_inv (λ c. Unit {0}) move (first_candidate after + horizon) (λ c c' h g. tt)
        max_iterations (first_candidate after) {t = t} tt run in
    sym (fields_match-match_cron fuel spec f t plain parsed)
    ∙ next_move-found (is_star spec.day) (is_star spec.dow) f t hit
