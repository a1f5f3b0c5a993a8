-- ===== src/Cron/Tests.antt =====
-- Runs of cron.js at concrete inputs.
use cockpit_cronplus.Common.{
  List, ℕ, none, ◌≡◌, ◌≢◌, refl, ◌+◌, ◌*◌, arith, ℤ, true, false, some, [], ◌∷◌, pos, codes, split,
}
use cockpit_cronplus.Cron.ParseInt.{parse_int, parse_nat, number_of, match_range, match_step}
use cockpit_cronplus.Cron.Field.{
  wildcard, values, match_field, match_single, match_stepped, parse_field_values, add_parts,
  add_part, add_stepped, add_steps, field_next_after, field_min, field_matches, binary_search,
}
use cockpit_cronplus.Cron.Calendar.{make_date, year, month, date, weekday, hour, minute, second}
use cockpit_cronplus.Cron.Next.{
  Spec, Fields, parse_fields, dow_matches, day_fails, next_move, search_run, next_run_time_after,
  match_cron, runs_after, get_next_run_times, with_defaults,
}
use cockpit_cronplus.Cron.ParseInt.{match_every}
use cockpit_cronplus.Cron.Field.Agree.{field_matches-match_field}
use cockpit_cronplus.Cron.Field.Expand.{add_steps-zero}
use cockpit_cronplus.Cron.Field.Ends.{parse_field_values_ends}
use cockpit_cronplus.Cron.Next.Sound.{IsPlainSpec}
use cockpit_cronplus.Cron.Next.First.{AreWithin, IsNextRun, next_run_time_after-IsNextRun}
use cockpit_cronplus.Cron.Next.Complete.{HaveValues, next_run_time_after_finds}
use cockpit_cronplus.Cron.Next.Runs.{IsRuns, get_next_run_times-IsRuns}
use cockpit_cronplus.Cron.Schedule.{get_step}
use cockpit_cronplus.Cron.Schedule.RoundTrip.{IsWords}
use cockpit_cronplus.Cron.Base.{type_error, interval_ms, start_time, get_next_run_times_from_base}
use cockpit_cronplus.Cron.Base.Results.{get_next_run_times_from_base_throws}

field_code : Unit {0}
unfolding split parse_int parse_nat number_of match_range match_step match_field match_single
    match_stepped parse_field_values add_parts add_part add_stepped add_steps field_next_after
    field_min field_matches binary_search
field_code = tt

run_code : Unit {0}
unfolding field_code make_date year month date weekday hour minute second parse_fields dow_matches
    day_fails next_move search_run next_run_time_after match_cron runs_after get_next_run_times
run_code = tt

field_tests :
    (parse_field_values 100 (codes "*") 0 59 ≡ some wildcard)
    × (parse_field_values 100 (codes "*/20,5") 0 59
        ≡ some (values (pos 0 ∷ pos 5 ∷ pos 20 ∷ pos 40 ∷ [])))
    × (parse_field_values 100 (codes "10-20/5, 50/7") 0 59
        ≡ some (values (pos 10 ∷ pos 15 ∷ pos 20 ∷ pos 50 ∷ pos 57 ∷ [])))
    × (parse_field_values 100 (codes "x") 0 59 ≡ some (values []))
    × (match_field 15 (codes "10-20/5, 50/7") 0 ≡ true)
    × (match_field 16 (codes "10-20/5, 50/7") 0 ≡ false)
unfolding field_code
field_tests = (refl, refl, refl, refl, refl, refl)

abbrev weekdays_at_nine : Spec
weekdays_at_nine = record {
  sec = codes "0";
  min = codes "0";
  hour = codes "9";
  day = codes "*";
  month = codes "*";
  dow = codes "1-5";
}

-- From Friday 2026-04-24 10:00 the next run is on Monday the 27th.
next_run_test :
    next_run_time_after 100 weekdays_at_nine (make_date 2026 (pos 4) 24 (pos 10) (pos 0) (pos 0))
    ≡ some (some (make_date 2026 (pos 4) 27 (pos 9) (pos 0) (pos 0)))
unfolding run_code
next_run_test = refl

weekdays_at_nine-IsPlainSpec : IsPlainSpec weekdays_at_nine
unfolding split
weekdays_at_nine-IsPlainSpec = record {
  sec = record { trimmed = refl; stars_alone = (refl, tt) };
  min = record { trimmed = refl; stars_alone = (refl, tt) };
  hour = record { trimmed = refl; stars_alone = (refl, tt) };
  day = record { trimmed = refl; stars_alone = (refl, tt) };
  month = record { trimmed = refl; stars_alone = (refl, tt) };
  dow = record { trimmed = refl; stars_alone = (refl, tt) };
}

abbrev weekday_fields : Fields
weekday_fields = record {
  sec = values (pos 0 ∷ []);
  min = values (pos 0 ∷ []);
  hour = values (pos 9 ∷ []);
  day = wildcard;
  month = wildcard;
  dow = values (pos 1 ∷ pos 2 ∷ pos 3 ∷ pos 4 ∷ pos 5 ∷ []);
}

weekday_fields-AreWithin : AreWithin weekday_fields
weekday_fields-AreWithin = record {
  sec = ((omega arith, omega arith), tt);
  min = ((omega arith, omega arith), tt);
  hour = ((omega arith, omega arith), tt);
  month = tt;
}

next_run_time_after-IsNextRun_example :
    IsNextRun weekdays_at_nine
      (make_date 2026 (pos 4) 24 (pos 10) (pos 0) (pos 0))
      (make_date 2026 (pos 4) 27 (pos 9) (pos 0) (pos 0))
unfolding field_code parse_fields
next_run_time_after-IsNextRun_example =
    next_run_time_after-IsNextRun 100 weekdays_at_nine
      (make_date 2026 (pos 4) 24 (pos 10) (pos 0) (pos 0)) {f = weekday_fields}
      {t = make_date 2026 (pos 4) 27 (pos 9) (pos 0) (pos 0)} weekdays_at_nine-IsPlainSpec refl
      weekday_fields-AreWithin next_run_test

weekday_fields-HaveValues : HaveValues weekday_fields
weekday_fields-HaveValues = record { sec = cc; min = cc; hour = cc; month = tt }

next_run_time_after_finds_example :
    (t : ℕ) × (next_run_time_after 100 weekdays_at_nine
        (make_date 2026 (pos 4) 24 (pos 10) (pos 0) (pos 0))
      ≡ some (some t))
    × IsNextRun weekdays_at_nine (make_date 2026 (pos 4) 24 (pos 10) (pos 0) (pos 0)) t
unfolding run_code
next_run_time_after_finds_example =
    next_run_time_after_finds 100 weekdays_at_nine
      (make_date 2026 (pos 4) 24 (pos 10) (pos 0) (pos 0))
      (make_date 2026 (pos 4) 28 (pos 9) (pos 0) (pos 0)) {f = weekday_fields}
      weekdays_at_nine-IsPlainSpec refl weekday_fields-AreWithin weekday_fields-HaveValues
      (omega arith) (omega arith) refl

-- The seconds of "10-20/5, 50/7".
abbrev listed_seconds : List ℤ
listed_seconds = pos 10 ∷ pos 15 ∷ pos 20 ∷ pos 50 ∷ pos 57 ∷ []

field_matches-match_field_example :
    field_matches (values listed_seconds) 57 ≡ match_field 57 (codes "10-20/5, 50/7") 0
unfolding field_code
field_matches-match_field_example =
    field_matches-match_field 100 (codes "10-20/5, 50/7") 0 59 57 {f = values listed_seconds}
      (record { trimmed = refl; stars_alone = (refl, (refl, tt)) }) refl (omega arith) (omega arith)

parse_field_values_ends_example : parse_field_values 61 (codes "10-50/9, 3-8, */7, 57") 0 59 ≢ none
unfolding split match_step match_range number_of parse_int
parse_field_values_ends_example = parse_field_values_ends 60 0 59 (codes "10-50/9, 3-8, */7, 57") (
  (omega arith, (omega arith, omega arith)),
  (omega arith, ((omega arith, (omega arith, omega arith)), (tt, tt))),
)

add_steps-zero_example : add_steps 1000 0 59 0 [] ≡ none
add_steps-zero_example = add_steps-zero 1000 0 59 [] (omega arith)

abbrev nine_on : ℤ → ℕ → ℕ
nine_on m d = make_date 2026 m d (pos 9) (pos 0) (pos 0)

abbrev five_mornings : List ℕ
five_mornings =
    nine_on (pos 4) 27
    ∷ nine_on (pos 4) 28
    ∷ nine_on (pos 4) 29
    ∷ nine_on (pos 4) 30
    ∷ nine_on (pos 5) 1
    ∷ []

get_next_run_times-IsRuns_example :
    IsRuns 5 (with_defaults weekdays_at_nine) (nine_on (pos 4) 24) five_mornings
unfolding run_code
get_next_run_times-IsRuns_example =
    get_next_run_times-IsRuns 100 weekdays_at_nine (nine_on (pos 4) 24) {f = weekday_fields}
      {ts = five_mornings} weekdays_at_nine-IsPlainSpec refl weekday_fields-AreWithin refl

-- Every second hour of a day that does not exist.
abbrev february_31 : Spec
february_31 = record {
  sec = codes "0";
  min = codes "0";
  hour = codes "*/2";
  day = codes "31";
  month = codes "2";
  dow = codes "*";
}

base_code : Unit {0}
unfolding run_code match_every get_step interval_ms start_time
base_code = tt

abbrev noon : ℕ
noon = 20000 * 86400000

get_next_run_times_from_base_throws_example :
    get_next_run_times_from_base 100 february_31 (some noon) 5 (noon + 1) ≡ type_error
unfolding base_code
get_next_run_times_from_base_throws_example =
    get_next_run_times_from_base_throws 100 february_31 noon 5 (noon + 1) (omega arith) refl refl

weekdays_at_nine-IsWords : IsWords weekdays_at_nine
weekdays_at_nine-IsWords = record {
  sec = (refl, refl);
  min = (refl, refl);
  hour = (refl, refl);
  day = (refl, refl);
  month = (refl, refl);
  dow = (refl, refl);
}
