-- ===== src/Cron/Schedule.antt =====
-- cron.js: `parseSchedule`, `describeSpecial`, `describeCron`, `updatePreview` and `_getStep`;
-- app.js: `_estimateIntervalMs`. `I18n.t` is the argument `t`.
pub mod RoundTrip
pub mod Estimate
use cockpit_cronplus.Common.{
  ℕ, ◌*◌, Bool, true, false, not, ◌&&◌, ◌||◌, Option, none, some, List, [], ◌∷◌, ◌++◌, map,
  if◌then◌else◌, get_elem?, ℤ, pos, negsuc, Text, codes, text_eq, has_char, is_empty, or_else,
  split, join, trim, is_space,
}
use cockpit_cronplus.Cron.ParseInt.{parse_int, number_of, match_every}
use cockpit_cronplus.Cron.Field.{is_star}
use cockpit_cronplus.Cron.Next.{Spec}

-- `schedule.split(/\s+/)`: cut at each run of white space, and keep empty ends.
pub words_from : Text → Bool → Text → List Text
words_from cur in_space [] = cur ∷ []
words_from cur in_space (c ∷ s) =
    let skip = words_from cur true s in
    let cut = cur ∷ words_from [] true s in
    let go = words_from (cur ++ c ∷ []) false s in
    if is_space c then (if in_space then skip else cut) else go

unfoldable pub words : Text → List Text
unfolding words_from
words s = words_from [] false s

abbrev pub spec : Text → Text → Text → Text → Text → Text → Spec
spec s mi h d mo w = record { sec = s; min = mi; hour = h; day = d; month = mo; dow = w }

abbrev pub default_spec : Spec
default_spec = spec (codes "0") (codes "*") (codes "*") (codes "*") (codes "*") (codes "*")

abbrev pub spec_of_words : List Text → Spec
spec_of_words (a ∷ b ∷ c ∷ d ∷ e ∷ f ∷ []) = spec a b c d e f
spec_of_words (a ∷ b ∷ c ∷ d ∷ e ∷ []) = spec (codes "0") a b c d e
spec_of_words _ = default_spec

unfoldable pub parse_schedule : Text → Spec
unfolding words
parse_schedule schedule = if is_empty schedule then default_spec else spec_of_words (words schedule)

-- `sec + ' ' + min + …`
unfoldable pub print_spec : Spec → Text
print_spec s = join (codes " ") (s.sec ∷ s.min ∷ s.hour ∷ s.day ∷ s.month ∷ s.dow ∷ [])

module _ (t : Text → Text) where
  unfoldable pub describe_special : Text → Text
  describe_special s = if text_eq s (codes "@reboot") then t (codes "schedule.reboot") else s

  -- `f.split('/')[1]` of a text that holds a slash
  abbrev after_slash : Text → Text
  after_slash f = elim (get_elem? (split b'/' f) 1) [ none ↦ [] | some s ↦ s ]

  abbrev every : Text → Text → Text
  every f unit = t (codes "schedule.every") ++ after_slash f ++ t unit

  abbrev at_unit : Text → Text → Text → Text
  at_unit f before unit = t before ++ f ++ t unit

  describe_sec : Text → List Text
  describe_sec sec =
      if text_eq sec (codes "0") || is_star sec
      then []
      else if has_char b'/' sec
      then every sec (codes "schedule.seconds") ∷ []
      else at_unit sec (codes "schedule.atSec") (codes "schedule.secUnit") ∷ []

  describe_min : Text → List Text
  describe_min min =
      if is_star min
      then t (codes "schedule.everyMin") ∷ []
      else if has_char b'/' min
      then every min (codes "schedule.minutes") ∷ []
      else at_unit min (codes "schedule.atMin") (codes "schedule.minUnit") ∷ []

  describe_hour : Text → List Text
  describe_hour hour =
      if is_star hour
      then []
      else if has_char b'/' hour
      then every hour (codes "schedule.hours") ∷ []
      else at_unit hour (codes "schedule.atHour") (codes "schedule.hourUnit") ∷ []

  -- `dn`: Sunday stands first and last.
  unfoldable pub day_names : List Text
  day_names =
      t (codes "dow.sun")
      ∷ t (codes "dow.mon")
      ∷ t (codes "dow.tue")
      ∷ t (codes "dow.wed")
      ∷ t (codes "dow.thu")
      ∷ t (codes "dow.fri")
      ∷ t (codes "dow.sat")
      ∷ t (codes "dow.sun")
      ∷ []

  -- `dn[parseInt(d)] || d`
  abbrev day_at : Option ℤ → Option Text
  day_at none = none
  day_at (some (negsuc n)) = none
  day_at (some (pos n)) = get_elem? day_names n

  unfoldable pub day_name : Text → Text
  day_name d = elim (day_at (parse_int d)) [ none ↦ d | some name ↦ or_else name d ]

  describe_dow : Text → List Text
  describe_dow dow =
      if is_star dow
      then []
      else if has_char b',' dow
      then (t (codes "schedule.dowPrefix")
          ++ join (t (codes "schedule.dowSep")) (map day_name (split b',' dow)))
        ∷ []
      else (t (codes "schedule.dowPrefix") ++ day_name dow) ∷ []

  unfoldable pub describe_cron : Spec → Text
  unfolding describe_sec describe_min describe_hour describe_dow
  describe_cron s =
      t (codes "schedule.execute")
      ++ codes ": "
      ++ join (codes " · ") (
          describe_sec s.sec
          ++ describe_min s.min
          ++ describe_hour s.hour
          ++ (if is_star s.day then [] else (s.day ++ t (codes "schedule.dayUnit")) ∷ [])
          ++ (if is_star s.month then [] else (s.month ++ t (codes "schedule.monthUnit")) ∷ [])
          ++ describe_dow s.dow)

  -- `updatePreview`, from the six inputs to the two texts that are shown.
  unfoldable pub update_preview : Spec → Text × Text
  update_preview inputs =
      let s =
        spec (trim inputs.sec) (trim inputs.min) (trim inputs.hour) (trim inputs.day)
          (trim inputs.month) (trim inputs.dow) in
      if text_eq s.min (codes "@reboot")
      then (codes "@reboot", describe_special (codes "@reboot"))
      else (
        print_spec (
            spec (or_else s.sec (codes "0")) (or_else s.min (codes "*"))
              (or_else s.hour (codes "*")) (or_else s.day (codes "*")) (or_else s.month (codes "*"))
              (or_else s.dow (codes "*"))),
        describe_cron s,
      )

-- `_getStep`: the N of "*/N", or 0.
unfoldable pub get_step : Text → ℕ
get_step f = elim (match_every f) [ none ↦ 0 | some n ↦ number_of n ]

-- app.js `_estimateIntervalMs`, in milliseconds.
unfoldable pub estimate_interval : Spec → ℕ
estimate_interval parsed =
    let sec = or_else parsed.sec (codes "0") in
    let min = or_else parsed.min (codes "*") in
    let hour = or_else parsed.hour (codes "*") in
    let day = or_else parsed.day (codes "*") in
    if not (is_star day)
    then 86400000
    else if not (is_star hour)
    then 3600000
    else elim (match_every min) [
      | some n ↦ number_of n * 60000
      | none ↦ elim (match_every sec) [
        | some n ↦ number_of n * 1000
        | none ↦
            if not (is_star min) && is_star hour
            then 3600000
            else if not (is_star min) && not (is_star hour)
            then 86400000
            else 60000
      ]
    ]
