-- ===== src/App/Anchor.antt =====
-- app.js, the list of the next runs in the task dialog and the anchor of an interval: `updateNextRuns`,
-- `editFirstRunTime`, `confirmAnchor`. `new Date(text)` is the parameter `parse_date`, and
-- `new Date()` the argument `now`.
pub mod RoundTrip
use cockpit_cronplus.Common.{
  ℕ, ◌≡◌, Bool, true, false, not, ◌&&◌, ◌||◌, Option, none, some, List, [], ◌∷◌, ◌++◌,
  if◌then◌else◌, ◌==◌, leb, ℤ, pos, negsuc, Text, codes, text_eq, is_empty, or_else, has_char,
  starts_with, trim, show, any,
}
use cockpit_cronplus.Cron.ParseInt.{parse_int, is_number}
use cockpit_cronplus.Cron.Calendar.{year, month, date, hour, minute, second, make_date}
use cockpit_cronplus.Cron.Next.{Spec, get_next_run_times, ◌>>=◌}
use cockpit_cronplus.Cron.Schedule.{spec}
use cockpit_cronplus.Cron.Base.{
  Outcome, runs, type_error, hangs, of_option, get_next_run_times_from_base,
}
use cockpit_cronplus.Utils.{pad2}

-- The six schedule inputs, the hidden input of the base time, and what the list of runs was made of:
-- `container._runs` and `container._fields`. `hint` says that the hint about the anchor is shown, and the
-- button that edits the first run.
pub record Anchor : Type 0 where
  pub cron : Spec
  pub base : Text
  pub listed : List ℕ
  pub fields : Spec
  pub hint : Bool

pub data Shown : Type 0 where
  special cannot_calc calc_error never : Shown
  times : List ℕ → Shown

-- The trimmed inputs; the seconds have a default.
abbrev pub read_fields : Spec → Spec
read_fields c =
    spec (or_else (trim c.sec) (codes "0")) (trim c.min) (trim c.hour) (trim c.day) (trim c.month)
      (trim c.dow)

-- `hasStepPattern`
abbrev pub has_step : Spec → Bool
has_step s = any (has_char b'/') (s.sec ∷ s.min ∷ s.hour ∷ s.day ∷ [])

module _ (parse_date : Text → Option ℕ) (fuel now : ℕ) where
  abbrev dated : Spec → Option ℕ → Outcome
  dated s none = of_option (get_next_run_times fuel s now)
  dated s (some t) = get_next_run_times_from_base fuel s (some t) 5 now

  -- The runs that `updateNextRuns` lists.
  unfoldable pub listed_runs : Spec → Text → Outcome
  listed_runs s base =
      if not (is_empty base) && has_step s
      then dated s (parse_date base)
      else of_option (get_next_run_times fuel s now)

  unfoldable pub update_next_runs : Anchor → Anchor × Shown
  update_next_runs a =
      let s = read_fields a.cron in
      if starts_with (codes "@") s.min
      then (a, special)
      else (let a' : Anchor = record a { hint = has_step s } in
          elim (listed_runs s a.base) [
            | hangs ↦ (a', never)
            | type_error ↦ (a', calc_error)
            | runs ts ↦ elim ts [
              | [] ↦ (a', cannot_calc)
              | t ∷ more ↦ (record a' { listed = t ∷ more; fields = s }, times (t ∷ more))
            ]
          ])

-- The six number inputs that take the place of the first run.
pub record AnchorInputs : Type 0 where
  pub y : Text
  pub mo : Text
  pub d : Text
  pub h : Text
  pub mi : Text
  pub s : Text

-- `editFirstRunTime`: the values of the inputs.
unfoldable pub edit_first_run : ℕ → AnchorInputs
edit_first_run t = record {
  y = show (year t);
  mo = pad2 (month t);
  d = pad2 (date t);
  h = pad2 (hour t);
  mi = pad2 (minute t);
  s = pad2 (second t);
}

-- A number that is read and lies in a range; none where it is NaN or outside.
abbrev pub ranged : ℕ → ℕ → Option ℤ → Option ℕ
ranged lo hi none = none
ranged lo hi (some (negsuc n)) = none
ranged lo hi (some (pos n)) = if leb lo n && leb n hi then some n else none

-- A date and a time of day.
pub record Moment : Type 0 where
  pub y : ℕ
  pub mo : ℕ
  pub d : ℕ
  pub h : ℕ
  pub mi : ℕ
  pub s : ℕ

-- The numbers of `confirmAnchor`, if each is in its range.
unfoldable pub read_anchor : AnchorInputs → Option Moment
read_anchor i = do
  y ← ranged 2020 2099 (parse_int i.y)
  mo ← ranged 1 12 (parse_int i.mo)
  d ← ranged 1 31 (parse_int i.d)
  h ← ranged 0 23 (parse_int i.h)
  mi ← ranged 0 59 (parse_int i.mi)
  s ← ranged 0 59 (parse_int i.s)
  some (record { y = y; mo = mo; d = d; h = h; mi = mi; s = s })

-- `testDate`
abbrev pub moment_date : Moment → ℕ
moment_date m = make_date m.y (pos m.mo) m.d (pos m.h) (pos m.mi) (pos m.s)

-- The date exists.
abbrev pub is_real : Moment → Bool
is_real m = let t = moment_date m in year t == m.y && month t == m.mo && date t == m.d

-- `isFixedField`
unfoldable pub is_fixed_field : Text → Bool
is_fixed_field f =
    not (is_empty f)
    && not (text_eq f (codes "*"))
    && not (has_char b'/' f)
    && not (has_char b',' f)
    && not (has_char b'-' f)
    && is_number f

-- A field that names one number follows the anchor.
abbrev pub moved : ℕ → ℕ → Text → Text → Text
moved new old field kept = if not (new == old) && is_fixed_field field then show new else kept

-- `baseStr`
unfoldable pub base_text : Moment → Text
base_text m =
    show m.y
    ++ b'-' ∷ pad2 m.mo
    ++ b'-' ∷ pad2 m.d
    ++ b' ' ∷ pad2 m.h
    ++ b':' ∷ pad2 m.mi
    ++ b':' ∷ pad2 m.s

-- What `confirmAnchor` ends with: `refused` and `recalculated` call `updateNextRuns`, and `thrown` is
-- an exception.
pub data Ending : Type 0 where
  refused recalculated thrown forever : Ending
  listing : List ℕ → Ending

-- The list of the new runs.
abbrev pub relist : Anchor → Spec → Outcome → Anchor × Ending
relist a fields hangs = (a, forever)
relist a fields type_error = (a, thrown)
relist a fields (runs []) = (a, recalculated)
relist a fields (runs (t ∷ ts)) = (record a { listed = t ∷ ts; fields = fields }, listing (t ∷ ts))

module _ (fuel now : ℕ) where
  -- `confirmAnchor` of an existing date, where the first run listed is `first`.
  unfoldable pub set_anchor : Anchor → ℕ → Moment → Anchor × Ending
  set_anchor a first m =
      let f = a.fields in
      let sec = moved m.s (second first) f.sec in
      let min = moved m.mi (minute first) f.min in
      let hour = moved m.h (hour first) f.hour in
      let fields = record f { sec = sec f.sec; min = min f.min; hour = hour f.hour } in
      let a' : Anchor = record a {
        cron = record (a.cron) {
          sec = sec a.cron.sec;
          min = min a.cron.min;
          hour = hour a.cron.hour;
        };
        base = base_text m;
      } in
      relist a' fields (get_next_run_times_from_base fuel fields (some (moment_date m)) 5 now)

  -- With no run listed, `origRun` is undefined and `origRun.getSeconds()` throws.
  abbrev pub anchored : Anchor → List ℕ → Moment → Anchor × Ending
  anchored a [] m = (a, thrown)
  anchored a (first ∷ others) m = set_anchor a first m

  unfoldable pub confirm_anchor : Anchor → AnchorInputs → Anchor × Ending
  confirm_anchor a i = elim (read_anchor i) [
    | none ↦ (a, refused)
    | some m ↦ if is_real m then anchored a a.listed m else (a, refused)
  ]
