-- ===== src/App/Anchor/RoundTrip.antt =====
-- The anchor editor takes the first run as it shows it.
use cockpit_cronplus.Common.{
  ℕ, ◌%◌, ◌≤◌, ◌≡◌, refl, sym, ◌∙◌, inl, inr, arith, true, some, List, [], ◌∷◌, subst, ltb, ltb→lt,
  pos, Text, Bool-cases,
}
use cockpit_cronplus.Cron.ParseInt.{parse_int}
use cockpit_cronplus.Cron.ParseInt.Show.{parse_int-show, parse_int-zero_show}
use cockpit_cronplus.Cron.Calendar.{year, month, date, hour, minute, second}
use cockpit_cronplus.Cron.Calendar.Bounds.{date_ranges}
use cockpit_cronplus.Cron.Calendar.Jump.{make_date-parts}
use cockpit_cronplus.Cron.Next.{Spec}
use cockpit_cronplus.Cron.Base.{Outcome, runs, type_error, hangs}
use cockpit_cronplus.Utils.{pad2, format_date_time}
use cockpit_cronplus.App.Anchor.{
  Anchor, Moment, ranged, edit_first_run, read_anchor, moment_date, is_real, moved, base_text,
  relist, set_anchor, anchored, confirm_anchor,
}

parse_int-pad2 : (n : ℕ) → parse_int (pad2 n) ≡ some (pos n)
unfolding pad2
parse_int-pad2 n = elim (Bool-cases (ltb n 10)) [
  | inl one ↦ rw one (parse_int-zero_show n (ltb→lt n 10 one))
  | inr more ↦ rw more (parse_int-show n)
]

ranged-within : (lo hi n : ℕ) → lo ≤ n → n ≤ hi → ranged lo hi (some (pos n)) ≡ some n
ranged-within lo hi n a b = ground arith

-- The date and time of an instant.
abbrev moment : ℕ → Moment
moment t = record { y = year t; mo = month t; d = date t; h = hour t; mi = minute t; s = second t }

-- A whole second is the date of its parts.
moment_date-moment : (t : ℕ) → t % 1000 ≡ 0 → moment_date (moment t) ≡ t
moment_date-moment t whole = make_date-parts t ∙ omega (arith, whole)

read_anchor-edit_first_run :
    (t : ℕ) → 2020 ≤ year t → year t ≤ 2099 → read_anchor (edit_first_run t) ≡ some (moment t)
unfolding read_anchor edit_first_run
read_anchor-edit_first_run t low high =
    let r = date_ranges t in
    rw
      (
        parse_int-show (year t),
        ranged-within 2020 2099 (year t) low high,
        parse_int-pad2 (month t),
        ranged-within 1 12 (month t) r.5 r.6,
        parse_int-pad2 (date t),
        ranged-within 1 31 (date t) r.3 r.4,
        parse_int-pad2 (hour t),
        ranged-within 0 23 (hour t) (omega arith) r.2,
        parse_int-pad2 (minute t),
        ranged-within 0 59 (minute t) (omega arith) r.1,
        parse_int-pad2 (second t),
        ranged-within 0 59 (second t) (omega arith) r.0,
      )
      refl

is_real-moment : (t : ℕ) → t % 1000 ≡ 0 → is_real (moment t) ≡ true
is_real-moment t whole = rw (moment_date-moment t whole) (ground arith)

moved-same : (n : ℕ) (field kept : Text) → moved n n field kept ≡ kept
moved-same n field kept = ground arith

relist-keeps :
    (a : Anchor) (fields : Spec) (o : Outcome)
    → ((relist a fields o).0.base ≡ a.base) × ((relist a fields o).0.cron ≡ a.cron)
relist-keeps a fields hangs = (refl, refl)
relist-keeps a fields type_error = (refl, refl)
relist-keeps a fields (runs []) = (refl, refl)
relist-keeps a fields (runs (t ∷ ts)) = (refl, refl)

set_anchor-moment :
    (fuel now : ℕ) (a : Anchor) (t : ℕ)
    → ((set_anchor fuel now a t (moment t)).0.base ≡ format_date_time (some t))
      × ((set_anchor fuel now a t (moment t)).0.cron ≡ a.cron)
unfolding set_anchor base_text format_date_time
set_anchor-moment fuel now a t =
    let inputs : Spec = record (a.cron) {
      sec = moved (second t) (second t) a.fields.sec a.cron.sec;
      min = moved (minute t) (minute t) a.fields.min a.cron.min;
      hour = moved (hour t) (hour t) a.fields.hour a.cron.hour;
    } in
    let kept : (set_anchor fuel now a t (moment t)).0.cron ≡ inputs = (relist-keeps _ _ _).1 in
    let same : inputs ≡ a.cron = simp (
      moved-same (second t) a.fields.sec a.cron.sec,
      moved-same (minute t) a.fields.min a.cron.min,
      moved-same (hour t) a.fields.hour a.cron.hour,
    ) in
    ((relist-keeps _ _ _).0, kept ∙ same)

-- The inputs that `editFirstRunTime` shows for the first run listed, a whole second of a year from 2020
-- to 2099, are accepted by `confirmAnchor` as they are: the base time becomes this run, in the format of
-- `formatDateTime`, and the schedule inputs stay.
pub confirm_anchor-edit_first_run :
    (fuel now : ℕ) (a : Anchor) (t : ℕ) (others : List ℕ)
    → a.listed ≡ t ∷ others
    → t % 1000 ≡ 0
    → 2020 ≤ year t
    → year t ≤ 2099
    → ((confirm_anchor fuel now a (edit_first_run t)).0.base ≡ format_date_time (some t))
      × ((confirm_anchor fuel now a (edit_first_run t)).0.cron ≡ a.cron)
unfolding confirm_anchor
confirm_anchor-edit_first_run fuel now a t others first whole low high =
    rw (confirm_anchor, read_anchor-edit_first_run t low high, is_real-moment t whole)
      (subst
        (λ l.
          ((anchored fuel now a l (moment t)).0.base ≡ format_date_time (some t))
          × ((anchored fuel now a l (moment t)).0.cron ≡ a.cron))
        (sym first) (set_anchor-moment fuel now a t))
