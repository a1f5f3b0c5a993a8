-- ===== src/App/Form/Schedules.antt =====
-- app.js, the task dialog: it saves the schedule that it shows.
use cockpit_cronplus.Common.{
  ◌≡◌, refl, ◌∙◌, ap, arith, false, [], ◌∷◌, ◌++◌, Text, codes, is_empty, any, ||_neither,
  if◌then◌else◌, trim, trim_start, trim_end, starts_with, or_else, is_space,
}
use cockpit_cronplus.Cron.Next.{Spec}
use cockpit_cronplus.Cron.Schedule.{spec, parse_schedule, print_spec}
use cockpit_cronplus.Cron.Schedule.RoundTrip.{
  IsWord, IsWords, parse_schedule-print_spec, print_spec_lem,
}
use cockpit_cronplus.App.Values.{line_value, IsLine, line_value-IsLine}
use cockpit_cronplus.App.Form.{form_schedule}

trim_start-word : (w : Text) → any is_space w ≡ false → trim_start w ≡ w
trim_start-word [] h = refl
trim_start-word (c ∷ w) h =
    let (visible, _) = ||_neither (is_space c) (any is_space w) h in rw visible refl

trim_end-word : (w : Text) → any is_space w ≡ false → trim_end w ≡ w
trim_end-word [] h = refl
trim_end-word (c ∷ w) h =
    let (visible, rest) = ||_neither (is_space c) (any is_space w) h in
    rw (visible, trim_end-word w rest) refl

trim-word : (w : Text) → any is_space w ≡ false → trim w ≡ w
trim-word w h = rw (trim_start-word w h) (trim_end-word w h)

filled-word : (w d : Text) → IsWord w → or_else (trim w) d ≡ w
filled-word [] d (full, _) = absurd (cc full)
filled-word (c ∷ w) d (_, h) = rw (trim-word (c ∷ w) h) refl

-- What the dialog shows for a schedule, and what it saves for that.
abbrev pub shown_cron : Text → Spec
shown_cron s =
    if starts_with (codes "@reboot") s
    then spec (codes "0") (line_value s) [] [] [] []
    else parse_schedule s

-- A schedule of six words, the first two not begun by "@", or one that begins with "@reboot".
pub data IsSchedule : Text → Type 0 where
  of_words :
      (s : Spec)
      → IsWords s
      → starts_with (codes "@") s.sec ≡ false
      → starts_with (codes "@") s.min ≡ false
      → IsSchedule (print_spec s)
  at_reboot :
      (s : Text)
      → trim (codes "@reboot" ++ s) ≡ codes "@reboot" ++ s
      → IsLine (codes "@reboot" ++ s)
      → IsSchedule (codes "@reboot" ++ s)

not_reboot :
    (a b : Text)
    → is_empty a ≡ false
    → starts_with (codes "@") a ≡ false
    → starts_with (codes "@reboot") (a ++ b) ≡ false
not_reboot [] b full h = absurd (cc full)
not_reboot (c ∷ a) b full h = ground arith

pub form_schedule-words :
    (s : Spec) → IsWords s → starts_with (codes "@") s.min ≡ false → form_schedule s ≡ print_spec s
unfolding form_schedule
form_schedule-words s w h =
    rw
      (
        filled-word s.min (codes "*") w.min,
        h,
        filled-word s.sec (codes "0") w.sec,
        filled-word s.hour (codes "*") w.hour,
        filled-word s.day (codes "*") w.day,
        filled-word s.month (codes "*") w.month,
        filled-word s.dow (codes "*") w.dow,
      )
      refl

shown_cron-print_spec :
    (s : Spec) → IsWords s → starts_with (codes "@") s.sec ≡ false → shown_cron (print_spec s) ≡ s
shown_cron-print_spec s w h =
    let tail =
      b' ' ∷ (s.min ++ b' ' ∷ (s.hour ++ b' ' ∷ (s.day ++ b' ' ∷ (s.month ++ b' ' ∷ s.dow)))) in
    let other : starts_with (codes "@reboot") (print_spec s) ≡ false =
      rw (print_spec_lem s) (not_reboot s.sec tail w.sec.0 h) in
    rw other (parse_schedule-print_spec s w)

form_schedule-reboot :
    (s : Text)
    → trim (codes "@reboot" ++ s) ≡ codes "@reboot" ++ s
    → IsLine (codes "@reboot" ++ s)
    → form_schedule (shown_cron (codes "@reboot" ++ s)) ≡ codes "@reboot" ++ s
unfolding form_schedule
form_schedule-reboot s trimmed line = rw (line_value-IsLine (codes "@reboot" ++ s) line) trimmed

pub form_schedule-shown : (s : Text) → IsSchedule s → form_schedule (shown_cron s) ≡ s
form_schedule-shown _ (of_words s w first second) =
    ap form_schedule (shown_cron-print_spec s w first) ∙ form_schedule-words s w second
form_schedule-shown _ (at_reboot s trimmed line) = form_schedule-reboot s trimmed line
