-- ===== src/Time/Agree.antt =====
-- time.js and utils.js write a date alike, and what is written is read as itself.
use cockpit_cronplus.Common.{
  ℕ, zero, suc, ◌+◌, ◌/◌, ◌%◌, ◌≤◌, ◌<◌, ◌≡◌, refl, inl, inr, arith, Option, none, some, [], ◌∷◌,
  ltb, Text, show, digits_from, length, Bool-cases, ltb→lt,
}
use cockpit_cronplus.Cron.ParseInt.Show.{show-digit}
use cockpit_cronplus.Cron.Calendar.{month, date, hour, minute, second}
use cockpit_cronplus.Utils.{pad2, format_date_time}
use cockpit_cronplus.Time.{pad_start, format_datetime, format_full_time}

pad_start-long : (s : Text) → 2 ≤ length s → pad_start s ≡ s
pad_start-long [] h = absurd (omega arith)
pad_start-long (c ∷ []) h = absurd (omega arith)
pad_start-long (c ∷ d ∷ s) h = refl

length-digits_from :
    (f n : ℕ) (out : Text) → n < f → suc (length out) ≤ length (digits_from f n out)
unfolding digits_from
length-digits_from zero n out h = absurd (omega arith)
length-digits_from (suc f) n out h =
    ground (arith, length-digits_from f (n / 10) ((48 + n % 10) ∷ out))

length-show : (n : ℕ) → 10 ≤ n → 2 ≤ length (show n)
unfolding show digits_from
length-show n h = ground (arith, length-digits_from n (n / 10) ((48 + n % 10) ∷ []))

pad_start-pad2 : (n : ℕ) → pad_start (show n) ≡ pad2 n
unfolding pad2
pad_start-pad2 n = elim (Bool-cases (ltb n 10)) [
  | inl one ↦ rw (one, show-digit n (ltb→lt n 10 one)) refl
  | inr more ↦ rw more (pad_start-long (show n) (length-show n (ground arith)))
]

-- `TimeUtil.full` and `Utils.formatDateTime` give the same text for every date, an invalid one included.
pub format_full_time-format_date_time : (d : Option ℕ) → format_full_time d ≡ format_date_time d
unfolding format_full_time format_date_time format_datetime
format_full_time-format_date_time none = refl
format_full_time-format_date_time (some t) = simp (
  pad_start-pad2 (month t),
  pad_start-pad2 (date t),
  pad_start-pad2 (hour t),
  pad_start-pad2 (minute t),
  pad_start-pad2 (second t),
)
