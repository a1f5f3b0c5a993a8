-- ===== src/Time.antt =====
-- cockpit-cronplus/static/js/time.js: the formats of times. `new Date()` is the argument `now`, and
-- `new Date(text)` the parameter `parse_date`.
pub mod Agree
mod Tests
use cockpit_cronplus.Common.{
  ℕ, zero, suc, ◌+◌, ◌-◌, ◌*◌, ◌/◌, ◌%◌, Bool, Option, none, some, [], ◌∷◌, ◌++◌, if◌then◌else◌,
  ltb, leb, ◌==◌, Text, codes, show, is_empty, map, length,
}
use cockpit_cronplus.Cron.Calendar.{year, month, date, hour, minute, second}

-- `Math.round(-d / 1000)` of a time that has passed: a half is rounded up.
abbrev passed_secs : ℕ → Text
passed_secs d = let n = (d + 499) / 1000 in if n == 0 then show 0 else b'-' ∷ show n

-- `formatRelativeTime`, from its second line on, of the milliseconds that are left.
unfoldable pub format_left : ℕ → Text
format_left diff =
    let secs = (diff + 500) / 1000 in
    let mins = (diff + 30000) / 60000 in
    let hours = mins / 60 in
    let days = hours / 24 in
    if ltb secs 60
    then show secs ++ codes "秒"
    else if ltb mins 60
    then show mins ++ codes "分钟"
    else if ltb hours 24
    then show hours ++ codes "h" ++ show (mins % 60) ++ codes "m"
    else show days ++ codes "d" ++ show (hours % 24) ++ codes "h"

unfoldable pub format_relative_time : ℕ → ℕ → Text
unfolding format_left
format_relative_time t now =
    if leb now t then format_left (t - now) else passed_secs (now - t) ++ codes "秒"

-- `s.padStart(2, '0')`
abbrev pub pad_start : Text → Text
pad_start [] = codes "00"
pad_start (c ∷ []) = b'0' ∷ c ∷ []
pad_start (c ∷ d ∷ s) = c ∷ d ∷ s

unfoldable pub format_datetime : ℕ → Text
format_datetime t =
    show (year t)
    ++ b'-' ∷ pad_start (show (month t))
    ++ b'-' ∷ pad_start (show (date t))
    ++ b' ' ∷ pad_start (show (hour t))
    ++ b':' ∷ pad_start (show (minute t))
    ++ b':' ∷ pad_start (show (second t))

-- `dateStr.replace(/\//g, '-')`
abbrev dashes : Text → Text
dashes s = map (λ c. if c == b'/' then b'-' else c) s

-- `formatShortTime`; none is `null`.
unfoldable pub format_short_time : (Text → Option ℕ) → Text → Option Text
format_short_time parse_date [] = none
format_short_time parse_date (c ∷ s) = elim (parse_date (dashes (c ∷ s))) [
  | none ↦ some (c ∷ s)
  | some t ↦ some (format_datetime t)
]

-- `formatFullTime`; none is no date, or an invalid one.
unfoldable pub format_full_time : Option ℕ → Text
format_full_time none = []
format_full_time (some t) = format_datetime t
