-- ===== src/Utils.antt =====
-- cockpit-cronplus/static/js/utils.js: escaping, quoting, and the formats of durations and dates.
pub mod Escape
pub mod Format
pub mod Shell
pub mod Base64
mod Tests
use cockpit_cronplus.Common.{
  ℕ, zero, suc, ◌+◌, ◌-◌, ◌*◌, ◌/◌, ◌%◌, ◌≡◌, refl, Bool, true, false, not, ◌&&◌, ◌||◌, Option,
  none, some, List, [], ◌∷◌, ◌++◌, if◌then◌else◌, ◌==◌, ltb, leb, Text, codes, show,
}
use cockpit_cronplus.Cron.Calendar.{year, month, date, hour, minute, second}

-- `s.replace(/c/g, r)` for one character
unfoldable pub replace_all : ℕ → Text → Text → Text
replace_all c r [] = []
replace_all c r (d ∷ s) = let rest = replace_all c r s in if d == c then r ++ rest else d ∷ rest

-- `null` and `undefined` give the empty text.
unfoldable pub esc_html : Option Text → Text
esc_html none = []
esc_html (some s) = replace_all b'\'' (codes "&#39;") (
    replace_all b'"' (codes "&quot;") (
      replace_all b'>' (codes "&gt;")
        (replace_all b'<' (codes "&lt;") (replace_all b'&' (codes "&amp;") s))))

unfoldable pub shell_quote : Text → Text
shell_quote s = codes "'" ++ replace_all b'\'' (codes "'\\''") s ++ codes "'"

unfoldable pub pad2 : ℕ → Text
pad2 n = if ltb n 10 then b'0' ∷ show n else show n

-- 3 years
abbrev pub max_duration_ms : ℕ
max_duration_ms = 3 * 365 * 24 * 60 * 60 * 1000

-- `formatDuration` of a whole number of milliseconds; `none` is a value that is null, undefined, ''
-- or no finite number from 0 on. `to_fixed` is `(n / 1000).toFixed(1)`, on a double.
unfoldable pub format_duration : (ℕ → Text) → Option ℕ → Text
format_duration to_fixed none = []
format_duration to_fixed (some n) =
    let days = n / 86400000 in
    let hours = n / 3600000 % 24 in
    let minutes = n / 60000 % 60 in
    let seconds = n / 1000 % 60 in
    if ltb max_duration_ms n
    then []
    else if ltb n 1000
    then show n ++ codes "ms"
    else if ltb n 60000
    then (if ltb n 10000 then to_fixed n else show ((n + 500) / 1000)) ++ codes "s"
    else if ltb 0 days
    then show days ++ codes "d " ++ pad2 hours ++ codes "h"
    else if ltb 0 hours
    then show hours ++ codes "h " ++ pad2 minutes ++ codes "m"
    else show minutes ++ codes "m " ++ pad2 seconds ++ codes "s"

-- `none` is an invalid date.
unfoldable pub format_date_time : Option ℕ → Text
format_date_time none = []
format_date_time (some t) =
    show (year t)
    ++ b'-' ∷ pad2 (month t)
    ++ b'-' ∷ pad2 (date t)
    ++ b' ' ∷ pad2 (hour t)
    ++ b':' ∷ pad2 (minute t)
    ++ b':' ∷ pad2 (second t)
