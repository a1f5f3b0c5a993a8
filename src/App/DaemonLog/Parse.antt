-- ===== src/App/DaemonLog/Parse.antt =====
-- app.js, the reading of the daemon's log: `parseLogLine`, `_detectLevel` and `loadDaemonLog`. The
-- fields `rawLevel` and `raw` of a line are left out, since nothing reads them.
pub mod Level
pub mod RoundTrip
pub mod Written
use cockpit_cronplus.Common.{
  ℕ, ◌≡◌, refl, Bool, true, false, not, ◌&&◌, ◌||◌, Option, none, some, List, [], ◌∷◌, ◌++◌, map,
  if◌then◌else◌, ◌==◌, leb, Text, codes, text_eq, is_empty, or_else, is_digit, trim_start, trim,
  split, drop_prefix, filter, any,
}
use cockpit_cronplus.Common.Match.{
  span, span_some, spaces, is_line_end, is_word_char, small_text, has_word,
}
use cockpit_cronplus.Cron.Next.{◌>>=◌}
use cockpit_cronplus.App.DaemonLog.{Line}

-- `✗`, `✕`, `✘`
abbrev is_cross : ℕ → Bool
is_cross c = c == 10007 || c == 10005 || c == 10008

-- `✓`, `✔`
abbrev is_tick : ℕ → Bool
is_tick c = c == 10003 || c == 10004

-- `[=: ]*(?!\s*0\b)[1-9]`: what the lookahead refuses is no digit from 1 to 9.
abbrev is_failure_code : Text → Bool
is_failure_code s = elim (span (λ c. c == b'=' || c == b':' || c == b' ') s).1 [
  | [] ↦ false
  | c ∷ _ ↦ leb b'1' c && leb c b'9'
]

-- `\bexit` and a code, at some place of a text in small letters
abbrev has_exit : Bool → Text → Bool
has_exit inside [] = false
has_exit inside (c ∷ s) =
    let here : Bool = elim (drop_prefix (codes "exit") (c ∷ s)) [
      | none ↦ false
      | some t ↦ is_failure_code t
    ] in
    let later = has_exit (is_word_char c) s in (not inside && here) || later

abbrev error_words : List Text
error_words =
    codes "error"
    ∷ codes "failed"
    ∷ codes "failure"
    ∷ codes "exception"
    ∷ codes "traceback"
    ∷ codes "errno"
    ∷ []

abbrev warning_words : List Text
warning_words =
    codes "warning"
    ∷ codes "warn"
    ∷ codes "stale"
    ∷ codes "timeout"
    ∷ codes "terminated"
    ∷ codes "sigterm"
    ∷ codes "sigkill"
    ∷ []

unfoldable pub is_error_msg : Text → Bool
is_error_msg msg =
    let s = small_text msg in any is_cross msg || any (has_word s) error_words || has_exit false s

unfoldable pub is_warning_msg : Text → Bool
is_warning_msg msg = any (has_word (small_text msg)) warning_words

unfoldable pub is_success_msg : Text → Bool
is_success_msg msg = any is_tick msg || has_word (small_text msg) (codes "success")

-- `_detectLevel`
unfoldable pub detect_level : Text → Text → Text
detect_level level msg =
    if text_eq level (codes "ERROR") || text_eq level (codes "CRITICAL")
    then level
    else if text_eq level (codes "WARNING")
    then level
    else if is_error_msg msg
    then codes "ERROR"
    else if is_warning_msg msg
    then codes "WARNING"
    else if is_success_msg msg
    then codes "INFO"
    else or_else level (codes "INFO")

-- `\d{4}-\d{2}-\d{2} \d{2}:\d{2}:\d{2}`, where a `d` of the shape is a digit.
abbrev pub shape : Text
shape = codes "dddd-dd-dd dd:dd:dd"

abbrev pub fits : ℕ → ℕ → Bool
fits k c = if k == b'd' then is_digit c else c == k

abbrev pub match_shape : Text → Text → Option (Text × Text)
match_shape [] s = some ([], s)
match_shape (k ∷ ks) [] = none
match_shape (k ∷ ks) (c ∷ s) =
    let rest : Option (Text × Text) = elim (match_shape ks s) [
      | none ↦ none
      | some (a, b) ↦ some (c ∷ a, b)
    ] in
    if fits k c then rest else none

-- `,?`
abbrev pub match_comma : Text → Text × Text
match_comma [] = ([], [])
match_comma (c ∷ s) = if c == b',' then (c ∷ [], s) else ([], c ∷ s)

-- `(\d{4}-\d{2}-\d{2} \d{2}:\d{2}:\d{2},?\d*)`
unfoldable pub match_stamp : Text → Option (Text × Text)
match_stamp raw = elim (match_shape shape raw) [
  | none ↦ none
  | some (a, s) ↦
      let (comma, s') = match_comma s in
      let (digits, s'') = span is_digit s' in some (a ++ (comma ++ digits), s'')
]

-- `\s+\[([^\]]+)\]`
unfoldable pub match_name : Text → Option (Text × Text)
match_name s = do
  s1 ← spaces s
  s2 ← drop_prefix (codes "[") s1
  m ← span_some (λ c. not (c == b']')) s2
  s3 ← drop_prefix (codes "]") m.1
  some (m.0, s3)

-- `\s+(\w+):\s*(.*)`
unfoldable pub match_message : Text → Option (Text × Text)
match_message s = do
  s1 ← spaces s
  m ← span_some is_word_char s1
  s2 ← drop_prefix (codes ":") m.1
  some (m.0, (span (λ c. not (is_line_end c)) (trim_start s2)).0)

-- `raw.match(…)` with its four groups
unfoldable pub match_line : Text → Option (Text × Text × Text × Text)
unfolding match_stamp
match_line raw = do
  stamp ← match_stamp raw
  name ← match_name stamp.1
  message ← match_message name.1
  some (stamp.0, name.0, message.0, message.1)

unfoldable pub parse_log_line : Text → Line
parse_log_line raw = elim (match_line raw) [
  | none ↦ record { ts = []; name = []; level = detect_level (codes "INFO") raw; msg = raw }
  | some (ts, name, level, msg) ↦ record {
    ts = ts;
    name = name;
    level = detect_level level msg;
    msg = msg;
  }
]

-- What `cat … | tail -2000` answers, or the message of the error.
pub data Read : Type 0 where
  answered failed : Text → Read

-- `loadDaemonLog`: the lines that are shown; `I18n.t` is `t`. With no viewer it does nothing.
unfoldable pub load_daemon_log : (Text → Text) → Read → List Line
load_daemon_log t (answered raw) =
    map parse_log_line (filter (λ l. not (is_empty (trim l))) (split 10 raw))
load_daemon_log t (failed message) =
    record {
      ts = [];
      name = [];
      level = codes "ERROR";
      msg = t (codes "daemon.loadFailed") ++ codes ": " ++ message;
    }
    ∷ []

line_tests :
    (parse_log_line (codes "2026-04-23 09:30:40,000 [cronplus.scheduler] INFO: task done, exit=0")
      ≡ record {
        ts = codes "2026-04-23 09:30:40,000";
        name = codes "cronplus.scheduler";
        level = codes "INFO";
        msg = codes "task done, exit=0";
      })
    × ((parse_log_line (codes "2026-04-23 09:30:40 [a b]  DEBUG:Exit: 12")).level ≡ codes "ERROR")
    × ((parse_log_line (codes "2026-04-23 09:30:40 [a] INFO: errors, terrors and SIGTERM")).level
        ≡ codes "WARNING")
    × ((parse_log_line (codes "20260423 nothing timed out")).level ≡ codes "INFO")
unfolding parse_log_line match_line match_name match_message detect_level is_error_msg
    is_warning_msg is_success_msg
line_tests = (refl, refl, refl, refl)
