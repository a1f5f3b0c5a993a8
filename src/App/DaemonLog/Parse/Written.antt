-- ===== src/App/DaemonLog/Parse/Written.antt =====
-- app.js: what the daemon's log view makes of the lines that cronplusd writes. Its logger is the one of
-- Go's package log with `LstdFlags` (cronplus/cmd/cronplusd/main.go), so each line begins with a date
-- as in "2026/04/23 09:30:40 ".
use cockpit_cronplus.Common.{
  ℕ, ◌≡◌, refl, ap, true, false, not, ◌&&◌, none, List, [], ◌∷◌, map, Text, codes, is_digit,
  is_space, is_empty, has_char, trim, filter, split, split-join, join, All, arith,
}
use cockpit_cronplus.Common.Match.{trim_visible}
use cockpit_cronplus.App.DaemonLog.{Line, next_id, dedup}
use cockpit_cronplus.App.DaemonLog.Parse.{
  detect_level, match_shape, match_stamp, match_line, parse_log_line, load_daemon_log, answered,
}

-- A line that begins with the four digits of a year and a slash, and is one.
pub data IsWritten : Text → Type 0 where
  written :
      (a b c d : ℕ) (s : Text)
      → is_digit a ≡ true
      → (is_digit b && is_digit c && is_digit d) ≡ true
      → has_char 10 s ≡ false
      → IsWritten (a ∷ b ∷ c ∷ d ∷ b'/' ∷ s)

-- A line with no time and no name, whose level is guessed from the whole of its text.
abbrev pub unread : Text → Line
unread raw = record { ts = []; name = []; level = detect_level (codes "INFO") raw; msg = raw }

match_shape-later :
    (k c : ℕ) (ks s : Text) → match_shape ks s ≡ none → match_shape (k ∷ ks) (c ∷ s) ≡ none
match_shape-later k c ks s h = ground (arith, h)

parse_log_line-IsWritten : (raw : Text) → IsWritten raw → parse_log_line raw ≡ unread raw
unfolding parse_log_line match_line match_stamp
parse_log_line-IsWritten _ (written a b c d s year digits line) =
    let day = codes "dd-dd dd:dd:dd" in
    let four = b'-' ∷ day in
    let three = match_shape-later b'd' d four (b'/' ∷ s) refl in
    let two = match_shape-later b'd' c (b'd' ∷ four) (d ∷ b'/' ∷ s) three in
    let one = match_shape-later b'd' b (b'd' ∷ b'd' ∷ four) (c ∷ d ∷ b'/' ∷ s) two in
    let start = match_shape-later b'd' a (b'd' ∷ b'd' ∷ b'd' ∷ four) (b ∷ c ∷ d ∷ b'/' ∷ s) one in
    rw (parse_log_line, match_line, match_stamp, start) refl

next_id-digit : (c : ℕ) (s : Text) → is_digit c ≡ true → next_id (c ∷ s) ≡ none
unfolding next_id
next_id-digit c s h = ground (arith, h)

IsWritten-next_id : (raw : Text) → IsWritten raw → next_id raw ≡ none
IsWritten-next_id _ (written a b c d s year digits line) =
    next_id-digit a (b ∷ c ∷ d ∷ b'/' ∷ s) year

is_space-digit : (c : ℕ) → is_digit c ≡ true → is_space c ≡ false
is_space-digit c h = ground arith

IsWritten-visible : (raw : Text) → IsWritten raw → is_empty (trim raw) ≡ false
IsWritten-visible _ (written a b c d s year digits line) =
    trim_visible [] (b ∷ c ∷ d ∷ b'/' ∷ s) a (is_space-digit a year)

IsWritten-line : (raw : Text) → IsWritten raw → has_char 10 raw ≡ false
IsWritten-line _ (written a b c d s year digits line) = ground (arith, line)

lines-IsWritten : (ls : List Text) → All IsWritten ls → All (λ l. has_char 10 l ≡ false) ls
lines-IsWritten [] h = tt
lines-IsWritten (l ∷ ls) (w, h) = (IsWritten-line l w, lines-IsWritten ls h)

parsed :
    (ls : List Text)
    → All IsWritten ls
    → map parse_log_line (filter (λ l. not (is_empty (trim l))) ls) ≡ map unread ls
parsed [] h = refl
parsed (l ∷ ls) (w, h) = rw (IsWritten-visible l w, parse_log_line-IsWritten l w, parsed ls h) refl

dedup-unread : (ls : List Text) → All IsWritten ls → dedup [] (map unread ls) ≡ map unread ls
unfolding dedup
dedup-unread [] h = refl
dedup-unread (l ∷ ls) (w, h) =
    rw (dedup, IsWritten-next_id l w) (ap (λ rest. unread l ∷ rest) (dedup-unread ls h))

-- Of a file of lines that each begin with the four digits of a year and a slash, as those that the
-- daemon's logger writes, no line is read as one of the format of `parseLogLine`: each is shown
-- whole, with no time and no name and a level guessed from its text, and no line about the next run
-- of a task is left out as a repeated one.
pub load_daemon_log-IsWritten :
    (t : Text → Text) (ls : List Text)
    → All IsWritten ls
    → (load_daemon_log t (answered (join (codes "\n") ls)) ≡ map unread ls)
      × (dedup [] (load_daemon_log t (answered (join (codes "\n") ls)))
          ≡ load_daemon_log t (answered (join (codes "\n") ls)))
unfolding load_daemon_log split dedup
load_daemon_log-IsWritten t [] h = (refl, refl)
load_daemon_log-IsWritten t (l ∷ ls) h =
    let lines = split-join 10 l ls (lines-IsWritten (l ∷ ls) h) in
    let read : load_daemon_log t (answered (join (codes "\n") (l ∷ ls))) ≡ map unread (l ∷ ls) =
      rw lines (parsed (l ∷ ls) h) in
    (read, rw read (dedup-unread (l ∷ ls) h))
