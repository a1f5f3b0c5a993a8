-- ===== src/App/DaemonLog/Parse/RoundTrip.antt =====
-- app.js: lines in the format that the comment of `parseLogLine` gives are read back from their
-- text. The daemon of this repository writes another format, see App/DaemonLog/Parse/Written.
use cockpit_cronplus.Common.{
  ℕ, ◌≡◌, ◌≤◌, refl, ap, ◌∙◌, Bool, true, false, not, ◌&&◌, some, List, [], ◌∷◌, ◌++◌, map, ◌==◌,
  Text, codes, is_empty, is_digit, is_space, has_char, trim, trim_start, filter, split, split-join,
  join, All, all, ||_neither, sym, append_assoc, append-nil, arith, &&_parts,
}
use cockpit_cronplus.Common.Match.{
  span, is_line_end, is_word_char, span-append, has_char-append, has_char-all, trim_visible,
}
use cockpit_cronplus.App.DaemonLog.{Line, level_rank}
use cockpit_cronplus.App.DaemonLog.Parse.Level.{detect_level-level_rank}
use cockpit_cronplus.App.DaemonLog.Parse.{
  detect_level, shape, fits, match_shape, match_stamp, match_name, match_message, match_line,
  parse_log_line, load_daemon_log, answered,
}

-- The text of a line in the format of the comment: time, name in brackets, level, colon, message.
abbrev pub print_line : Line → Text
print_line l = l.ts ++ codes " [" ++ l.name ++ codes "] " ++ l.level ++ codes ": " ++ l.msg

-- What a line that was printed reads as: its level may be raised by its message.
abbrev pub detected : Line → Line
detected l = record l { level = detect_level l.level l.msg }

abbrev fits_all : Text → Text → Bool
fits_all [] [] = true
fits_all [] (c ∷ s) = false
fits_all (k ∷ ks) [] = false
fits_all (k ∷ ks) (c ∷ s) = fits k c && fits_all ks s

-- A time, with its thousandths or without.
pub data IsStamp : Text → Type 0 where
  plain : (a : Text) → fits_all shape a ≡ true → IsStamp a
  with_millis :
      (a d : Text) → fits_all shape a ≡ true → all is_digit d ≡ true → IsStamp (a ++ b',' ∷ d)

abbrev no_bracket : ℕ → Bool
no_bracket c = not (c == b']')

abbrev in_line : ℕ → Bool
in_line c = not (is_line_end c)

pub record IsPrintable (l : Line) : Type 0 where
  pub stamp : IsStamp l.ts
  pub named : is_empty l.name ≡ false
  pub name_chars : all no_bracket l.name ≡ true
  pub name_line : all in_line l.name ≡ true
  pub level : is_empty l.level ≡ false
  pub level_chars : all is_word_char l.level ≡ true
  pub msg_start : trim_start l.msg ≡ l.msg
  pub msg_chars : all in_line l.msg ≡ true

match_shape-append : (ks a t : Text) → fits_all ks a ≡ true → match_shape ks (a ++ t) ≡ some (a, t)
match_shape-append [] [] t h = refl
match_shape-append [] (c ∷ a) t h = absurd (cc)
match_shape-append (k ∷ ks) [] t h = absurd (cc)
match_shape-append (k ∷ ks) (c ∷ a) t h =
    let (here, rest) = &&_parts (fits k c) (fits_all ks a) h in
    rw (here, match_shape-append ks a t rest) refl

match_stamp-append : (ts t : Text) → IsStamp ts → match_stamp (ts ++ b' ' ∷ t) ≡ some (ts, b' ' ∷ t)
unfolding match_stamp
match_stamp-append _ t (plain a h) =
    rw (match_stamp, match_shape-append shape a (b' ' ∷ t) h)
      (ap (λ b. some (b, b' ' ∷ t)) (append-nil a))
match_stamp-append _ t (with_millis a d h digits) =
    let shaped = match_shape-append shape a (b',' ∷ (d ++ b' ' ∷ t)) h in
    let run = span-append is_digit d (b' ' ∷ t) digits refl in
    rw (match_stamp, append_assoc a (b',' ∷ d) (b' ' ∷ t), shaped, run) refl

match_name-append :
    (n t : Text)
    → is_empty n ≡ false
    → all no_bracket n ≡ true
    → match_name (codes " [" ++ n ++ b']' ∷ t) ≡ some (n, t)
unfolding match_name
match_name-append n t full h = rw (span-append no_bracket n (b']' ∷ t) h refl, full) refl

is_space-is_word_char : (c : ℕ) → is_word_char c ≡ true → is_space c ≡ false
is_space-is_word_char c h = ground arith

trim_start-word :
    (l t : Text) → is_empty l ≡ false → all is_word_char l ≡ true → trim_start (l ++ t) ≡ l ++ t
trim_start-word [] t full h = absurd (cc)
trim_start-word (c ∷ l) t full h =
    rw (is_space-is_word_char c (&&_parts (is_word_char c) (all is_word_char l) h).0) refl

span-all : (p : ℕ → Bool) (m : Text) → all p m ≡ true → span p m ≡ (m, [])
span-all p m h = let whole = span-append p m [] h tt in rw append-nil at whole

match_message-append :
    (l m : Text)
    → is_empty l ≡ false
    → all is_word_char l ≡ true
    → trim_start m ≡ m
    → all in_line m ≡ true
    → match_message (b' ' ∷ (l ++ b':' ∷ b' ' ∷ m)) ≡ some (l, m)
unfolding match_message
match_message-append l m full chars start ends =
    let run = span-append is_word_char l (b':' ∷ b' ' ∷ m) chars refl in
    rw (trim_start-word l (b':' ∷ b' ' ∷ m) full chars, run, full, start, span-all in_line m ends)
      refl

-- The text of a line, with what follows each part in brackets.
print_line_lem :
    (l : Line)
    → print_line l
      ≡ l.ts ++ (b' ' ∷ b'[' ∷ (l.name ++ (b']' ∷ b' ' ∷ (l.level ++ (b':' ∷ b' ' ∷ l.msg)))))
print_line_lem l =
    let to_name = l.ts ++ codes " [" in
    let to_bracket = to_name ++ l.name in
    let to_level = to_bracket ++ codes "] " in
    let message = codes ": " ++ l.msg in
    let level = l.level ++ message in
    let bracket = codes "] " ++ level in
    append_assoc (to_level ++ l.level) (codes ": ") l.msg
    ∙ append_assoc to_level l.level message
    ∙ append_assoc to_bracket (codes "] ") level
    ∙ append_assoc to_name l.name bracket
    ∙ append_assoc l.ts (codes " [") (l.name ++ bracket)

match_line-print_line :
    (l : Line) → IsPrintable l → match_line (print_line l) ≡ some (l.ts, l.name, l.level, l.msg)
unfolding match_line
match_line-print_line l p =
    let message =
      match_message-append l.level l.msg p.level p.level_chars p.msg_start p.msg_chars in
    let text = b' ' ∷ (l.level ++ (b':' ∷ b' ' ∷ l.msg)) in
    let name = match_name-append l.name text p.named p.name_chars in
    let stamp = match_stamp-append l.ts (b'[' ∷ (l.name ++ (b']' ∷ text))) p.stamp in
    rw (match_line, print_line_lem l, stamp, name, message) refl

-- A line of the documented format is read back from its text, but for its level, which the message
-- may raise.
pub parse_log_line-print_line :
    (l : Line) → IsPrintable l → parse_log_line (print_line l) ≡ detected l
unfolding parse_log_line
parse_log_line-print_line l p = rw (parse_log_line, match_line-print_line l p) refl

fits-new_line : (k c : ℕ) → (k == 10) ≡ false → fits k c ≡ true → (c == 10) ≡ false
fits-new_line k c new_line h = ground arith

fits_all-new_line :
    (ks a : Text) → has_char 10 ks ≡ false → fits_all ks a ≡ true → has_char 10 a ≡ false
fits_all-new_line [] [] n h = refl
fits_all-new_line [] (c ∷ a) n h = absurd (cc)
fits_all-new_line (k ∷ ks) [] n h = refl
fits_all-new_line (k ∷ ks) (c ∷ a) n h =
    let (other, others) = ||_neither (k == 10) (has_char 10 ks) n in
    let (here, rest) = &&_parts (fits k c) (fits_all ks a) h in
    rw (fits-new_line k c other here, fits_all-new_line ks a others rest) refl

stamp-new_line : (ts : Text) → IsStamp ts → has_char 10 ts ≡ false
stamp-new_line _ (plain a h) = fits_all-new_line shape a refl h
stamp-new_line _ (with_millis a d h digits) =
    rw
      (
        has_char-append 10 a (b',' ∷ d),
        fits_all-new_line shape a refl h,
        has_char-all is_digit 10 d refl digits,
      )
      refl

print_line-new_line : (l : Line) → IsPrintable l → has_char 10 (print_line l) ≡ false
print_line-new_line l p =
    let message = has_char-all in_line 10 l.msg refl p.msg_chars in
    let level = has_char-all is_word_char 10 l.level refl p.level_chars in
    let name = has_char-all in_line 10 l.name refl p.name_line in
    let stamp = stamp-new_line l.ts p.stamp in
    let text = b':' ∷ b' ' ∷ l.msg in
    let stated = l.level ++ text in
    rw
      (
        print_line_lem l,
        has_char-append 10 l.ts (b' ' ∷ b'[' ∷ (l.name ++ (b']' ∷ b' ' ∷ stated))),
        stamp,
        has_char-append 10 l.name (b']' ∷ b' ' ∷ stated),
        name,
        has_char-append 10 l.level text,
        level,
      )
      message

print_line-visible : (l : Line) → is_empty (trim (print_line l)) ≡ false
print_line-visible l =
    let text = l.name ++ (b']' ∷ b' ' ∷ (l.level ++ (b':' ∷ b' ' ∷ l.msg))) in
    let whole = print_line_lem l ∙ sym (append_assoc l.ts (codes " ") (b'[' ∷ text)) in
    rw whole (trim_visible (l.ts ++ codes " ") text b'[' refl)

no_new_lines :
    (ls : List Line) → All IsPrintable ls → All (λ q. has_char 10 q ≡ false) (map print_line ls)
no_new_lines [] h = tt
no_new_lines (l ∷ ls) (p, h) = (print_line-new_line l p, no_new_lines ls h)

abbrev is_shown : Text → Bool
is_shown l = not (is_empty (trim l))

module _ (t : Text → Text) where
  parsed :
      (ls : List Line)
      → All IsPrintable ls
      → (map parse_log_line (filter is_shown (map print_line ls)) ≡ map detected ls)
        × All (λ l. level_rank l.level ≤ level_rank (detected l).level) ls
  parsed [] h = (refl, tt)
  parsed (l ∷ ls) (p, h) =
      let (read, raised) = parsed ls h in
      let visible : is_shown (print_line l) ≡ true = ap not (print_line-visible l) in
      (
        rw (visible, parse_log_line-print_line l p, read) refl,
        (detect_level-level_rank l.level l.msg, raised),
      )

  -- A file of lines of the documented format is read back line by line, each with the level that its
  -- message gives it, which is not below the one that was written.
  pub load_daemon_log-print_line :
      (ls : List Line)
      → All IsPrintable ls
      → (load_daemon_log t (answered (join (codes "\n") (map print_line ls))) ≡ map detected ls)
        × All (λ l. level_rank l.level ≤ level_rank (detected l).level) ls
  unfolding load_daemon_log split
  load_daemon_log-print_line [] h = (refl, tt)
  load_daemon_log-print_line (l ∷ ls) h =
      let (read, raised) = parsed (l ∷ ls) h in
      let lines = split-join 10 (print_line l) (map print_line ls) (no_new_lines (l ∷ ls) h) in
      (rw lines read, raised)
