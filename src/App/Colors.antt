-- ===== src/App/Colors.antt =====
-- app.js, `colorizeOutput`: the markup of a log's output. The expression that cuts a line into pieces
-- matches in one way only, since what follows each repeated class is not in it. The loop over the
-- matches is on a fuel of one round for each character, which Colors/Pieces shows to be enough.
pub mod Pieces
pub mod Faithful
use cockpit_cronplus.Common.{
  ℕ, zero, suc, ◌≡◌, refl, Bool, true, false, not, ◌&&◌, ◌||◌, Option, none, some, List, [], ◌∷◌,
  ◌++◌, map, if◌then◌else◌, ◌==◌, Text, codes, is_empty, includes, is_digit, trim_start, split,
  join, any, length,
}
use cockpit_cronplus.Common.Match.{span, is_line_end, is_word_char, small_text}
use cockpit_cronplus.Utils.{esc_html}

pub data Kind : Type 0 where
  plain num str path : Kind

abbrev pub Piece : Type 0
Piece = Kind × Text

-- `\.?\d*`
abbrev pub match_fraction : Text → Text × Text
match_fraction [] = ([], [])
match_fraction (c ∷ s) =
    let (digits, rest) = span is_digit s in if c == b'.' then (c ∷ digits, rest) else ([], c ∷ s)

-- `(\d+\.?\d*)`, after its first digit
unfoldable pub match_num : ℕ → Text → Text × Text
match_num c s =
    let (whole, more) = span is_digit s in
    let (fraction, rest) = match_fraction more in (c ∷ (whole ++ fraction), rest)

abbrev pub prepend : ℕ → Option (Text × Text) → Option (Text × Text)
prepend c none = none
prepend c (some (s, t)) = some (c ∷ s, t)

-- `(?:[^q\\]|\\.)*q`, where the flag says that a backslash stands before.
abbrev pub match_quoted : ℕ → Bool → Text → Option (Text × Text)
match_quoted q escaped [] = none
match_quoted q escaped (c ∷ s) =
    let more = prepend c (match_quoted q (not escaped && c == b'\\') s) in
    if escaped
    then (if is_line_end c then none else more)
    else if c == q
    then some (c ∷ [], s)
    else more

-- `[\w\-\.\/]`
abbrev pub path_char : ℕ → Bool
path_char c = is_word_char c || c == b'-' || c == b'.' || c == b'/'

abbrev pub match_path : Text → Option (Piece × Text)
match_path s =
    let (chars, rest) = span path_char s in
    if is_empty chars then none else some ((path, b'/' ∷ chars), rest)

abbrev pub match_str : ℕ → Text → Option (Piece × Text)
match_str q s = elim (match_quoted q false s) [
  | none ↦ none
  | some (chars, rest) ↦ some ((str, q ∷ chars), rest)
]

-- A match of `re` at the first character of a text.
unfoldable pub match_piece : ℕ → Text → Option (Piece × Text)
match_piece c s =
    let number : Piece × Text = ((num, (match_num c s).0), (match_num c s).1) in
    if is_digit c
    then some number
    else if c == b'"' || c == b'\''
    then match_str c s
    else if c == b'/'
    then match_path s
    else none

-- What stands before a match, where there is anything.
abbrev pub before : Text → List Piece → List Piece
before cur ps = if is_empty cur then ps else (plain, cur) ∷ ps

-- The loop of `re.exec`; `cur` is the text from `lastIdx` on that was passed. None is an end of fuel.
unfoldable pub pieces_from : ℕ → Text → Text → Option (List Piece)
pieces_from zero cur s = none
pieces_from (suc fuel) cur [] = some (before cur [])
pieces_from (suc fuel) cur (c ∷ s) = elim (match_piece c s) [
  | none ↦ pieces_from fuel (cur ++ c ∷ []) s
  | some (piece, rest) ↦ elim (pieces_from fuel [] rest) [
    | none ↦ none
    | some ps ↦ some (before cur (piece ∷ ps))
  ]
]

unfoldable pub pieces : Text → Option (List Piece)
pieces line = pieces_from (suc (length line)) [] line

-- The elements of `parts`.
abbrev pub span_of : Text → Text → Text
span_of name text = codes "<span class=\"" ++ (name ++ (codes "\">" ++ (text ++ codes "</span>")))

unfoldable pub part : Piece → Text
part (plain, s) = esc_html (some s)
part (num, s) = span_of (codes "log-num") (esc_html (some s))
part (str, s) = span_of (codes "log-str") (esc_html (some s))
part (path, s) = span_of (codes "log-path") (esc_html (some s))

abbrev pub concat : List Text → Text
concat [] = []
concat (s ∷ ss) = s ++ concat ss

-- The lists of words, in small letters, and the class of a line.
abbrev error_words : List Text
error_words =
    codes "error"
    ∷ codes "fail"
    ∷ codes "fatal"
    ∷ codes "panic"
    ∷ codes "exception"
    ∷ codes "critical"
    ∷ codes "拒绝"
    ∷ codes "失败"
    ∷ codes "错误"
    ∷ []

abbrev warn_words : List Text
warn_words = codes "warn" ∷ codes "warning" ∷ codes "注意" ∷ codes "警告" ∷ codes "deprecated" ∷ []

abbrev success_words : List Text
success_words =
    codes "success"
    ∷ codes "ok"
    ∷ codes "done"
    ∷ codes "complete"
    ∷ codes "完成"
    ∷ codes "成功"
    ∷ codes "✓"
    ∷ codes "✔"
    ∷ []

abbrev info_words : List Text
info_words = codes "info" ∷ codes "notice" ∷ codes "提示" ∷ codes "信息" ∷ []

abbrev has_any : List Text → Text → Bool
has_any words line = any (λ w. includes w (small_text line)) words

-- `/^\s*[\$#>]/`
abbrev is_command : Text → Bool
is_command line = elim (trim_start line) [
  | [] ↦ false
  | c ∷ _ ↦ c == b'$' || c == b'#' || c == b'>'
]

pub data LineClass : Type 0 where
  no_class error warn success info cmd : LineClass

unfoldable pub line_class : Text → LineClass
line_class line =
    if has_any error_words line
    then error
    else if has_any warn_words line
    then warn
    else if has_any success_words line
    then success
    else if has_any info_words line
    then info
    else if is_command line
    then cmd
    else no_class

unfoldable pub wrap_line : LineClass → Text → Text
wrap_line no_class inner = inner
wrap_line error inner = span_of (codes "log-line log-line-error") inner
wrap_line warn inner = span_of (codes "log-line log-line-warn") inner
wrap_line success inner = span_of (codes "log-line log-line-success") inner
wrap_line info inner = span_of (codes "log-line log-line-info") inner
wrap_line cmd inner = span_of (codes "log-line log-line-cmd") inner

unfoldable pub color_line : Text → Option Text
color_line line = elim (pieces line) [
  | none ↦ none
  | some ps ↦ some (wrap_line (line_class line) (concat (map part ps)))
]

abbrev pub color_lines : List Text → Option (List Text)
color_lines [] = some []
color_lines (l ∷ ls) = elim (color_line l) [
  | none ↦ none
  | some h ↦ elim (color_lines ls) [ none ↦ none | some hs ↦ some (h ∷ hs) ]
]

-- `colorizeOutput`
unfoldable pub colorize_output : Text → Option Text
colorize_output text =
    let colored : Option Text = elim (color_lines (split 10 text)) [
      | none ↦ none
      | some ls ↦ some (join (codes "\n") ls)
    ] in
    if is_empty text then some [] else colored

piece_tests :
    (pieces (codes "took 4.2s in /var/log, \"a \\\" b\" 'x")
      ≡ some (
          (plain, codes "took ")
          ∷ (num, codes "4.2")
          ∷ (plain, codes "s in ")
          ∷ (path, codes "/var/log")
          ∷ (plain, codes ", ")
          ∷ (str, codes "\"a \\\" b\"")
          ∷ (plain, codes " 'x")
          ∷ []))
    × (line_class (codes "任务失败") ≡ error)
    × (line_class (codes "  $ ls") ≡ cmd)
    × (line_class (codes "OK") ≡ success)
unfolding pieces pieces_from match_piece match_num line_class
piece_tests = (refl, refl, refl, refl)
