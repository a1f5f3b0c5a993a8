-- ===== src/Cron/ParseInt.antt =====
-- JavaScript's `parseInt` and the two regular expressions of cron.js, on texts of code units.
-- A number is exact here; above 2 ^ 53 the program's would be rounded.
pub mod Show
use cockpit_cronplus.Common.{
  ℕ, zero, suc, ◌+◌, ◌-◌, ◌*◌, ◌≡◌, refl, Bool, true, false, ◌&&◌, ◌||◌, Option, none, some, [],
  ◌∷◌, leb, ◌==◌, if◌then◌else◌, ℤ, pos, negsuc, Text, codes, is_digit, trim_start, drop,
  starts_with,
}

-- The value of a digit below `base`, of ten or sixteen.
abbrev digit_of : Bool → ℕ → Option ℕ
digit_of hex c =
    if is_digit c
    then some (c - 48)
    else if hex && leb 97 c && leb c 102
    then some (c - 87)
    else if hex && leb 65 c && leb c 70
    then some (c - 55)
    else none

abbrev shift_in : Bool → Option ℕ → ℕ → Option ℕ
shift_in hex none d = some d
shift_in hex (some n) d = some ((if hex then 16 else 10) * n + d)

-- The longest run of digits; `none`, for NaN, where there is none.
read_digits : Bool → Text → Option ℕ → Option ℕ
read_digits hex [] acc = acc
read_digits hex (c ∷ s) acc = elim (digit_of hex c) [
  | none ↦ acc
  | some d ↦ read_digits hex s (shift_in hex acc d)
]

abbrev has_hex_prefix : Text → Bool
has_hex_prefix s = starts_with (codes "0x") s || starts_with (codes "0X") s

read_unsigned : Text → Option ℕ
unfolding read_digits
read_unsigned s =
    if has_hex_prefix s then read_digits true (drop 2 s) none else read_digits false s none

abbrev negate : Option ℕ → Option ℤ
negate none = none
negate (some zero) = some (pos 0)
negate (some (suc n)) = some (negsuc n)

abbrev unsigned : Option ℕ → Option ℤ
unsigned none = none
unsigned (some n) = some (pos n)

read_signed : Text → Option ℤ
unfolding read_unsigned
read_signed [] = none
read_signed (c ∷ s) =
    if c == b'-'
    then negate (read_unsigned s)
    else if c == b'+'
    then unsigned (read_unsigned s)
    else unsigned (read_unsigned (c ∷ s))

-- `parseInt(s)`; `none` is NaN.
unfoldable pub parse_int : Text → Option ℤ
unfolding read_signed
parse_int s = read_signed (trim_start s)

abbrev pub as_nat : Option ℤ → Option ℕ
as_nat none = none
as_nat (some (pos n)) = some n
as_nat (some (negsuc n)) = none

-- `parseInt` of a text that holds no '-', so that the result is NaN or not negative.
unfoldable pub parse_nat : Text → Option ℕ
unfolding parse_int
parse_nat s = as_nat (parse_int s)

-- `parseInt` of a group `(\d+)`, which is a number.
unfoldable pub number_of : Text → ℕ
unfolding parse_nat
number_of s = elim (parse_nat s) [ none ↦ 0 | some n ↦ n ]

abbrev pub all_digits : Text → Bool
all_digits [] = true
all_digits (c ∷ s) = is_digit c && all_digits s

-- `(\d+)$`
abbrev pub is_number : Text → Bool
is_number [] = false
is_number (c ∷ s) = is_digit c && all_digits s

abbrev is_line_end : ℕ → Bool
is_line_end c = c == 10 || c == 13 || c == 8232 || c == 8233

abbrev pub prepend : ℕ → Option (Text × Text) → Option (Text × Text)
prepend c none = none
prepend c (some (s, t)) = some (c ∷ s, t)

-- `s.match(/^(\d+)-(\d+)$/)`: the two groups.
unfoldable pub match_range : Text → Option (Text × Text)
match_range [] = none
match_range (c ∷ s) =
    let rest = prepend c (match_range s) in
    let here : Option (Text × Text) = elim s [
      | [] ↦ none
      | d ∷ t ↦ if d == b'-' && is_number t then some (c ∷ [], t) else none
    ] in
    if is_digit c then elim here [ some m ↦ some m | none ↦ rest ] else none

-- `s.match(/^(.*?)\/(\d+)$/)`: the two groups. What follows the slash holds no other slash.
unfoldable pub match_step : Text → Option (Text × Text)
match_step [] = none
match_step (c ∷ s) =
    let rest = prepend c (match_step s) in
    if c == b'/' && is_number s then some ([], s) else if is_line_end c then none else rest

-- `spec.match(/^\*\/(\d+)$/)`: the group.
unfoldable pub match_every : Text → Option Text
match_every [] = none
match_every (c ∷ []) = none
match_every (c ∷ d ∷ s) = if c == b'*' && d == b'/' && is_number s then some s else none

parse_int_tests :
    (parse_int (codes " 42abc") ≡ some (pos 42))
    × (parse_int (codes "-5") ≡ some (negsuc 4))
    × (parse_int (codes "0x1F") ≡ some (pos 31))
    × (parse_int (codes "x") ≡ none)
    × (parse_int (codes "-0") ≡ some (pos 0))
unfolding parse_int
parse_int_tests = (refl, refl, refl, refl, refl)

match_tests :
    (match_range (codes "10-25") ≡ some (codes "10", codes "25"))
    × (match_range (codes "10-25/5") ≡ none)
    × (match_step (codes "10-25/5") ≡ some (codes "10-25", codes "5"))
    × (match_step (codes "*/15") ≡ some (codes "*", codes "15"))
    × (match_every (codes "*/15") ≡ some (codes "15"))
unfolding match_range match_step match_every
match_tests = (refl, refl, refl, refl, refl)
