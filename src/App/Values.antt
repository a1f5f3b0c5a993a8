-- ===== src/App/Values.antt =====
-- What the browser keeps of a text that app.js assigns to an input, by the HTML standard's rules for
-- the values of text inputs and of text areas.
use cockpit_cronplus.Common.{
  ◌≡◌, refl, ap, Bool, false, not, ◌||◌, [], ◌∷◌, if◌then◌else◌, ◌==◌, Text, has_char, filter,
  ||_neither,
}

-- `input.value = s` of a text input: line feeds and carriage returns are stripped.
unfoldable pub line_value : Text → Text
line_value = filter (λ c. not (c == 10 || c == 13))

abbrev starts_line_feed : Text → Bool
starts_line_feed [] = false
starts_line_feed (c ∷ s) = c == 10

-- `textarea.value = s`, as it is read back: a carriage return, with the line feed after it if there is
-- one, is a line feed.
unfoldable pub area_value : Text → Text
area_value [] = []
area_value (c ∷ s) =
    let rest = area_value s in
    if c == 13 then (if starts_line_feed s then rest else 10 ∷ rest) else c ∷ rest

-- A text of one line.
abbrev pub IsLine : Text → Type 0
IsLine s = (has_char 10 s ≡ false) × (has_char 13 s ≡ false)

pub line_value-IsLine : (s : Text) → IsLine s → line_value s ≡ s
unfolding line_value
line_value-IsLine [] h = refl
line_value-IsLine (c ∷ s) (feed, return) =
    let (no_feed, feeds) = ||_neither (c == 10) (has_char 10 s) feed in
    let (no_return, returns) = ||_neither (c == 13) (has_char 13 s) return in
    rw (no_feed, no_return) (ap (λ r. c ∷ r) (line_value-IsLine s (feeds, returns)))

pub area_value-no_return : (s : Text) → has_char 13 s ≡ false → area_value s ≡ s
unfolding area_value
area_value-no_return [] h = refl
area_value-no_return (c ∷ s) h =
    let (no_return, returns) = ||_neither (c == 13) (has_char 13 s) h in
    rw (no_return, area_value, area_value-no_return s returns) refl

value_tests :
    (line_value (b'a' ∷ 13 ∷ 10 ∷ b'b' ∷ []) ≡ b'a' ∷ b'b' ∷ [])
    × (area_value (b'a' ∷ 13 ∷ 10 ∷ b'b' ∷ 13 ∷ b'c' ∷ []) ≡ b'a' ∷ 10 ∷ b'b' ∷ 10 ∷ b'c' ∷ [])
unfolding line_value area_value
value_tests = (refl, refl)
