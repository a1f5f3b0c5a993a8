-- ===== src/Common/Match.antt =====
-- The parts of regular expressions that the components share: a run of characters, words and lines.
use Prim.Native.Nat.{ℕ, ◌+◌}
use mathlib.Core.Path.{◌≡◌, refl}
use mathlib.Core.Bool.{Bool, true, false, not, ◌&&◌, ◌||◌}
use mathlib.Core.List.{[], ◌∷◌, ◌++◌}
use mathlib.Core.Option.{Option, none, some}
use native.Mathlib.Omega.{arith}
use cockpit_cronplus.Common.Tests.{leb, ◌==◌, if◌then◌else◌, ==_iff, &&_parts, Bool-cases}
use mathlib.Core.Logic.{inl, inr}
use cockpit_cronplus.Common.Lists.{all}
use cockpit_cronplus.Common.Strings.{
  Text, is_empty, is_digit, is_space, has_char, trim_start, trim_end, trim, drop_prefix,
}

-- The longest run of characters that pass a test, and what follows it.
abbrev pub span : (ℕ → Bool) → Text → Text × Text
span p [] = ([], [])
span p (c ∷ s) = let (a, b) = span p s in if p c then (c ∷ a, b) else ([], c ∷ s)

-- `p+` where `p` is a class: what follows must not be in it.
abbrev pub span_some : (ℕ → Bool) → Text → Option (Text × Text)
span_some p s = let (a, b) = span p s in if is_empty a then none else some (a, b)

-- `\s+`
abbrev pub spaces : Text → Option Text
spaces [] = none
spaces (c ∷ s) = if is_space c then some (trim_start s) else none

-- `.` does not match these.
abbrev pub is_line_end : ℕ → Bool
is_line_end c = c == 10 || c == 13 || c == 8232 || c == 8233

-- `\w`
abbrev pub is_word_char : ℕ → Bool
is_word_char c = is_digit c || (leb b'A' c && leb c b'Z') || (leb b'a' c && leb c b'z') || c == b'_'

-- Case is ignored for the letters of ASCII alone: no other character is the small or the capital form
-- of one under the flag `i`.
abbrev pub small : ℕ → ℕ
small c = if leb b'A' c && leb c b'Z' then c + 32 else c

abbrev pub small_text : Text → Text
small_text [] = []
small_text (c ∷ s) = small c ∷ small_text s

-- `\b` after a character that is in a word
abbrev pub ends_word : Text → Bool
ends_word [] = true
ends_word (c ∷ s) = not (is_word_char c)

-- `\bw\b`, for a word; the flag says that the character before is in a word.
abbrev pub has_word_from : Bool → Text → Text → Bool
has_word_from inside w [] = false
has_word_from inside w (c ∷ s) =
    let here : Bool = elim (drop_prefix w (c ∷ s)) [ none ↦ false | some t ↦ ends_word t ] in
    let later = has_word_from (is_word_char c) w s in (not inside && here) || later

abbrev pub has_word : Text → Text → Bool
has_word s w = has_word_from false w s

-- What follows a run is none of its characters.
abbrev pub IsOver : (ℕ → Bool) → Text → Type 0
IsOver p [] = Unit
IsOver p (c ∷ s) = p c ≡ false

pub span-append :
    (p : ℕ → Bool) (s t : Text) → all p s ≡ true → IsOver p t → span p (s ++ t) ≡ (s, t)
span-append p [] [] h o = refl
span-append p [] (c ∷ t) h o = rw o refl
span-append p (c ∷ s) t h o =
    let (here, rest) = &&_parts (p c) (all p s) h in rw (here, span-append p s t rest o) refl

-- The two parts are the text.
pub span_whole : (p : ℕ → Bool) (s : Text) → (span p s).0 ++ (span p s).1 ≡ s
span_whole p [] = refl
span_whole p (c ∷ s) = ground (arith, span_whole p s)

pub has_char-append : (c : ℕ) (s t : Text) → has_char c (s ++ t) ≡ (has_char c s || has_char c t)
has_char-append c [] t = refl
has_char-append c (d ∷ s) t = ground (arith, has_char-append c s t)

-- A text of characters that pass a test has none that does not.
pub has_char-all :
    (p : ℕ → Bool) (c : ℕ) (s : Text) → p c ≡ false → all p s ≡ true → has_char c s ≡ false
has_char-all p c [] out h = refl
has_char-all p c (d ∷ s) out h =
    let (here, rest) = &&_parts (p d) (all p s) h in
    elim (Bool-cases (d == c)) [
      | inl same ↦ absurd (cc (here, out, (==_iff d c).0 same))
      | inr other ↦ rw (other, has_char-all p c s out rest) refl
    ]

trim_end_visible :
    (a b : Text) (c : ℕ) → is_space c ≡ false → is_empty (trim_end (a ++ c ∷ b)) ≡ false
trim_end_visible [] b c h = rw h refl
trim_end_visible (d ∷ a) b c h = ground (arith, trim_end_visible a b c h)

-- A text with a character that is no white space is not blank.
pub trim_visible : (a b : Text) (c : ℕ) → is_space c ≡ false → is_empty (trim (a ++ c ∷ b)) ≡ false
trim_visible [] b c h = rw h (trim_end_visible [] b c h)
trim_visible (d ∷ a) b c h = elim (Bool-cases (is_space d)) [
  | inl space ↦ rw space (trim_visible a b c h)
  | inr other ↦ rw other (trim_end_visible (d ∷ a) b c h)
]
