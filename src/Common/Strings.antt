-- ===== src/Common/Strings.antt =====
-- Text as JavaScript sees it: the list of its UTF-16 code units.
use Prim.Native.Char.{code}
use Prim.Native.String.{String}
use Prim.Native.Nat.{ℕ, zero, suc, ◌+◌, ◌/◌, ◌%◌}
use mathlib.Core.Path.{◌≡◌, refl, sym, ap, ap₂, ◌∙◌}
use mathlib.Core.Logic.{inl, inr}
use mathlib.Core.Bool.{Bool, true, false, ◌&&◌, ◌||◌}
use mathlib.Core.List.{List, [], ◌∷◌, ◌++◌, append-nil, append_assoc}
use mathlib.Core.Option.{Option, none, some}
use native.Mathlib.Omega.{arith}
use cockpit_cronplus.Common.Tests.{
  ltb, leb, ◌==◌, if◌then◌else◌, ==_iff, Bool-cases, &&_parts, ||_neither,
}
use cockpit_cronplus.Common.Lists.{All}

abbrev pub Text : Type 0
Text = List ℕ

-- The code units of a literal of the source.
abbrev pub codes : String → Text
codes String.[] = []
codes (String.◌∷◌ c s) = code c ∷ codes s

-- `s === t`
abbrev pub text_eq : Text → Text → Bool
text_eq [] [] = true
text_eq [] (_ ∷ _) = false
text_eq (_ ∷ _) [] = false
text_eq (a ∷ s) (b ∷ t) = a == b && text_eq s t

pub text_eq→eq : (s t : Text) → text_eq s t ≡ true → s ≡ t
text_eq→eq [] [] h = refl
text_eq→eq [] (b ∷ t) h = cc
text_eq→eq (a ∷ s) [] h = cc
text_eq→eq (a ∷ s) (b ∷ t) h =
    let p = &&_parts (a == b) (text_eq s t) h in ap₂ ◌∷◌ ((==_iff a b).0 p.0) (text_eq→eq s t p.1)

pub text_eq_refl : (s : Text) → text_eq s s ≡ true
text_eq_refl [] = refl
text_eq_refl (a ∷ s) = ground (arith, text_eq_refl s)

-- A text is falsy when it is empty.
abbrev pub is_empty : Text → Bool
is_empty [] = true
is_empty (_ ∷ _) = false

-- `s || d`
abbrev pub or_else : Text → Text → Text
or_else [] d = d
or_else (c ∷ s) d = c ∷ s

-- `s.indexOf(c) >= 0` for one character
abbrev pub has_char : ℕ → Text → Bool
has_char c [] = false
has_char c (d ∷ s) = d == c || has_char c s

abbrev pub starts_with : Text → Text → Bool
starts_with [] s = true
starts_with (c ∷ p) [] = false
starts_with (c ∷ p) (d ∷ s) = c == d && starts_with p s

-- `s.includes(p)`
abbrev pub includes : Text → Text → Bool
includes p [] = is_empty p
includes p (c ∷ s) = starts_with p (c ∷ s) || includes p s

-- What follows a prefix.
abbrev pub drop_prefix : Text → Text → Option Text
drop_prefix [] s = some s
drop_prefix (c ∷ cs) [] = none
drop_prefix (c ∷ cs) (d ∷ s) = let rest = drop_prefix cs s in if c == d then rest else none

-- `s < t`: by code units
abbrev pub text_lt : Text → Text → Bool
text_lt s [] = false
text_lt [] (b ∷ t) = true
text_lt (a ∷ s) (b ∷ t) = ltb a b || (a == b && text_lt s t)

-- `\s` and what `trim` removes
abbrev pub is_space : ℕ → Bool
is_space c =
    (leb 9 c && leb c 13)
    || c == 32
    || c == 160
    || c == 5760
    || (leb 8192 c && leb c 8202)
    || c == 8232
    || c == 8233
    || c == 8239
    || c == 8287
    || c == 12288
    || c == 65279

abbrev pub is_digit : ℕ → Bool
is_digit c = leb 48 c && leb c 57

abbrev pub trim_start : Text → Text
trim_start [] = []
trim_start (c ∷ s) = let rest = trim_start s in if is_space c then rest else c ∷ s

abbrev pub trim_end : Text → Text
trim_end [] = []
trim_end (c ∷ s) = let rest = trim_end s in if is_space c && is_empty rest then [] else c ∷ rest

abbrev pub trim : Text → Text
trim s = trim_end (trim_start s)

-- `s.split(c)` for a separator of one character: always at least one part.
pub split_from : ℕ → Text → Text → List Text
split_from c cur [] = cur ∷ []
split_from c cur (d ∷ s) =
    let cut = cur ∷ split_from c [] s in
    let go = split_from c (cur ++ d ∷ []) s in if d == c then cut else go

unfoldable pub split : ℕ → Text → List Text
unfolding split_from
split c s = split_from c [] s

-- `parts.join(sep)`
abbrev pub join : Text → List Text → Text
join sep [] = []
join sep (p ∷ []) = p
join sep (p ∷ q ∷ ps) = p ++ sep ++ join sep (q ∷ ps)

-- `String(n)` of a number: `digits_from` has a fuel of one round for each digit.
unfoldable pub digits_from : ℕ → ℕ → Text → Text
digits_from zero n out = out
digits_from (suc f) n out =
    let more = digits_from f (n / 10) ((48 + n % 10) ∷ out) in
    if ltb n 10 then (48 + n) ∷ out else more

unfoldable pub show : ℕ → Text
unfolding digits_from
show n = digits_from (suc n) n []

split_from-single :
    (c : ℕ) (cur s : Text) → has_char c s ≡ false → split_from c cur s ≡ (cur ++ s) ∷ []
unfolding split_from
split_from-single c cur [] h = rw append-nil refl
split_from-single c cur (d ∷ s) h =
    ground (arith, split_from-single c (cur ++ d ∷ []) s, append_assoc cur (d ∷ []) s)

-- A text without the separator is its own only part.
pub split-single : (c : ℕ) (s : Text) → has_char c s ≡ false → split c s ≡ s ∷ []
unfolding split
split-single c s h = split_from-single c [] s h

pub text_lt_asym : (s t : Text) → text_lt s t ≡ true → text_lt t s ≡ false
text_lt_asym s [] h = ground arith
text_lt_asym [] (b ∷ t) h = refl
text_lt_asym (a ∷ s) (b ∷ t) h = ground (arith, text_lt_asym s t)

split_from-cut :
    (c : ℕ) (cur p s : Text)
    → has_char c p ≡ false
    → split_from c cur (p ++ c ∷ s) ≡ (cur ++ p) ∷ split_from c [] s
unfolding split_from
split_from-cut c cur [] s h = rw ((==_iff c c).1 refl, append-nil) refl
split_from-cut c cur (d ∷ p) s h =
    let (other, rest) = ||_neither (d == c) (has_char c p) h in
    rw (other, split_from-cut c (cur ++ d ∷ []) p s rest, append_assoc cur (d ∷ []) p) refl

-- Parts without the separator are the parts of what they are joined to.
pub split-join :
    (c : ℕ) (p : Text) (ps : List Text)
    → All (λ q. has_char c q ≡ false) (p ∷ ps)
    → split c (join (c ∷ []) (p ∷ ps)) ≡ p ∷ ps
unfolding split
split-join c p [] (h, _) = split_from-single c [] p h
split-join c p (q ∷ ps) (h, hs) =
    rw (append_assoc p (c ∷ []) (join (c ∷ []) (q ∷ ps)))
      (split_from-cut c [] p (join (c ∷ []) (q ∷ ps)) h ∙ ap (λ r. p ∷ r) (split-join c q ps hs))

pub or_else-full : (s d : Text) → is_empty s ≡ false → or_else s d ≡ s
or_else-full [] d h = absurd (cc)
or_else-full (c ∷ s) d h = refl

join-split_from :
    (c : ℕ) (cur s : Text)
    → (p : Text) × (ps : List Text) × (split_from c cur s ≡ p ∷ ps)
      × (join (c ∷ []) (p ∷ ps) ≡ cur ++ s)
unfolding split_from
join-split_from c cur [] = (cur, [], refl, sym (append-nil cur))
join-split_from c cur (d ∷ s) = elim (Bool-cases (d == c)) [
  | inl same ↦
      let (p, ps, cut, whole) = join-split_from c [] s in
      (
        cur,
        p ∷ ps,
        rw (same, cut) refl,
        append_assoc cur (c ∷ []) (join (c ∷ []) (p ∷ ps)) ∙ rw (whole, (==_iff d c).0 same) refl,
      )
  | inr other ↦
      let (p, ps, go, whole) = join-split_from c (cur ++ d ∷ []) s in
      (p, ps, rw (other, go) refl, whole ∙ append_assoc cur (d ∷ []) s)
]

-- A text is what its parts are joined to, and there is at least one part.
pub join-split :
    (c : ℕ) (s : Text)
    → (p : Text) × (ps : List Text) × (split c s ≡ p ∷ ps) × (join (c ∷ []) (p ∷ ps) ≡ s)
unfolding split
join-split c s = join-split_from c [] s
