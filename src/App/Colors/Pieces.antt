-- ===== src/App/Colors/Pieces.antt =====
-- app.js, `colorizeOutput`: the pieces of a line are the line, and the loop over the matches ends.
use cockpit_cronplus.Common.{
  ℕ, zero, suc, ◌≤◌, ◌<◌, ◌≡◌, refl, ap, subst, ◌∙◌, Bool, false, not, Option, none, some, List, [],
  ◌∷◌, ◌++◌, Text, is_empty, length, length-append, append_assoc, arith, Option-cases, ◌&&◌, ◌||◌,
  ◌⊎◌, some_eq, ==_iff, inl, inr, Bool-cases, is_digit, ◌==◌,
}
use cockpit_cronplus.Common.Match.{span, span_whole}
use cockpit_cronplus.App.Colors.{
  num, Piece, match_fraction, match_num, prepend, match_quoted, match_str, match_path, path_char,
  match_piece, before, pieces_from,
}

abbrev pub texts : List Piece → Text
texts [] = []
texts (p ∷ ps) = p.1 ++ texts ps

match_fraction_whole : (s : Text) → (match_fraction s).0 ++ (match_fraction s).1 ≡ s
match_fraction_whole [] = refl
match_fraction_whole (c ∷ s) = ground (arith, span_whole is_digit s)

-- A match at a character is that character and what it takes of the text behind it.
abbrev IsMatch : ℕ → Text → Piece → Text → Type 0
IsMatch c s p rest = (more : Text) × (p.1 ≡ c ∷ more) × (more ++ rest ≡ s)

match_num-IsMatch : (c : ℕ) (s : Text) → IsMatch c s (num, (match_num c s).0) (match_num c s).1
unfolding match_num
match_num-IsMatch c s =
    let (whole, more) = span is_digit s in
    let (fraction, rest) = match_fraction more in
    (
      whole ++ fraction,
      refl,
      append_assoc whole fraction rest
          ∙ ap (λ t. whole ++ t) (match_fraction_whole more)
          ∙ span_whole is_digit s,
    )

prepend_parts :
    (c : ℕ) (m : Option (Text × Text)) (a b : Text)
    → prepend c m ≡ some (a, b)
    → (a' : Text) × (m ≡ some (a', b)) × (a ≡ c ∷ a')
prepend_parts c none a b h = absurd (cc)
prepend_parts c (some (a', b')) a b h = (a', ground (arith), ground (arith))

quoted-cases :
    (q : ℕ) (escaped : Bool) (c : ℕ) (s a b : Text)
    → match_quoted q escaped (c ∷ s) ≡ some (a, b)
    → (prepend c (match_quoted q (not escaped && c == b'\\') s) ≡ some (a, b))
      ⊎ ((c ∷ [] ≡ a) × (s ≡ b))
quoted-cases q escaped c s a b h = ground arith

match_quoted_whole :
    (q : ℕ) (escaped : Bool) (s a b : Text) → match_quoted q escaped s ≡ some (a, b) → a ++ b ≡ s
match_quoted_whole q escaped [] a b h = absurd (cc)
match_quoted_whole q escaped (c ∷ s) a b h = elim (quoted-cases q escaped c s a b h) [
  | inl later ↦
      let next = not escaped && c == b'\\' in
      let (a', found, is) = prepend_parts c (match_quoted q next s) a b later in
      rw is (ap (λ t. c ∷ t) (match_quoted_whole q next s a' b found))
  | inr (one, same) ↦ rw (← one, same) refl
]

match_str-IsMatch :
    (q : ℕ) (s : Text) (p : Piece) (rest : Text)
    → match_str q s ≡ some (p, rest)
    → IsMatch q s p rest
match_str-IsMatch q s p rest h = elim (Option-cases (match_quoted q false s)) [
  | inl missing ↦ absurd (cc (rw (match_str, missing) at h))
  | inr ((chars, after), found) ↦
      let is = some_eq (rw (match_str, found) at h) in
      subst (λ m. IsMatch q s m.0 m.1) is
        (chars, refl, match_quoted_whole q false s chars after found)
]

match_path-IsMatch :
    (s : Text) (p : Piece) (rest : Text) → match_path s ≡ some (p, rest) → IsMatch b'/' s p rest
match_path-IsMatch s p rest h = elim (Bool-cases (is_empty (span path_char s).0)) [
  | inl missing ↦ absurd (cc (rw (match_path, missing) at h))
  | inr full ↦
      let is = some_eq (rw (match_path, full) at h) in
      subst (λ m. IsMatch b'/' s m.0 m.1) is ((span path_char s).0, refl, span_whole path_char s)
]

match_piece-IsMatch :
    (c : ℕ) (s : Text) (p : Piece) (rest : Text)
    → match_piece c s ≡ some (p, rest)
    → IsMatch c s p rest
unfolding match_piece
match_piece-IsMatch c s p rest h = elim (Bool-cases (is_digit c)) [
  | inl digit ↦
      let is = some_eq (rw (match_piece, digit) at h) in
      subst (λ m. IsMatch c s m.0 m.1) is (match_num-IsMatch c s)
  | inr other ↦ elim (Bool-cases (c == b'"' || c == b'\'')) [
    | inl quote ↦ match_str-IsMatch c s p rest (rw (match_piece, other, quote) at h)
    | inr unquoted ↦ elim (Bool-cases (c == b'/')) [
      | inl slash ↦
          rw ((==_iff c b'/').0 slash)
            (match_path-IsMatch s p rest (rw (match_piece, other, unquoted, slash) at h))
      | inr none_of ↦ absurd (cc (rw (match_piece, other, unquoted, none_of) at h))
    ]
  ]
]

-- A match takes at least one character.
match_piece_whole :
    (c : ℕ) (s : Text) (p : Piece) (rest : Text)
    → match_piece c s ≡ some (p, rest)
    → (p.1 ++ rest ≡ c ∷ s) × (length rest ≤ length s)
match_piece_whole c s p rest h =
    let (more, first, whole) = match_piece-IsMatch c s p rest h in
    let both = length-append more rest in (rw (first, whole) refl, omega (arith, rw whole at both))

texts-before : (cur : Text) (ps : List Piece) → texts (before cur ps) ≡ cur ++ texts ps
texts-before [] ps = refl
texts-before (c ∷ cur) ps = refl

pieces_from-pass :
    (fuel : ℕ) (cur : Text) (c : ℕ) (s : Text)
    → match_piece c s ≡ none
    → pieces_from (suc fuel) cur (c ∷ s) ≡ pieces_from fuel (cur ++ c ∷ []) s
unfolding pieces_from
pieces_from-pass fuel cur c s h = rw (pieces_from, h) refl

pieces_from-take :
    (fuel : ℕ) (cur : Text) (c : ℕ) (s rest : Text) (p : Piece) (ps : List Piece)
    → match_piece c s ≡ some (p, rest)
    → pieces_from fuel [] rest ≡ some ps
    → pieces_from (suc fuel) cur (c ∷ s) ≡ some (before cur (p ∷ ps))
unfolding pieces_from
pieces_from-take fuel cur c s rest p ps h found = rw (pieces_from, h, found) refl

-- On enough fuel the loop ends, and the texts of the pieces make up what was passed and what is left.
pub pieces_from_whole :
    (fuel : ℕ) (cur s : Text)
    → length s < fuel
    → (ps : List Piece) × (pieces_from fuel cur s ≡ some ps) × (texts ps ≡ cur ++ s)
unfolding pieces_from
pieces_from_whole zero cur s h = elim h [ ]
pieces_from_whole (suc fuel) cur [] h = (before cur [], refl, texts-before cur [])
pieces_from_whole (suc fuel) cur (c ∷ s) h = elim (Option-cases (match_piece c s)) [
  | inl none_here ↦
      let (ps, found, whole) = pieces_from_whole fuel (cur ++ c ∷ []) s (omega arith) in
      (ps, pieces_from-pass fuel cur c s none_here ∙ found, whole ∙ append_assoc cur (c ∷ []) s)
  | inr ((p, rest), here) ↦
      let (all_of, shorter) = match_piece_whole c s p rest here in
      let (ps, found, whole) = pieces_from_whole fuel [] rest (omega arith) in
      (
        before cur (p ∷ ps),
        pieces_from-take fuel cur c s rest p ps here found,
        texts-before cur (p ∷ ps) ∙ ap (λ t. cur ++ (p.1 ++ t)) whole ∙ ap (λ t. cur ++ t) all_of,
      )
]
