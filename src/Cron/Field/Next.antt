-- ===== src/Cron/Field/Next.antt =====
-- `fieldNextAfter` and `fieldMin`: between a number and the value that they give a field has no
-- other value.
use cockpit_cronplus.Common.{
  ℕ, ◌≤◌, ◌<◌, ◌≡◌, refl, sym, ◌∙◌, inl, inr, Bool, ◌||◌, true, false, none, some, List, [], ◌∷◌, ℤ,
  pos, negsuc, ◌<ℤ◌, ◌≤ℤ◌, leb_ℤ, get_elem?, All, arith, Bool-cases, Option-cases, ◌==◌, ==_iff,
  ltb_ℤ, subst,
}
use cockpit_cronplus.Cron.Field.{
  Field, wildcard, values, has_key, first_above, field_next_after, field_min, field_matches,
}
use cockpit_cronplus.Cron.Field.Search.{IsSorted, field_matches-values}

-- The values of a field are ascending and lie from `lo` to `hi`.
abbrev pub IsRanged : ℕ → ℕ → Field → Type 0
IsRanged lo hi wildcard = Unit
IsRanged lo hi (values xs) = IsSorted xs × All (λ w. (pos lo ≤ℤ w) × (w ≤ℤ pos hi)) xs

has_key-above : (u : ℤ) (ws : List ℤ) → All (λ w. u <ℤ w) ws → has_key u ws ≡ false
has_key-above u [] h = refl
has_key-above u (w ∷ ws) (p, h) = ground (arith, has_key-above u ws h)

All-above : (u v : ℤ) (ws : List ℤ) → u <ℤ v → All (λ w. v <ℤ w) ws → All (λ w. u <ℤ w) ws
All-above u v [] h _ = tt
All-above u v (w ∷ ws) h (p, a) = (omega arith, All-above u v ws h a)

-- No value lies strictly between the number and the one found.
first_above-gap :
    (xs : List ℤ) (c u : ℕ) {v : ℤ}
    → IsSorted xs
    → first_above xs c ≡ some v
    → c < u
    → pos u <ℤ v
    → has_key (pos u) xs ≡ false
first_above-gap [] c u s e a b = refl
first_above-gap (w ∷ ws) c u {v} (low, s) e a b = elim (Bool-cases (ltb_ℤ (pos c) w)) [
  | inl above ↦
      let same : w ≡ v = cc (rw above at e) in
      has_key-above (pos u) (w ∷ ws)
        (rw (← same) at b, All-above (pos u) w ws (rw (← same) at b) low)
  | inr below ↦ ground (arith, first_above-gap ws c u {v = v} s)
]

first_above-none :
    (xs : List ℤ) (c u : ℕ) → first_above xs c ≡ none → c < u → has_key (pos u) xs ≡ false
first_above-none [] c u e h = refl
first_above-none (w ∷ ws) c u e h = ground (arith, first_above-none ws c u)

first_above-All :
    (P : ℤ → Type 0) (xs : List ℤ) (c : ℕ) {v : ℤ}
    → All P xs
    → first_above xs c ≡ some v
    → P v × (pos c <ℤ v)
first_above-All P [] c h e = absurd (cc)
first_above-All P (w ∷ ws) c {v} (p, h) e = elim (Bool-cases (ltb_ℤ (pos c) w)) [
  | inl above ↦ let same : w ≡ v = cc (rw above at e) in rw (← same) (p, ground arith)
  | inr below ↦ first_above-All P ws c {v = v} h (rw below at e)
]

has_key-head : (x : ℤ) (xs : List ℤ) → has_key x (x ∷ xs) ≡ true
has_key-head x xs = ground arith

||_true : (b : Bool) → (b || true) ≡ true
||_true b = ground arith

first_above-has_key :
    (xs : List ℤ) (c : ℕ) {v : ℤ} → first_above xs c ≡ some v → has_key v xs ≡ true
first_above-has_key [] c e = absurd (cc)
first_above-has_key (w ∷ ws) c {v} e = elim (Bool-cases (ltb_ℤ (pos c) w)) [
  | inl above ↦
      let same : w ≡ v = cc (rw above at e) in
      subst (λ y. has_key y (w ∷ ws) ≡ true) same (has_key-head w ws)
  | inr below ↦ rw (first_above-has_key ws c {v = v} (rw below at e)) (||_true _)
]

-- A value of the field ahead of `c`, with no value from `c` to it.
pub record Ahead (hi : ℕ) (f : Field) (c : ℕ) (v : ℤ) : Type 0 where
  pub value : ℕ
  pub is_value : v ≡ pos value
  pub ahead : c < value
  pub within : value ≤ hi
  pub hit : field_matches f value ≡ true
  pub gap : (u : ℕ) → c ≤ u → u < value → field_matches f u ≡ false

-- No value from `c` on, and none below the least one.
pub record Wrapped (lo hi : ℕ) (f : Field) (c : ℕ) : Type 0 where
  pub over : (u : ℕ) → c ≤ u → field_matches f u ≡ false
  pub value : ℕ
  pub is_value : field_min f lo ≡ pos value
  pub least : lo ≤ value
  pub within : value ≤ hi
  pub hit : field_matches f value ≡ true
  pub below : (u : ℕ) → u < value → field_matches f u ≡ false

ranged_pos :
    (hi : ℕ) (v : ℤ) (lo : ℕ)
    → pos lo ≤ℤ v
    → v ≤ℤ pos hi
    → (n : ℕ) × (v ≡ pos n) × (lo ≤ n) × (n ≤ hi)
ranged_pos hi (pos n) lo a b = (n, refl, omega arith, omega arith)
ranged_pos hi (negsuc n) lo a b = absurd (omega arith)

-- From `c` on: `c` itself or a number above it.
from_gap :
    (xs : List ℤ) (c u : ℕ)
    → IsSorted xs
    → field_matches (values xs) c ≡ false
    → c ≤ u
    → (c < u → has_key (pos u) xs ≡ false)
    → field_matches (values xs) u ≡ false
from_gap xs c u s miss le above = elim (Bool-cases (c == u)) [
  | inl same ↦ rw (← (==_iff c u).0 same) miss
  | inr other ↦ field_matches-values xs u s ∙ above (ground arith)
]

-- Where no value lies above `c`, the first one is not above it either.
head_below :
    (xs : List ℤ) (c : ℕ) {v : ℤ}
    → first_above xs c ≡ none
    → get_elem? xs 0 ≡ some v
    → leb_ℤ v (pos c) ≡ true
head_below [] c none_above e = absurd (cc)
head_below (x ∷ xs) c none_above e = ground arith

pub field_next_after-Ahead :
    (lo hi : ℕ) (f : Field) (c : ℕ) {v : ℤ}
    → IsRanged lo hi f
    → field_matches f c ≡ false
    → field_next_after f c ≡ some v
    → leb_ℤ v (pos c) ≡ false
    → Ahead hi f c v
unfolding field_next_after
field_next_after-Ahead lo hi wildcard c r miss e over = absurd (unfold field_matches in cc miss)
field_next_after-Ahead lo hi (values xs) c {v} (s, r) miss e over =
    elim (Option-cases (first_above xs c)) [
      | inl top ↦ absurd (cc (over, head_below xs c {v = v} top (rw (top, field_next_after) at e)))
      | inr (w, next) ↦
          let same : w ≡ v = cc (rw (next, field_next_after) at e) in
          let ((low, high), above) =
            first_above-All (λ w. (pos lo ≤ℤ w) × (w ≤ℤ pos hi)) xs c {v = w} r next in
          let (n, is, _, le) = ranged_pos hi w lo low high in
          let apart : c < n = omega (arith, subst (λ x. pos c <ℤ x) is above) in
          record {
            value = n;
            is_value = cc;
            ahead = apart;
            within = le;
            hit =
                field_matches-values xs n s
                ∙ subst (λ y. has_key y xs ≡ true) is (first_above-has_key xs c {v = w} next);
            gap = λ u a b. from_gap xs c u s miss a (λ lt.
                first_above-gap xs c u {v = w} s next lt
                  (subst (λ x. pos u <ℤ x) (sym is) (omega arith)));
          }
    ]

first_above-some : (xs : List ℤ) (c : ℕ) {v : ℤ} → first_above xs c ≡ some v → pos c <ℤ v
first_above-some xs c {v} e = (first_above-All (λ w. Unit {0}) xs c {v = v} (trivial xs) e).1
  where
    trivial : (ys : List ℤ) → All (λ w. Unit {0}) ys
    trivial [] = tt
    trivial (y ∷ ys) = (tt, trivial ys)

pub field_next_after-Wrapped :
    (lo hi : ℕ) (f : Field) (c : ℕ) {v : ℤ}
    → IsRanged lo hi f
    → field_matches f c ≡ false
    → field_next_after f c ≡ some v
    → leb_ℤ v (pos c) ≡ true
    → Wrapped lo hi f c
unfolding field_next_after
field_next_after-Wrapped lo hi wildcard c r miss e back = absurd (unfold field_matches in cc miss)
field_next_after-Wrapped lo hi (values []) c r miss e back = absurd (cc)
field_next_after-Wrapped lo hi (values (x ∷ xs)) c {v} (s, r) miss e back =
    elim (Option-cases (first_above (x ∷ xs) c)) [
      | inr (w, next) ↦
          let above = first_above-some (x ∷ xs) c {v = w} next in
          let same : w ≡ v = cc (rw (next, field_next_after) at e) in
          absurd (ground (arith, subst (λ y. pos c <ℤ y) same above))
      | inl top ↦
          let (n, is, ge, le) = ranged_pos hi x lo r.0.0 r.0.1 in
          record {
            over =
                λ u a. from_gap (x ∷ xs) c u s miss a (λ lt. first_above-none (x ∷ xs) c u top lt);
            value = n;
            is_value = unfold field_min in is;
            least = ge;
            within = le;
            hit =
                field_matches-values (x ∷ xs) n s
                ∙ subst (λ y. has_key y (x ∷ xs) ≡ true) is (has_key-head x xs);
            below = λ u lt.
                field_matches-values (x ∷ xs) u s
                ∙ has_key-above (pos u) (x ∷ xs) (
                  subst (λ y. pos u <ℤ y) (sym is) (omega arith),
                  All-above (pos u) x xs (subst (λ y. pos u <ℤ y) (sym is) (omega arith)) s.0,
                );
          }
    ]
