-- ===== src/Cron/Field/Agree.antt =====
-- `parseFieldValues` and `matchField` give one meaning to a field.
use cockpit_cronplus.Common.{
  some_eq, ℕ, ◌≤◌, ◌≡◌, refl, Bool, true, false, ◌&&◌, ◌||◌, ◌∙◌, Option, none, some, List, [], ◌∷◌,
  if◌then◌else◌, ℤ, pos, eqb_ℤ, inl, inr, arith, Text, trim, Bool-cases, Option-cases, has_char,
  any, All, split, split-single,
}
use cockpit_cronplus.Cron.ParseInt.{
  parse_int, parse_nat, number_of, match_range, match_step, is_number,
}
use cockpit_cronplus.Cron.Field.{
  at_least, at_most, divides_from, is_star, bound, match_stepped, match_single, match_tail, has_key,
  add_range, add_stepped, add_shape, add_part, add_parts, match_field, Field, wildcard, values,
  field_matches, parse_field_values, sort_values,
}
use cockpit_cronplus.Cron.Field.Search.{field_matches-values}
use cockpit_cronplus.Cron.Field.Sorted.{has_key-add_key, has_key-sort_values, sort_values-IsSorted}
use cockpit_cronplus.Cron.Field.Ordered.{add_parts-IsKeySet}
use cockpit_cronplus.Cron.Field.Expand.{add_steps-has_key}

match_step-none : (s : Text) → has_char b'/' s ≡ false → match_step s ≡ none
unfolding match_step
match_step-none [] h = refl
match_step-none (c ∷ s) h = ground (arith, match_step-none s)

is_number-no_slash : (s : Text) → is_number s ≡ true → has_char b'/' s ≡ false
is_number-no_slash [] h = refl
is_number-no_slash (c ∷ []) h = ground arith
is_number-no_slash (c ∷ d ∷ s) h = ground (arith, is_number-no_slash (d ∷ s))

match_range-no_slash :
    (s : Text) {m : Text × Text} → match_range s ≡ some m → has_char b'/' s ≡ false
unfolding match_range
match_range-no_slash [] e = absurd (cc)
match_range-no_slash (c ∷ []) e = ground arith
match_range-no_slash (c ∷ d ∷ s) {m} e = elim (Option-cases (match_range (d ∷ s))) [
  | inl no_match ↦ ground (arith, is_number-no_slash s)
  | inr (m', matched) ↦
      ground (arith, is_number-no_slash s, match_range-no_slash (d ∷ s) {m = m'} matched)
]

-- The two expressions match no text in common, so the order of the tests does not matter.
step_excludes_range : (s : Text) {m : Text × Text} → match_step s ≡ some m → match_range s ≡ none
step_excludes_range s {m} e = elim (Option-cases (match_range s)) [
  | inl none_found ↦ none_found
  | inr (m', matched) ↦ absurd (cc (e, match_step-none s (match_range-no_slash s {m = m'} matched)))
]

||_false : (b : Bool) → (b || false) ≡ b
||_false b = ground arith

eqb_ℤ_comm : (a b : ℤ) → eqb_ℤ a b ≡ eqb_ℤ b a
eqb_ℤ_comm a b = ground arith

module _ (fuel lowest highest u : ℕ) (above : lowest ≤ u) (below : u ≤ highest) where
  add_range-has_key :
      (a b : Option ℕ) (step : ℕ) (keys : List ℤ) {r : List ℤ}
      → add_range fuel a b step keys ≡ some r
      → has_key (pos u) r
        ≡ ((at_least u a && at_most u b && divides_from step u a) || has_key (pos u) keys)
  add_range-has_key none b step keys e = ground arith
  add_range-has_key (some a) none step keys e = ground arith
  add_range-has_key (some a) (some b) step keys {r} e =
      ground (arith, add_steps-has_key fuel a b step u keys {r = r} e)

  add_stepped-has_key :
      (base : Text) (step : ℕ) (keys : List ℤ) {r : List ℤ}
      → add_stepped fuel lowest highest base step keys ≡ some r
      → has_key (pos u) r ≡ (match_stepped u lowest base step || has_key (pos u) keys)
  unfolding add_stepped match_stepped
  add_stepped-has_key base step keys {r} e = ground (
    arith,
    add_steps-has_key fuel lowest highest step u keys {r = r},
    add_range-has_key (bound base 0) (bound base 1) step keys {r = r},
    add_range-has_key (parse_nat base) (some highest) step keys {r = r},
  )

  add_shape-has_key :
      (part : Text) (sm rm : Option (Text × Text)) (keys : List ℤ) {r : List ℤ}
      → ((m : Text × Text) → sm ≡ some m → rm ≡ none)
      → add_shape fuel lowest highest part sm rm keys ≡ some r
      → has_key (pos u) r ≡ (match_tail u lowest part rm sm || has_key (pos u) keys)
  add_shape-has_key part (some (base, step)) none keys {r} apart e =
      add_stepped-has_key base (number_of step) keys {r = r} e
  add_shape-has_key part (some m) (some n) keys apart e = absurd (cc (apart m refl))
  add_shape-has_key part none (some (a, b)) keys {r} apart e =
      ground (arith, add_steps-has_key fuel (number_of a) (number_of b) 1 u keys {r = r} e)
  add_shape-has_key part none none keys {r} apart e = elim (Option-cases (parse_int part)) [
    | inl nan ↦ ground arith
    | inr (n, parsed) ↦ ground (arith, has_key-add_key (pos u) n keys, eqb_ℤ_comm n (pos u))
  ]

  add_part-has_key :
      (part : Text) (keys : List ℤ) {r : List ℤ}
      → is_star part ≡ false
      → add_part fuel lowest highest part keys ≡ some r
      → has_key (pos u) r ≡ (match_single u lowest part || has_key (pos u) keys)
  unfolding add_part match_single
  add_part-has_key part keys {r} plain e = rw plain (
      add_shape-has_key part (match_step part) (match_range part) keys {r = r}
        (λ m s. step_excludes_range part {m = m} s) e)

  add_parts-has_key :
      (parts : List Text) (keys : List ℤ) {r : List ℤ}
      → All (λ p. is_star (trim p) ≡ false) parts
      → add_parts fuel lowest highest parts keys ≡ some r
      → has_key (pos u) r
        ≡ (any (λ s. match_single u lowest (trim s)) parts || has_key (pos u) keys)
  unfolding add_parts
  add_parts-has_key [] keys plain e = ground arith
  add_parts-has_key (p ∷ ps) keys {r} (plain, others) e =
      elim (Option-cases (add_part fuel lowest highest (trim p) keys)) [
        | inl stuck ↦ absurd (cc (rw (stuck, add_parts) at e))
        | inr (keys', added) ↦ ground (
          arith,
          add_part-has_key (trim p) keys {r = keys'} plain added,
          add_parts-has_key ps keys' {r = r} others (rw (added, add_parts) at e),
        )
      ]

-- A spec as the forms give it, trimmed, in which "*" is no item of a longer list.
pub record IsPlain (spec : Text) : Type 0 where
  pub trimmed : trim spec ≡ spec
  pub stars_alone : All (λ p. is_star (trim p) ≡ is_star spec) (split b',' spec)

any-single :
    (u lowest : ℕ) (spec : Text)
    → trim spec ≡ spec
    → is_star spec ≡ false
    → any (λ s. match_single u lowest (trim s)) (split b',' spec) ≡ match_field u spec lowest
unfolding match_field
any-single u lowest spec t plain = elim (Bool-cases (has_char b',' spec)) [
  | inl list ↦ rw (plain, list)
  | inr one ↦ rw (split-single b',' spec one, t, plain, one) (ground arith)
]

-- A field that is parsed within the fuel accepts, by the binary search of `fieldMatches`, exactly
-- the numbers of its range that `matchField` accepts, if the spec is trimmed and "*" is no item
-- of a longer list.
pub field_matches-match_field :
    (fuel : ℕ) (spec : Text) (lowest highest u : ℕ) {f : Field}
    → IsPlain spec
    → parse_field_values fuel spec lowest highest ≡ some f
    → lowest ≤ u
    → u ≤ highest
    → field_matches f u ≡ match_field u spec lowest
unfolding parse_field_values
field_matches-match_field fuel spec lowest highest u {f} plain e a b =
    elim (Bool-cases (is_star spec)) [
      | inl star ↦
          let w : wildcard ≡ f = some_eq (rw (star, if◌then◌else◌) at e) in
          rw (← w) (unfold field_matches match_field in rw star refl)
      | inr other ↦ elim (Option-cases (add_parts fuel lowest highest (split b',' spec) [])) [
        | inl stuck ↦ absurd (cc (rw (other, stuck) at e))
        | inr (keys, added) ↦
            let w : values (sort_values keys) ≡ f = some_eq (rw (other, added) at e) in
            rw (← w) (
              field_matches-values (sort_values keys) u (
                sort_values-IsSorted keys
                  (add_parts-IsKeySet fuel lowest highest (split b',' spec) [] {r = keys} added tt))
              ∙ has_key-sort_values (pos u) keys
              ∙ add_parts-has_key fuel lowest highest u a b (split b',' spec) [] {r = keys}
                  (rw other at plain.stars_alone) added
              ∙ ||_false _
              ∙ any-single u lowest spec plain.trimmed other)
      ]
    ]
