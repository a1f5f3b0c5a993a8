-- ===== src/Cron/Field/Ends.antt =====
-- cron.js, `parseFieldValues`: when its loops end.
use cockpit_cronplus.Common.{
  ℕ, suc, ◌<◌, ◌≡◌, ◌≢◌, refl, Option, none, some, List, [], ◌∷◌, ℤ, inl, inr, arith, Text, trim,
  Bool-cases, Option-cases, All, split, has_char,
}
use cockpit_cronplus.Cron.ParseInt.{parse_int, parse_nat, number_of, match_range, match_step}
use cockpit_cronplus.Cron.Field.{
  is_star, bound, add_key, add_range, add_stepped, add_shape, add_part, add_parts,
  parse_field_values,
}
use cockpit_cronplus.Cron.Field.Expand.{add_steps_total}

-- The last value of a loop, 0 where it is NaN and the loop does not start.
abbrev pub upper : Option ℕ → ℕ
upper none = 0
upper (some b) = b

-- What the loop of a part needs: a step that is not 0, and less values than the fuel.
abbrev pub HasEnd : ℕ → ℕ → Option (Text × Text) → Option (Text × Text) → Type 0
HasEnd fuel highest (some (base, step)) rm =
    (0 < number_of step) × ((highest < fuel) × (upper (bound base 1) < fuel))
HasEnd fuel highest none (some (a, b)) = number_of b < fuel
HasEnd fuel highest none none = Unit

module _ (fuel : ℕ) where
  add_range_total :
      (a b : Option ℕ) (step : ℕ) (keys : List ℤ)
      → 0 < step
      → upper b < fuel
      → (r : List ℤ) × (add_range (suc fuel) a b step keys ≡ some r)
  add_range_total none b step keys h l = (keys, refl)
  add_range_total (some a) none step keys h l = (keys, refl)
  add_range_total (some a) (some b) step keys h l =
      add_steps_total fuel a b step keys h (omega arith)

  module _ (lowest highest : ℕ) where
    add_stepped_total :
        (base : Text) (step : ℕ) (keys : List ℤ)
        → 0 < step
        → highest < fuel
        → upper (bound base 1) < fuel
        → (r : List ℤ) × (add_stepped (suc fuel) lowest highest base step keys ≡ some r)
    unfolding add_stepped
    add_stepped_total base step keys h l m = elim (Bool-cases (is_star base)) [
      | inl star ↦ rw star (add_steps_total fuel lowest highest step keys h (omega arith))
      | inr other ↦ elim (Bool-cases (has_char b'-' base)) [
        | inl range ↦
            rw (other, range) (add_range_total (bound base 0) (bound base 1) step keys h m)
        | inr start ↦
            rw (other, start) (add_range_total (parse_nat base) (some highest) step keys h l)
      ]
    ]

    add_shape_total :
        (part : Text) (sm rm : Option (Text × Text)) (keys : List ℤ)
        → HasEnd fuel highest sm rm
        → (r : List ℤ) × (add_shape (suc fuel) lowest highest part sm rm keys ≡ some r)
    add_shape_total part (some (base, step)) rm keys (h, (l, m)) =
        add_stepped_total base (number_of step) keys h l m
    add_shape_total part none (some (a, b)) keys h =
        add_steps_total fuel (number_of a) (number_of b) 1 keys (omega arith) (omega arith)
    add_shape_total part none none keys h = elim (Option-cases (parse_int part)) [
      | inl nan ↦ (keys, rw (nan, add_shape) refl)
      | inr (n, parsed) ↦ (add_key n keys, rw (parsed, add_shape) refl)
    ]

    add_parts_total :
        (parts : List Text) (keys : List ℤ)
        → All (λ p. HasEnd fuel highest (match_step (trim p)) (match_range (trim p))) parts
        → (r : List ℤ) × (add_parts (suc fuel) lowest highest parts keys ≡ some r)
    unfolding add_parts add_part
    add_parts_total [] keys h = (keys, refl)
    add_parts_total (p ∷ ps) keys (h, hs) =
        let (next, added) =
          add_shape_total (trim p) (match_step (trim p)) (match_range (trim p)) keys h in
        rw (added, add_parts) (add_parts_total ps next hs)

-- The loops of `parseFieldValues` end, for any text whose parts have no step of 0: the fuel has to
-- pass the end of the field's range and of each range that a part names.
pub parse_field_values_ends :
    (fuel lowest highest : ℕ) (spec : Text)
    → All (λ p. HasEnd fuel highest (match_step (trim p)) (match_range (trim p))) (split b',' spec)
    → parse_field_values (suc fuel) spec lowest highest ≢ none
unfolding parse_field_values
parse_field_values_ends fuel lowest highest spec h stuck = elim (Bool-cases (is_star spec)) [
  | inl star ↦ cc (rw star at stuck)
  | inr other ↦
      let (r, e) = add_parts_total fuel lowest highest (split b',' spec) [] h in
      cc (rw (other, e) at stuck)
]
