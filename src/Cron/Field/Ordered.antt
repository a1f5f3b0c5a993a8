-- ===== src/Cron/Field/Ordered.antt =====
-- cron.js, `parseFieldValues`: the keys that the loops collect, and their order at the end.
use cockpit_cronplus.Common.{
  some_eq, ℕ, ◌≡◌, Option, none, some, List, [], ◌∷◌, if◌then◌else◌, ℤ, inl, inr, arith, Text, trim,
  Bool-cases, Option-cases, split, subst,
}
use cockpit_cronplus.Cron.ParseInt.{parse_int, parse_nat, number_of, match_range, match_step}
use cockpit_cronplus.Cron.Field.{
  is_star, bound, add_range, add_stepped, add_shape, add_part, add_parts, values,
  parse_field_values, sort_values,
}
use cockpit_cronplus.Cron.Field.Search.{IsSorted}
use cockpit_cronplus.Cron.Field.Sorted.{IsKeySet, add_key-IsKeySet, sort_values-IsSorted}
use cockpit_cronplus.Cron.Field.Expand.{add_steps-IsKeySet}

add_range-IsKeySet :
    (fuel : ℕ) (a b : Option ℕ) (step : ℕ) (keys : List ℤ) {r : List ℤ}
    → add_range fuel a b step keys ≡ some r
    → IsKeySet keys
    → IsKeySet r
add_range-IsKeySet fuel none b step keys e h = subst IsKeySet (some_eq e) h
add_range-IsKeySet fuel (some a) none step keys e h = subst IsKeySet (some_eq e) h
add_range-IsKeySet fuel (some a) (some b) step keys {r} e h =
    add_steps-IsKeySet fuel a b step keys {r = r} e h

add_stepped-IsKeySet :
    (fuel lowest highest : ℕ) (base : Text) (step : ℕ) (keys : List ℤ) {r : List ℤ}
    → add_stepped fuel lowest highest base step keys ≡ some r
    → IsKeySet keys
    → IsKeySet r
unfolding add_stepped
add_stepped-IsKeySet fuel lowest highest base step keys {r} e h = ground (
  arith,
  add_steps-IsKeySet fuel lowest highest step keys {r = r},
  add_range-IsKeySet fuel (bound base 0) (bound base 1) step keys {r = r},
  add_range-IsKeySet fuel (parse_nat base) (some highest) step keys {r = r},
)

add_shape-IsKeySet :
    (fuel lowest highest : ℕ) (part : Text) (sm rm : Option (Text × Text)) (keys : List ℤ)
    {r : List ℤ}
    → add_shape fuel lowest highest part sm rm keys ≡ some r
    → IsKeySet keys
    → IsKeySet r
add_shape-IsKeySet fuel lowest highest part (some (base, step)) rm keys {r} e h =
    add_stepped-IsKeySet fuel lowest highest base (number_of step) keys {r = r} e h
add_shape-IsKeySet fuel lowest highest part none (some (a, b)) keys {r} e h =
    add_steps-IsKeySet fuel (number_of a) (number_of b) 1 keys {r = r} e h
add_shape-IsKeySet fuel lowest highest part none none keys {r} e h =
    elim (Option-cases (parse_int part)) [
      | inl nan ↦ subst IsKeySet (some_eq (rw (nan, add_shape) at e)) h
      | inr (n, parsed) ↦
          subst IsKeySet (some_eq (rw (parsed, add_shape) at e)) (add_key-IsKeySet n keys h)
    ]

pub add_parts-IsKeySet :
    (fuel lowest highest : ℕ) (parts : List Text) (keys : List ℤ) {r : List ℤ}
    → add_parts fuel lowest highest parts keys ≡ some r
    → IsKeySet keys
    → IsKeySet r
unfolding add_parts add_part
add_parts-IsKeySet fuel lowest highest [] keys e h = subst IsKeySet (some_eq e) h
add_parts-IsKeySet fuel lowest highest (p ∷ ps) keys {r} e h =
    elim (Option-cases (add_part fuel lowest highest (trim p) keys)) [
      | inl stuck ↦ absurd (cc (rw (stuck, add_parts) at e))
      | inr (keys', added) ↦
          add_parts-IsKeySet fuel lowest highest ps keys' {r = r} (rw (added, add_parts) at e) (
            add_shape-IsKeySet fuel lowest highest (trim p) (match_step (trim p))
              (match_range (trim p)) keys {r = keys'} added h)
    ]

-- The values that `parseFieldValues` gives are in ascending order.
pub parse_field_values-IsSorted :
    (fuel : ℕ) (spec : Text) (lowest highest : ℕ) {xs : List ℤ}
    → parse_field_values fuel spec lowest highest ≡ some (values xs)
    → IsSorted xs
unfolding parse_field_values
parse_field_values-IsSorted fuel spec lowest highest {xs} e = elim (Bool-cases (is_star spec)) [
  | inl star ↦ absurd (cc (rw (star, if◌then◌else◌) at e))
  | inr other ↦ elim (Option-cases (add_parts fuel lowest highest (split b',' spec) [])) [
    | inl stuck ↦ absurd (cc (rw (other, stuck) at e))
    | inr (keys, added) ↦
        let w : values (sort_values keys) ≡ values xs = some_eq (rw (other, added) at e) in
        let same : sort_values keys ≡ xs = ground arith in
        subst IsSorted same (
          sort_values-IsSorted keys
            (add_parts-IsKeySet fuel lowest highest (split b',' spec) [] {r = keys} added tt))
  ]
]
