-- ===== src/Cron/Field.antt =====
-- cron.js, the fields of a cron expression: `matchField`, `parseFieldValues`, `fieldNextAfter`,
-- `fieldMin`, `fieldMatches`. A date's field is a number, and never below the `min` of its range.
pub mod Search
pub mod Sorted
pub mod Expand
pub mod Ordered
pub mod Ends
pub mod Agree
pub mod Next
use cockpit_cronplus.Common.{
  ℕ, zero, suc, ◌+◌, ◌-◌, ◌/◌, ◌%◌, Bool, true, false, not, ◌&&◌, Option, none, some, List, [], ◌∷◌,
  leb, ltb, ◌==◌, if◌then◌else◌, ℤ, pos, ltb_ℤ, leb_ℤ, eqb_ℤ, Text, codes, text_eq, has_char, trim,
  split, any, length, get_elem?,
}
use cockpit_cronplus.Cron.ParseInt.{parse_int, parse_nat, number_of, match_range, match_step}

-- `n % step === 0`; a remainder by 0 is NaN.
abbrev pub divides : ℕ → ℕ → Bool
divides step n = not (step == 0) && n % step == 0

-- `value >= a`, and `value <= b`; a comparison with NaN fails.
abbrev pub at_least : ℕ → Option ℕ → Bool
at_least value none = false
at_least value (some a) = leb a value

abbrev pub at_most : ℕ → Option ℕ → Bool
at_most value none = false
at_most value (some b) = leb value b

abbrev pub divides_from : ℕ → ℕ → Option ℕ → Bool
divides_from step value none = false
divides_from step value (some a) = divides step (value - a)

abbrev pub is_star : Text → Bool
is_star spec = text_eq spec (codes "*")

-- `parseInt(bp[i])` of the parts of a base that holds a '-'.
abbrev pub bound : Text → ℕ → Option ℕ
bound base i = elim (get_elem? (split b'-' base) i) [ none ↦ none | some s ↦ parse_nat s ]

-- The branch of `matchField` for `base/step`.
unfoldable pub match_stepped : ℕ → ℕ → Text → ℕ → Bool
match_stepped value lowest base step =
    if is_star base
    then divides step (value - lowest)
    else if has_char b'-' base
    then at_least value (bound base 0)
      && at_most value (bound base 1)
      && divides_from step value (bound base 0)
    else at_least value (parse_nat base) && divides_from step value (parse_nat base)

abbrev pub match_tail : ℕ → ℕ → Text → Option (Text × Text) → Option (Text × Text) → Bool
match_tail value lowest spec (some (a, b)) sm = leb (number_of a) value && leb value (number_of b)
match_tail value lowest spec none (some (base, step)) =
    match_stepped value lowest base (number_of step)
match_tail value lowest spec none none = elim (parse_int spec) [
  | none ↦ false
  | some n ↦ eqb_ℤ (pos value) n
]

-- `matchField` of a spec with no comma.
unfoldable pub match_single : ℕ → ℕ → Text → Bool
match_single value lowest spec =
    if is_star spec then true else match_tail value lowest spec (match_range spec) (match_step spec)

-- `matchField(value, spec, min, max)`, which does not read `max`.
unfoldable pub match_field : ℕ → Text → ℕ → Bool
match_field value spec lowest =
    if is_star spec
    then true
    else if has_char b',' spec
    then any (λ s. match_single value lowest (trim s)) (split b',' spec)
    else match_single value lowest spec

-- What `parseFieldValues` returns: `null`, or a sorted array.
pub data Field : Type 0 where
  wildcard : Field
  values : List ℤ → Field

abbrev pub is_wildcard : Field → Bool
is_wildcard wildcard = true
is_wildcard (values xs) = false

abbrev pub has_key : ℤ → List ℤ → Bool
has_key v = any (λ k. eqb_ℤ k v)

-- `valSet[v] = true`: an object has each key once.
abbrev pub add_key : ℤ → List ℤ → List ℤ
add_key v keys = if has_key v keys then keys else v ∷ keys

-- `for (v = v; v <= hi; v += step) valSet[v] = true`. `none` is a loop that is still running when
-- the fuel is used up: with a step of 0 it never ends.
unfoldable pub add_steps : ℕ → ℕ → ℕ → ℕ → List ℤ → Option (List ℤ)
add_steps zero v hi step keys = none
add_steps (suc fuel) v hi step keys =
    let more = add_steps fuel (v + step) hi step (add_key (pos v) keys) in
    if leb v hi then more else some keys

-- The loop does not start where a bound is NaN.
abbrev pub add_range : ℕ → Option ℕ → Option ℕ → ℕ → List ℤ → Option (List ℤ)
add_range fuel (some a) (some b) step keys = add_steps fuel a b step keys
add_range fuel (some a) none step keys = some keys
add_range fuel none b step keys = some keys

unfoldable pub add_stepped : ℕ → ℕ → ℕ → Text → ℕ → List ℤ → Option (List ℤ)
add_stepped fuel lowest highest base step keys =
    if is_star base
    then add_steps fuel lowest highest step keys
    else if has_char b'-' base
    then add_range fuel (bound base 0) (bound base 1) step keys
    else add_range fuel (parse_nat base) (some highest) step keys

abbrev pub add_shape :
    ℕ → ℕ → ℕ → Text → Option (Text × Text) → Option (Text × Text) → List ℤ → Option (List ℤ)
add_shape fuel lowest highest part (some (base, step)) rm keys =
    add_stepped fuel lowest highest base (number_of step) keys
add_shape fuel lowest highest part none (some (a, b)) keys =
    add_steps fuel (number_of a) (number_of b) 1 keys
add_shape fuel lowest highest part none none keys = elim (parse_int part) [
  | none ↦ some keys
  | some n ↦ some (add_key n keys)
]

-- One round of `parts.forEach`, on the trimmed part.
unfoldable pub add_part : ℕ → ℕ → ℕ → Text → List ℤ → Option (List ℤ)
add_part fuel lowest highest part keys =
    add_shape fuel lowest highest part (match_step part) (match_range part) keys

unfoldable pub add_parts : ℕ → ℕ → ℕ → List Text → List ℤ → Option (List ℤ)
add_parts fuel lowest highest [] keys = some keys
add_parts fuel lowest highest (part ∷ parts) keys =
    elim (add_part fuel lowest highest (trim part) keys) [
      | none ↦ none
      | some keys' ↦ add_parts fuel lowest highest parts keys'
    ]

-- `.sort(function (a, b) { return a - b; })`
abbrev pub insert_sorted : ℤ → List ℤ → List ℤ
insert_sorted v [] = v ∷ []
insert_sorted v (w ∷ ws) =
    let rest = insert_sorted v ws in if leb_ℤ v w then v ∷ w ∷ ws else w ∷ rest

abbrev pub sort_values : List ℤ → List ℤ
sort_values [] = []
sort_values (v ∷ vs) = insert_sorted v (sort_values vs)

abbrev pub sorted_field : Option (List ℤ) → Option Field
sorted_field none = none
sorted_field (some keys) = some (values (sort_values keys))

-- `parseFieldValues(spec, min, max)`; `none` if a loop did not end within the fuel.
unfoldable pub parse_field_values : ℕ → Text → ℕ → ℕ → Option Field
parse_field_values fuel spec lowest highest =
    if is_star spec
    then some wildcard
    else sorted_field (add_parts fuel lowest highest (split b',' spec) [])

abbrev pub first_above : List ℤ → ℕ → Option ℤ
first_above [] current = none
first_above (v ∷ vs) current =
    let rest = first_above vs current in if ltb_ℤ (pos current) v then some v else rest

-- `fieldNextAfter`: `values[0]` of an empty array is undefined, `none` here.
unfoldable pub field_next_after : Field → ℕ → Option ℤ
field_next_after wildcard current = some (pos (current + 1))
field_next_after (values xs) current = elim (first_above xs current) [
  | some v ↦ some v
  | none ↦ get_elem? xs 0
]

unfoldable pub field_min : Field → ℕ → ℤ
field_min wildcard fallback = pos fallback
field_min (values []) fallback = pos fallback
field_min (values (v ∷ vs)) fallback = v

-- The loop of `fieldMatches` on [lo, hi): the source's `hi` is one less, and starts at -1 for an
-- empty array. A round makes the interval shorter, so its length is enough fuel.
unfoldable pub binary_search : ℕ → List ℤ → ℤ → ℕ → ℕ → Bool
binary_search zero xs v lo hi = false
binary_search (suc fuel) xs v lo hi =
    let mid = (lo + (hi - 1)) / 2 in
    let right = binary_search fuel xs v (mid + 1) hi in
    let left = binary_search fuel xs v lo mid in
    let round : Bool = elim (get_elem? xs mid) [
      | none ↦ left
      | some w ↦ if eqb_ℤ w v then true else if ltb_ℤ w v then right else left
    ] in
    if ltb lo hi then round else false

unfoldable pub field_matches : Field → ℕ → Bool
field_matches wildcard val = true
field_matches (values xs) val = binary_search (length xs) xs (pos val) 0 (length xs)
