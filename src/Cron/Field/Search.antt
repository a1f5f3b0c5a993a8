-- ===== src/Cron/Field/Search.antt =====
-- `fieldMatches`: the binary search finds exactly the values of a sorted array.
use cockpit_cronplus.Common.{
  ℕ, zero, suc, ◌+◌, ◌-◌, ◌/◌, ◌≤◌, ◌<◌, ◌≡◌, refl, sym, true, ◌∙◌, some, List, [], ◌∷◌, ℤ, pos,
  ◌<ℤ◌, eqb_ℤ, eqb_ℤ→eq, eqb_ℤ_refl, length, get_elem?, All, Bool-cases, inl, inr, arith, ap, subst,
  ||_parts,
}
use cockpit_cronplus.Cron.Field.{values, has_key, binary_search, field_matches}

-- Strictly ascending.
abbrev pub IsSorted : List ℤ → Type 0
IsSorted [] = Unit
IsSorted (v ∷ vs) = All (λ w. v <ℤ w) vs × IsSorted vs

pub All-get {ℓ} :
    {A : Type 0} (P : A → Type ℓ) (xs : List A) (i : ℕ) {a : A}
    → All P xs
    → get_elem? xs i ≡ some a
    → P a
All-get P [] i h e = absurd (cc)
All-get P (x ∷ xs) zero (p, _) e = subst P (cc) p
All-get P (x ∷ xs) (suc i) (_, h) e = All-get P xs i h e

IsSorted-get_lt :
    (xs : List ℤ) (i j : ℕ) {a b : ℤ}
    → IsSorted xs
    → i < j
    → get_elem? xs i ≡ some a
    → get_elem? xs j ≡ some b
    → a <ℤ b
IsSorted-get_lt [] i j s h p q = absurd (cc)
IsSorted-get_lt (x ∷ xs) i zero s h p q = absurd (omega arith)
IsSorted-get_lt (x ∷ xs) zero (suc j) {a} {b} (low, s) h p q =
    let below : x <ℤ b = All-get (λ w. x <ℤ w) xs j low q in
    let e : x ≡ a = cc in subst (λ c. c <ℤ b) e below
IsSorted-get_lt (x ∷ xs) (suc i) (suc j) (low, s) h p q = IsSorted-get_lt xs i j s (omega arith) p q

get_elem?-some : (xs : List ℤ) (i : ℕ) → i < length xs → (a : ℤ) × (get_elem? xs i ≡ some a)
get_elem?-some [] i h = absurd (omega arith)
get_elem?-some (x ∷ xs) zero h = (x, refl)
get_elem?-some (x ∷ xs) (suc i) h = get_elem?-some xs i (omega arith)

has_key-get : (xs : List ℤ) (i : ℕ) {v : ℤ} → get_elem? xs i ≡ some v → has_key v xs ≡ true
has_key-get [] i e = cc
has_key-get (x ∷ xs) zero {v} e = let p : x ≡ v = cc in rw (p, eqb_ℤ_refl v)
has_key-get (x ∷ xs) (suc i) {v} e = ground (arith, has_key-get xs i {v = v} e)

get-has_key :
    (xs : List ℤ) (v : ℤ)
    → has_key v xs ≡ true
    → (i : ℕ) × (i < length xs) × (get_elem? xs i ≡ some v)
get-has_key [] v h = absurd (cc)
get-has_key (x ∷ xs) v h = elim (||_parts (eqb_ℤ x v) (has_key v xs) h) [
  | inl e ↦ (0, omega arith, ap some (eqb_ℤ→eq x v e))
  | inr e ↦ let (i, lt, g) = get-has_key xs v e in (suc i, omega arith, g)
]

module _ (xs : List ℤ) (v : ℤ) where
  binary_search_sound :
      (fuel lo hi : ℕ) → binary_search fuel xs v lo hi ≡ true → has_key v xs ≡ true
  unfolding binary_search
  binary_search_sound zero lo hi h = cc
  binary_search_sound (suc fuel) lo hi h =
      let m = (lo + (hi - 1)) / 2 in
      ground (
        arith,
        binary_search_sound fuel (m + 1) hi,
        binary_search_sound fuel lo m,
        λ (w : ℤ) (e : eqb_ℤ w v ≡ true). eqb_ℤ→eq w v e,
        has_key-get xs m {v = v},
      )

  binary_search_complete :
      (fuel lo hi i : ℕ)
      → IsSorted xs
      → hi ≤ length xs
      → hi ≤ lo + fuel
      → lo ≤ i
      → i < hi
      → get_elem? xs i ≡ some v
      → binary_search fuel xs v lo hi ≡ true
  unfolding binary_search
  binary_search_complete zero lo hi i s l f a b e = absurd (omega arith)
  binary_search_complete (suc fuel) lo hi i s l f a b e =
      let m = (lo + (hi - 1)) / 2 in
      let (w, g) = get_elem?-some xs m (omega arith) in
      ground (
        arith,
        IsSorted-get_lt xs i m {a = v} {b = w} s,
        IsSorted-get_lt xs m i {a = w} {b = v} s,
        binary_search_complete fuel (m + 1) hi i s l,
        binary_search_complete fuel lo m i s,
      )

-- On a sorted array the binary search of `fieldMatches` finds a number exactly if it is an element.
pub field_matches-values :
    (xs : List ℤ) (n : ℕ) → IsSorted xs → field_matches (values xs) n ≡ has_key (pos n) xs
unfolding field_matches
field_matches-values xs n s = elim (Bool-cases (has_key (pos n) xs)) [
  | inl there ↦
      let (i, lt, g) = get-has_key xs (pos n) there in
      binary_search_complete xs (pos n) (length xs) 0 (length xs) i s (omega arith) (omega arith)
        (omega arith) lt g
      ∙ sym there
  | inr missing ↦ elim (Bool-cases (binary_search (length xs) xs (pos n) 0 (length xs))) [
    | inl found ↦
        absurd (cc (missing, binary_search_sound xs (pos n) (length xs) 0 (length xs) found))
    | inr not_found ↦ not_found ∙ sym missing
  ]
]
