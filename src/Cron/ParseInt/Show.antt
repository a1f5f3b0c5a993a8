-- ===== src/Cron/ParseInt/Show.antt =====
-- `parseInt(String(n))`.
use cockpit_cronplus.Common.{
  ℕ, zero, suc, ◌+◌, ◌/◌, ◌%◌, ◌<◌, ◌≡◌, refl, ◌∙◌, ap, arith, inl, inr, true, false, Option, none,
  some, [], ◌∷◌, ltb, if◌then◌else◌, ◌==◌, ℤ, pos, negsuc, Text, is_digit, is_empty, trim_start,
  show, digits_from, Bool-cases, &&_parts,
}
use cockpit_cronplus.Cron.ParseInt.{
  digit_of, shift_in, read_digits, has_hex_prefix, read_unsigned, read_signed, negate, unsigned,
  parse_int, all_digits,
}

digit_of-digit : (k : ℕ) → k < 10 → digit_of false (48 + k) ≡ some k
digit_of-digit k h = ground arith

read_digit :
    (k : ℕ) (s : Text) (acc : Option ℕ)
    → k < 10
    → read_digits false ((48 + k) ∷ s) acc ≡ read_digits false s (shift_in false acc k)
unfolding read_digits
read_digit k s acc h = rw (read_digits, digit_of-digit k h) refl

read_digits-digits_from :
    (f n : ℕ) (out : Text)
    → n < f
    → read_digits false (digits_from f n out) none ≡ read_digits false out (some n)
unfolding read_digits digits_from
read_digits-digits_from zero n out h = absurd (omega arith)
read_digits-digits_from (suc f) n out h = elim (Bool-cases (ltb n 10)) [
  | inl small ↦ rw small (read_digit n out none (ground arith))
  | inr big ↦ rw big (
      read_digits-digits_from f (n / 10) ((48 + n % 10) ∷ out) (ground arith)
      ∙ read_digit (n % 10) out (some (n / 10)) (omega arith)
      ∙ ap (λ m. read_digits false out (some m)) (omega arith))
]

digits_from-digits :
    (f n : ℕ) (out : Text) → n < f → all_digits out ≡ true → all_digits (digits_from f n out) ≡ true
unfolding digits_from
digits_from-digits zero n out h d = absurd (omega arith)
digits_from-digits (suc f) n out h d =
    ground (arith, digits_from-digits f (n / 10) ((48 + n % 10) ∷ out))

digits_from-nonempty : (f n : ℕ) (out : Text) → n < f → is_empty (digits_from f n out) ≡ false
unfolding digits_from
digits_from-nonempty zero n out h = absurd (omega arith)
digits_from-nonempty (suc f) n out h =
    ground (arith, digits_from-nonempty f (n / 10) ((48 + n % 10) ∷ out))

trim_start-digits : (s : Text) → all_digits s ≡ true → trim_start s ≡ s
trim_start-digits [] d = refl
trim_start-digits (c ∷ s) d = ground arith

has_hex_prefix-digits : (s : Text) → all_digits s ≡ true → has_hex_prefix s ≡ false
has_hex_prefix-digits [] d = refl
has_hex_prefix-digits (c ∷ []) d = ground arith
has_hex_prefix-digits (c ∷ e ∷ s) d = ground arith

no_sign :
    (c : ℕ) (a b e : Option ℤ)
    → is_digit c ≡ true
    → (if c == b'-' then a else if c == b'+' then b else e) ≡ e
no_sign c a b e d = ground arith

-- A text of digits is read as decimal.
parse_int-digits :
    (s : Text) → all_digits s ≡ true → parse_int s ≡ unsigned (read_digits false s none)
unfolding parse_int read_signed read_unsigned
parse_int-digits [] d = refl
parse_int-digits (c ∷ s) d =
    ap read_signed (trim_start-digits (c ∷ s) d)
    ∙ no_sign c _ _ _ (&&_parts (is_digit c) (all_digits s) d).0
    ∙ rw (has_hex_prefix-digits (c ∷ s) d) refl

pub parse_int-show : (n : ℕ) → parse_int (show n) ≡ some (pos n)
unfolding show read_digits
parse_int-show n =
    parse_int-digits (show n) (digits_from-digits (suc n) n [] (omega arith) refl)
    ∙ ap unsigned (read_digits-digits_from (suc n) n [] (omega arith))

pub parse_int-show_negative : (n : ℕ) → parse_int (b'-' ∷ show (suc n)) ≡ some (negsuc n)
unfolding show read_digits parse_int read_signed read_unsigned
parse_int-show_negative n =
    let digits = digits_from-digits (suc (suc n)) (suc n) [] (omega arith) refl in
    rw (has_hex_prefix-digits (show (suc n)) digits)
      (ap negate (read_digits-digits_from (suc (suc n)) (suc n) [] (omega arith)))

pub show-digit : (n : ℕ) → n < 10 → show n ≡ (48 + n) ∷ []
unfolding show digits_from
show-digit n h = ground arith

pub parse_int-zero_show : (n : ℕ) → n < 10 → parse_int (b'0' ∷ show n) ≡ some (pos n)
unfolding read_digits
parse_int-zero_show n h = rw (show-digit n h) (
    parse_int-digits (48 ∷ (48 + n) ∷ []) (ground arith)
    ∙ ap unsigned (read_digit n [] (some 0) h)
    ∙ ap (λ m. some (pos m)) (omega arith))
