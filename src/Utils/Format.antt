-- ===== src/Utils/Format.antt =====
-- Durations and dates as text.
use cockpit_cronplus.Common.{
  ltb→lt, lt→ltb, ℕ, ◌+◌, ◌/◌, ◌%◌, ◌<◌, ◌≡◌, refl, Bool, true, false, some, [], ◌∷◌, ◌++◌,
  if◌then◌else◌, ltb, Text, codes, show, inl, inr, Bool-cases, ◌↔◌, is_empty,
}
use cockpit_cronplus.Utils.{pad2, max_duration_ms, format_duration}

is_empty-append : (s : Text) (c : ℕ) (t : Text) → is_empty (s ++ c ∷ t) ≡ false
is_empty-append [] c t = refl
is_empty-append (d ∷ s) c t = refl

if_not_empty :
    (b : Bool) (s t : Text)
    → is_empty s ≡ false
    → is_empty t ≡ false
    → is_empty (if b then s else t) ≡ false
if_not_empty true s t p q = p
if_not_empty false s t p q = q

-- A duration is hidden exactly if it is longer than three years.
pub format_duration-empty_iff :
    (to_fixed : ℕ → Text) (n : ℕ)
    → (is_empty (format_duration to_fixed (some n)) ≡ true) ↔ (max_duration_ms < n)
unfolding format_duration
format_duration-empty_iff to_fixed n = elim (Bool-cases (ltb max_duration_ms n)) [
  | inl over ↦ (λ _. ltb→lt _ _ over, λ _. rw over refl)
  | inr fits ↦
      let shown : is_empty (format_duration to_fixed (some n)) ≡ false = rw fits (
        if_not_empty (ltb n 1000) _ _ (is_empty-append (show n) b'm' (codes "s")) (
          if_not_empty (ltb n 60000) _ _
            (is_empty-append (if ltb n 10000 then to_fixed n else show ((n + 500) / 1000)) b's' [])
            (if_not_empty (ltb 0 (n / 86400000)) _ _
              (is_empty-append (show (n / 86400000) ++ codes "d " ++ pad2 (n / 3600000 % 24)) b'h'
                [])
              (if_not_empty (ltb 0 (n / 3600000 % 24)) _ _
                (is_empty-append (show (n / 3600000 % 24) ++ codes "h " ++ pad2 (n / 60000 % 60))
                  b'm' [])
                (is_empty-append (show (n / 60000 % 60) ++ codes "m " ++ pad2 (n / 1000 % 60)) b's'
                  []))))) in
      (λ h. absurd (cc (h, shown)), λ h. absurd (cc (fits, lt→ltb _ _ h)))
]
