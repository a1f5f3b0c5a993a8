-- ===== src/Utils/Escape.antt =====
-- What `escHtml` protects against.
use cockpit_cronplus.Common.{
  ℕ, ◌≡◌, refl, false, Option, none, some, [], ◌∷◌, ◌++◌, ◌==◌, Text, codes, has_char, append_assoc,
  arith, Bool-cases, inl, inr,
}
use cockpit_cronplus.Common.Match.{has_char-append}
use cockpit_cronplus.Utils.{replace_all, esc_html}

-- A replacement that does not hold the character removes it.
replace_all-removes :
    (c : ℕ) (r s : Text) → has_char c r ≡ false → has_char c (replace_all c r s) ≡ false
unfolding replace_all
replace_all-removes c r [] h = refl
replace_all-removes c r (d ∷ s) h =
    ground (arith, replace_all-removes c r s h, has_char-append c r (replace_all c r s))

-- And brings in no other character that it does not hold.
replace_all-keeps :
    (c k : ℕ) (r s : Text)
    → has_char k r ≡ false
    → has_char k s ≡ false
    → has_char k (replace_all c r s) ≡ false
unfolding replace_all
replace_all-keeps c k r [] h g = refl
replace_all-keeps c k r (d ∷ s) h g =
    ground (arith, replace_all-keeps c k r s h, has_char-append k r (replace_all c r s))

replace_all-append :
    (c : ℕ) (r s t : Text) → replace_all c r (s ++ t) ≡ replace_all c r s ++ replace_all c r t
unfolding replace_all
replace_all-append c r [] t = refl
replace_all-append c r (d ∷ s) t = elim (Bool-cases (d == c)) [
  | inl same ↦
      rw (same, replace_all-append c r s t, append_assoc r (replace_all c r s) (replace_all c r t))
        refl
  | inr other ↦ rw (other, replace_all-append c r s t) refl
]

-- Texts are escaped part by part.
pub esc_html-append :
    (s t : Text) → esc_html (some (s ++ t)) ≡ esc_html (some s) ++ esc_html (some t)
unfolding esc_html
esc_html-append s t =
    rw
      (
        replace_all-append b'&' (codes "&amp;"),
        replace_all-append b'<' (codes "&lt;"),
        replace_all-append b'>' (codes "&gt;"),
        replace_all-append b'"' (codes "&quot;"),
        replace_all-append b'\'' (codes "&#39;"),
      )
      refl

-- Escaped text holds no angle bracket and no quote of either kind, whatever the input.
pub esc_html-no_markup :
    (s : Option Text)
    → (has_char b'<' (esc_html s) ≡ false)
      × (has_char b'>' (esc_html s) ≡ false)
      × (has_char b'"' (esc_html s) ≡ false)
      × (has_char b'\'' (esc_html s) ≡ false)
unfolding esc_html
esc_html-no_markup none = (refl, refl, refl, refl)
esc_html-no_markup (some s) =
    let amp = replace_all b'&' (codes "&amp;") s in
    let lt = replace_all b'<' (codes "&lt;") amp in
    let gt = replace_all b'>' (codes "&gt;") lt in
    let quot = replace_all b'"' (codes "&quot;") gt in
    let no_lt = replace_all-removes b'<' (codes "&lt;") amp refl in
    let no_gt = replace_all-removes b'>' (codes "&gt;") lt refl in
    let no_quot = replace_all-removes b'"' (codes "&quot;") gt refl in
    (
      replace_all-keeps b'\'' b'<' (codes "&#39;") quot refl (
          replace_all-keeps b'"' b'<' (codes "&quot;") gt refl
            (replace_all-keeps b'>' b'<' (codes "&gt;") lt refl no_lt)),
      replace_all-keeps b'\'' b'>' (codes "&#39;") quot refl
          (replace_all-keeps b'"' b'>' (codes "&quot;") gt refl no_gt),
      replace_all-keeps b'\'' b'"' (codes "&#39;") quot refl no_quot,
      replace_all-removes b'\'' (codes "&#39;") quot refl,
    )
