-- ===== src/Cron/Schedule/RoundTrip.antt =====
-- cron.js: `parseSchedule` reads back the expression that the page writes.
use cockpit_cronplus.Common.{
  ◌≡◌, refl, ◌∙◌, true, false, [], ◌∷◌, ◌++◌, Text, codes, is_empty, is_space, any, append_assoc,
  append-nil, ||_neither,
}
use cockpit_cronplus.Cron.Next.{Spec}
use cockpit_cronplus.Cron.Schedule.{words_from, words, parse_schedule, print_spec}

-- A text that is one word.
abbrev pub IsWord : Text → Type 0
IsWord w = (is_empty w ≡ false) × (any is_space w ≡ false)

words_from-end : (cur w : Text) → any is_space w ≡ false → words_from cur false w ≡ (cur ++ w) ∷ []
unfolding words_from
words_from-end cur [] h = rw append-nil refl
words_from-end cur (c ∷ w) h =
    let (visible, rest) = ||_neither (is_space c) (any is_space w) h in
    rw (visible, words_from-end (cur ++ c ∷ []) w rest, append_assoc cur (c ∷ []) w) refl

words_from-word :
    (cur w s : Text)
    → any is_space w ≡ false
    → words_from cur false (w ++ b' ' ∷ s) ≡ (cur ++ w) ∷ words_from [] true s
unfolding words_from
words_from-word cur [] s h = rw append-nil refl
words_from-word cur (c ∷ w) s h =
    let (visible, rest) = ||_neither (is_space c) (any is_space w) h in
    rw (visible, words_from-word (cur ++ c ∷ []) w s rest, append_assoc cur (c ∷ []) w) refl

-- After white space the next word begins.
words_from-spaced :
    (w s : Text) → IsWord w → words_from [] true (w ++ s) ≡ words_from [] false (w ++ s)
unfolding words_from
words_from-spaced [] s (full, _) = absurd (cc full)
words_from-spaced (c ∷ w) s (_, h) =
    let (visible, _) = ||_neither (is_space c) (any is_space w) h in rw visible refl

words_from-next :
    (w s : Text) → IsWord w → words_from [] true (w ++ b' ' ∷ s) ≡ w ∷ words_from [] true s
words_from-next w s h = words_from-spaced w (b' ' ∷ s) h ∙ words_from-word [] w s h.1

words_from-last : (w : Text) → IsWord w → words_from [] true w ≡ w ∷ []
words_from-last w h =
    let spaced : words_from [] true (w ++ []) ≡ words_from [] false (w ++ []) =
      words_from-spaced w [] h in
    let plain : w ++ [] ≡ w = append-nil w in (rw plain at spaced) ∙ words_from-end [] w h.1

-- The fields of an expression are words.
pub record IsWords (s : Spec) : Type 0 where
  pub sec : IsWord s.sec
  pub min : IsWord s.min
  pub hour : IsWord s.hour
  pub day : IsWord s.day
  pub month : IsWord s.month
  pub dow : IsWord s.dow

spaced_lem : (p q : Text) → (p ++ codes " ") ++ q ≡ p ++ b' ' ∷ q
spaced_lem p q = append_assoc p (codes " ") q

pub print_spec_lem :
    (s : Spec)
    → print_spec s
      ≡ s.sec
        ++ b' ' ∷ (s.min ++ b' ' ∷ (s.hour ++ b' ' ∷ (s.day ++ b' ' ∷ (s.month ++ b' ' ∷ s.dow))))
unfolding print_spec
print_spec_lem s =
    let from_month = s.month ++ b' ' ∷ s.dow in
    let from_day = s.day ++ b' ' ∷ from_month in
    let from_hour = s.hour ++ b' ' ∷ from_day in
    rw
      (
        spaced_lem s.month s.dow,
        spaced_lem s.day from_month,
        spaced_lem s.hour from_day,
        spaced_lem s.min from_hour,
      )
      (spaced_lem s.sec (s.min ++ b' ' ∷ from_hour))

words-print_spec :
    (s : Spec)
    → IsWords s
    → words (print_spec s) ≡ s.sec ∷ s.min ∷ s.hour ∷ s.day ∷ s.month ∷ s.dow ∷ []
unfolding words
words-print_spec s h =
    let rest = s.min ++ b' ' ∷ (s.hour ++ b' ' ∷ (s.day ++ b' ' ∷ (s.month ++ b' ' ∷ s.dow))) in
    let first : words (print_spec s) ≡ s.sec ∷ words_from [] true rest =
      rw (words, print_spec_lem s) (words_from-word [] s.sec rest h.sec.1) in
    rw
      (
        first,
        words_from-next s.min (s.hour ++ b' ' ∷ (s.day ++ b' ' ∷ (s.month ++ b' ' ∷ s.dow))) h.min,
        words_from-next s.hour (s.day ++ b' ' ∷ (s.month ++ b' ' ∷ s.dow)) h.hour,
        words_from-next s.day (s.month ++ b' ' ∷ s.dow) h.day,
        words_from-next s.month s.dow h.month,
        words_from-last s.dow h.dow,
      )
      refl

is_empty-append : (a b : Text) → is_empty a ≡ false → is_empty (a ++ b) ≡ false
is_empty-append [] b h = absurd (cc h)
is_empty-append (c ∷ a) b h = refl

-- An expression whose six fields are words, none empty and none with white space, is read back from
-- the text that is written for it.
pub parse_schedule-print_spec : (s : Spec) → IsWords s → parse_schedule (print_spec s) ≡ s
unfolding parse_schedule
parse_schedule-print_spec s h =
    let full : is_empty (print_spec s) ≡ false = rw (print_spec_lem s) (
      is_empty-append s.sec
        (b' ' ∷ (s.min ++ b' ' ∷ (s.hour ++ b' ' ∷ (s.day ++ b' ' ∷ (s.month ++ b' ' ∷ s.dow)))))
        h.sec.0) in
    rw (full, words-print_spec s h) refl
