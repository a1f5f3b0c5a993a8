-- ===== src/App/CronInputs/Fill.antt =====
-- app.js, the fields that are filled in below one that is typed.
use cockpit_cronplus.Common.{
  ℕ, ◌≡◌, refl, ap, ◌∙◌, Bool, true, false, ◌&&◌, ◌||◌, [], ◌∷◌, ◌⊎◌, List, if◌then◌else◌, Text,
  codes, trim, or_else, arith, Bool-cases, inl, inr, &&_parts, text_eq→eq, ◌==◌, ◌≤◌,
}
use cockpit_cronplus.Cron.Calendar.{second, minute, hour, month, date}
use cockpit_cronplus.Cron.Calendar.Bounds.{date_ranges}
use cockpit_cronplus.Cron.Field.{is_star, match_field, match_single}
use cockpit_cronplus.Cron.ParseInt.{match_range, match_step, parse_int}
use cockpit_cronplus.Cron.Next.{Spec, match_cron, day_fails}
use cockpit_cronplus.App.Anchor.{read_fields}
use cockpit_cronplus.App.CronInputs.{
  FieldId, cron_sec, cron_min, cron_hour, cron_day, cron_month, cron_dow, CronInputs, get, put,
  is_narrowed, fill_field, fill_fields, lower_fields, input_field,
}

abbrev rank : FieldId → ℕ
rank cron_sec = 0
rank cron_min = 1
rank cron_hour = 2
rank cron_day = 3
rank cron_month = 4
rank cron_dow = 5

abbrev same_id : FieldId → FieldId → Bool
same_id i j = rank i == rank j

get-put :
    (i j : FieldId) (v : Text) (s : Spec) → get j (put i v s) ≡ (if same_id i j then v else get j s)
get-put i j v s = ground arith

same_id-get : (i j : FieldId) (s : Spec) → same_id i j ≡ true → get i s ≡ get j s
same_id-get i j s h = ground arith

abbrev zeroed : Bool → Text → Text
zeroed test text = if test && is_star (trim text) then codes "0" else text

get-fill_field :
    (i j : FieldId) (s : Spec) → get j (fill_field i s) ≡ zeroed (same_id i j) (get j s)
get-fill_field i j s = ground (arith, get-put i j (codes "0") s, same_id-get i j s)

zeroed-twice : (a b : Bool) (text : Text) → zeroed b (zeroed a text) ≡ zeroed (a || b) text
zeroed-twice a b text = ground arith

abbrev is_in : FieldId → List FieldId → Bool
is_in j [] = false
is_in j (i ∷ is) = same_id i j || is_in j is

get-fill_fields :
    (is : List FieldId) (j : FieldId) (s : Spec)
    → get j (fill_fields is s) ≡ zeroed (is_in j is) (get j s)
get-fill_fields [] j s = refl
get-fill_fields (i ∷ is) j s =
    get-fill_fields is j (fill_field i s)
    ∙ ap (zeroed (is_in j is)) (get-fill_field i j s)
    ∙ zeroed-twice (same_id i j) (is_in j is) (get j s)

lower_fields-others : (i j : FieldId) → same_id i j ≡ true → is_in j (lower_fields i) ≡ false
unfolding lower_fields
lower_fields-others i j h = ground arith

-- Whether typing into the field `i` fills in the field `j`.
abbrev fills : FieldId → FieldId → Text → CronInputs → Bool
fills i j typed c = is_narrowed (get i c.prev) (trim typed) && is_in j (lower_fields i)

get-filled :
    (i j : FieldId) (typed : Text) (c : CronInputs)
    → get j (input_field i typed c).fields
      ≡ zeroed (fills i j typed c) (get j (put i typed c.fields))
unfolding input_field
get-filled i j typed c = elim (Bool-cases (is_narrowed (get i c.prev) (trim typed))) [
  | inl narrowed ↦ rw narrowed (get-fill_fields (lower_fields i) j (put i typed c.fields))
  | inr other ↦ rw other refl
]

-- Typing into a field sets it, and sets those of the lower fields to "0" that were "*", if the field
-- itself was "*" or empty and is now neither; nothing else changes.
pub get-input_field :
    (i j : FieldId) (typed : Text) (c : CronInputs)
    → get j (input_field i typed c).fields
      ≡ (if same_id i j then typed else zeroed (fills i j typed c) (get j c.fields))
get-input_field i j typed c =
    get-filled i j typed c
    ∙ ap (zeroed (fills i j typed c)) (get-put i j typed c.fields)
    ∙ ground (arith, lower_fields-others i j)

-- No day of a month is the day 0.
match_field-zero : (v : ℕ) → 1 ≤ v → match_field v (codes "0") 1 ≡ false
unfolding match_field match_single match_range match_step parse_int
match_field-zero v h = ground arith

-- An expression with the day 0, and any day of the week, holds at no instant.
match_cron-zero :
    (t : ℕ) (s : Spec) → s.day ≡ codes "0" → s.dow ≡ codes "*" → match_cron t s ≡ false
unfolding match_cron day_fails
match_cron-zero t s day dow =
    let ranges = date_ranges t in
    let fails = match_field-zero (date t) ranges.3 in rw (day, dow, fails) (ground arith)

-- Where the month's field was "*", a month that is typed into it makes an expression that holds at no
-- instant, if the fields of the days are "*".
pub input_field-never :
    (month : Text) (c : CronInputs)
    → c.prev.month ≡ codes "*"
    → is_narrowed (codes "*") (trim month) ≡ true
    → trim c.fields.day ≡ codes "*"
    → c.fields.dow ≡ codes "*"
    → (t : ℕ) → match_cron t (input_field cron_month month c).fields ≡ false
input_field-never month c prev narrowed day dow t =
    let zero : (input_field cron_month month c).fields.day ≡ codes "0" =
      get-input_field cron_month cron_day month c
      ∙ (unfold lower_fields in rw (prev, narrowed, day) refl) in
    let any_day : (input_field cron_month month c).fields.dow ≡ codes "*" =
      get-input_field cron_month cron_dow month c
      ∙ (unfold lower_fields in rw (prev, narrowed) dow) in
    match_cron-zero t _ zero any_day

match_field-star :
    (v : ℕ) (spec : Text) (lowest : ℕ) → is_star spec ≡ true → match_field v spec lowest ≡ true
unfolding match_field
match_field-star v spec lowest h = rw h refl

-- A field that is set to "0" where it was "*" accepts no more values.
abbrev IsNarrower : Text → Text → Type 0
IsNarrower q p = (v lowest : ℕ) → match_field v q lowest ≡ true → match_field v p lowest ≡ true

zeroed-IsNarrower : (test : Bool) (text : Text) → IsNarrower (trim (zeroed test text)) (trim text)
zeroed-IsNarrower test text v lowest h = elim (Bool-cases (test && is_star (trim text))) [
  | inl star ↦ match_field-star v (trim text) lowest (&&_parts test (is_star (trim text)) star).1
  | inr other ↦ rw other at h
]

zeroed-sec :
    (test : Bool) (text : Text)
    → IsNarrower (or_else (trim (zeroed test text)) (codes "0")) (or_else (trim text) (codes "0"))
zeroed-sec test text v lowest h = elim (Bool-cases (test && is_star (trim text))) [
  | inl star ↦
      let is = text_eq→eq (trim text) (codes "*") (&&_parts test (is_star (trim text)) star).1 in
      rw is (match_field-star v (codes "*") lowest refl)
  | inr other ↦ rw other at h
]

zeroed-day :
    (test : Bool) (text : Text)
    → ((is_star (trim text) ≡ true) × (trim (zeroed test text) ≡ codes "0"))
      ⊎ (trim (zeroed test text) ≡ trim text)
zeroed-day test text = elim (Bool-cases (test && is_star (trim text))) [
  | inl star ↦ inl ((&&_parts test (is_star (trim text)) star).1, rw star refl)
  | inr other ↦ inr (rw other refl)
]

fills-dow : (i : FieldId) (typed : Text) (c : CronInputs) → fills i cron_dow typed c ≡ false
unfolding lower_fields
fills-dow i typed c = ground arith

-- The first expression holds at no other instants than the second one, if its times of the day are
-- narrower, and its day is the other's or the 0 in place of a "*".
record Narrows (q p : Spec) : Type 0 where
  sec : IsNarrower q.sec p.sec
  min : IsNarrower q.min p.min
  hour : IsNarrower q.hour p.hour
  day : ((is_star p.day ≡ true) × (q.day ≡ codes "0")) ⊎ (q.day ≡ p.day)
  month : IsNarrower q.month p.month
  dow : q.dow ≡ p.dow

match_cron-Narrows :
    (t : ℕ) (q p : Spec) → Narrows q p → match_cron t q ≡ true → match_cron t p ≡ true
unfolding match_cron day_fails
match_cron-Narrows t q p n h =
    let sec = n.sec (second t) 0 in
    let min = n.min (minute t) 0 in
    let hours = n.hour (hour t) 0 in
    let months = n.month (month t) 1 in
    elim n.day [
      | inl (star, zero) ↦
          let ranges = date_ranges t in
          let fails = match_field-zero (date t) ranges.3 in
          let holds = match_field-star (date t) p.day 1 star in
          ground (arith, sec, min, hours, months, fails, holds, star, rw (n.dow, zero) at h)
      | inr same ↦ ground (arith, sec, min, hours, months, rw (n.dow, same) at h)
    ]

input_field-Narrows :
    (i : FieldId) (typed : Text) (c : CronInputs)
    → Narrows (read_fields (input_field i typed c).fields) (read_fields (put i typed c.fields))
input_field-Narrows i typed c =
    let old = put i typed c.fields in
    record {
      sec = rw (get-filled i cron_sec typed c) (zeroed-sec (fills i cron_sec typed c) old.sec);
      min =
          rw (get-filled i cron_min typed c) (zeroed-IsNarrower (fills i cron_min typed c) old.min);
      hour =
          rw (get-filled i cron_hour typed c)
            (zeroed-IsNarrower (fills i cron_hour typed c) old.hour);
      day = rw (get-filled i cron_day typed c) (zeroed-day (fills i cron_day typed c) old.day);
      month =
          rw (get-filled i cron_month typed c)
            (zeroed-IsNarrower (fills i cron_month typed c) old.month);
      dow = rw (get-filled i cron_dow typed c, fills-dow i typed c) refl;
    }

-- Filling in the lower fields only narrows the schedule: at an instant that the inputs select after a
-- field was typed, they would be selected too with the other fields left as they were.
pub input_field-narrows :
    (i : FieldId) (typed : Text) (c : CronInputs) (t : ℕ)
    → match_cron t (read_fields (input_field i typed c).fields) ≡ true
    → match_cron t (read_fields (put i typed c.fields)) ≡ true
input_field-narrows i typed c t h = match_cron-Narrows t _ _ (input_field-Narrows i typed c) h
