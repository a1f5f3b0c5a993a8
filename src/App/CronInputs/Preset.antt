-- ===== src/App/CronInputs/Preset.antt =====
-- app.js, the preset buttons: what the dialog then saves.
use cockpit_cronplus.Common.{
  ◌≡◌, refl, ap, ◌∙◌, false, [], ◌∷◌, Text, codes, text_eq, has_char, is_space, any, starts_with,
  split, split-join, All, inl, inr, Bool-cases, text_eq→eq, sym, arith,
}
use cockpit_cronplus.Cron.Next.{Spec}
use cockpit_cronplus.Cron.Schedule.{spec, print_spec}
use cockpit_cronplus.Cron.Schedule.RoundTrip.{IsWords}
use cockpit_cronplus.App.Form.{form_schedule}
use cockpit_cronplus.App.Form.Schedules.{form_schedule-words}
use cockpit_cronplus.App.CronInputs.{CronInputs, press_preset, preset_fields}

abbrev undefined : Text
undefined = codes "undefined"

no_space : (w : Text) → any is_space w ≡ false → has_char b' ' w ≡ false
no_space [] h = refl
no_space (c ∷ w) h = ground (arith, no_space w)

pub split-print_spec : (s : Spec) → IsWords s → preset_fields (split b' ' (print_spec s)) ≡ s
unfolding print_spec
split-print_spec s w =
    let late : All (λ q. has_char b' ' q ≡ false) (s.day ∷ s.month ∷ s.dow ∷ []) =
      (no_space s.day w.day.1, (no_space s.month w.month.1, (no_space s.dow w.dow.1, tt))) in
    let spaces : All (λ q. has_char b' ' q ≡ false)
        (s.min ∷ s.hour ∷ s.day ∷ s.month ∷ s.dow ∷ []) =
      (no_space s.min w.min.1, (no_space s.hour w.hour.1, late)) in
    ap preset_fields (
      split-join b' ' s.sec (s.min ∷ s.hour ∷ s.day ∷ s.month ∷ s.dow ∷ [])
        (no_space s.sec w.sec.1, spaces))

reboot_fields :
    preset_fields (split b' ' (codes "@reboot"))
    ≡ spec (codes "@reboot") undefined undefined undefined undefined undefined
unfolding split
reboot_fields = refl

reboot_text :
    text_eq
      (print_spec (spec (codes "@reboot") undefined undefined undefined undefined undefined))
      (codes "@reboot")
    ≡ false
unfolding print_spec
reboot_text = refl

-- Six words are no special name.
not_reboot : (s : Spec) → IsWords s → text_eq (print_spec s) (codes "@reboot") ≡ false
not_reboot s w = elim (Bool-cases (text_eq (print_spec s) (codes "@reboot"))) [
  | inr other ↦ other
  | inl same ↦
      let is = text_eq→eq (print_spec s) (codes "@reboot") same in
      let fields =
        sym (split-print_spec s w) ∙ ap (λ p. preset_fields (split b' ' p)) is ∙ reboot_fields in
      ap (λ q. text_eq (print_spec q) (codes "@reboot")) fields ∙ reboot_text
]

-- The preset of a schedule of six words of which the second does not begin with "@" puts the words
-- into the inputs, and what the dialog then saves is the preset.
pub press_preset-form_schedule :
    (s : Spec) (c : CronInputs)
    → IsWords s
    → starts_with (codes "@") s.min ≡ false
    → ((press_preset (print_spec s) c).fields ≡ s)
      × (form_schedule (press_preset (print_spec s) c).fields ≡ print_spec s)
unfolding press_preset
press_preset-form_schedule s c w min =
    let other = not_reboot s w in
    let fields = split-print_spec s w in
    (rw other fields, rw other (ap form_schedule fields ∙ form_schedule-words s w min))
