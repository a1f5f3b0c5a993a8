-- ===== src/App/CronInputs.antt =====
-- app.js, the schedule inputs of the task dialog in `bindEvents`: typing into a field, which fills in
-- the fields below it, the preset buttons and the reset button. The preview and the list of runs that
-- follow are functions of the fields and stand elsewhere.
pub mod Fill
pub mod Preset
use cockpit_cronplus.Common.{
  ℕ, Bool, true, false, not, ◌&&◌, Option, none, some, List, [], ◌∷◌, if◌then◌else◌, Text, codes,
  text_eq, is_empty, or_else, trim, split, get_elem?,
}
use cockpit_cronplus.Cron.Next.{Spec}
use cockpit_cronplus.Cron.Schedule.{spec, default_spec}
use cockpit_cronplus.Cron.Field.{is_star}

-- `cronFieldOrder`
pub data FieldId : Type 0 where
  cron_sec cron_min cron_hour cron_day cron_month cron_dow : FieldId

-- `$('#' + id).value` of a record of six texts
abbrev pub get : FieldId → Spec → Text
get cron_sec s = s.sec
get cron_min s = s.min
get cron_hour s = s.hour
get cron_day s = s.day
get cron_month s = s.month
get cron_dow s = s.dow

abbrev pub put : FieldId → Text → Spec → Spec
put cron_sec v s = record s { sec = v }
put cron_min v s = record s { min = v }
put cron_hour v s = record s { hour = v }
put cron_day v s = record s { day = v }
put cron_month v s = record s { month = v }
put cron_dow v s = record s { dow = v }

-- `cronFieldLower[id]`
unfoldable pub lower_fields : FieldId → List FieldId
lower_fields cron_sec = []
lower_fields cron_min = cron_sec ∷ []
lower_fields cron_hour = cron_min ∷ cron_sec ∷ []
lower_fields cron_day = cron_hour ∷ cron_min ∷ cron_sec ∷ []
lower_fields cron_month = cron_day ∷ cron_hour ∷ cron_min ∷ cron_sec ∷ []
lower_fields cron_dow = []

-- The six inputs, `cronFieldPrev`, the preset that is highlighted, and whether the reboot delay is
-- shown in place of the inputs.
pub record CronInputs : Type 0 where
  pub fields : Spec
  pub prev : Spec
  pub active : Option Text
  pub reboot_shown : Bool

-- The value that was there before was `*`, and the one that is typed is a specific one.
abbrev pub is_narrowed : Text → Text → Bool
is_narrowed prev curr =
    is_star (or_else prev (codes "*")) && not (is_star curr) && not (is_empty curr)

abbrev pub fill_field : FieldId → Spec → Spec
fill_field id s = if is_star (trim (get id s)) then put id (codes "0") s else s

abbrev pub fill_fields : List FieldId → Spec → Spec
fill_fields [] s = s
fill_fields (id ∷ ids) s = fill_fields ids (fill_field id s)

-- The listener of `focus`.
unfoldable pub focus_field : FieldId → CronInputs → CronInputs
focus_field id c = record c { prev = put id (get id c.fields) c.prev }

-- The listener of `input`, once the input's value is `typed`.
unfoldable pub input_field : FieldId → Text → CronInputs → CronInputs
input_field id typed c =
    let shown = put id typed c.fields in
    let curr = trim typed in
    record {
      fields =
          if is_narrowed (get id c.prev) curr then fill_fields (lower_fields id) shown else shown;
      prev = put id curr c.prev;
      active = none;
      reboot_shown = false;
    }

-- `value = ps[i]`; a missing one is written as `undefined`.
abbrev pub word_at : List Text → ℕ → Text
word_at ps i = elim (get_elem? ps i) [ none ↦ codes "undefined" | some p ↦ p ]

abbrev pub preset_fields : List Text → Spec
preset_fields ps =
    spec (word_at ps 0) (word_at ps 1) (word_at ps 2) (word_at ps 3) (word_at ps 4) (word_at ps 5)

-- A click on the button of a preset; it leaves `cronFieldPrev` as it was.
unfoldable pub press_preset : Text → CronInputs → CronInputs
press_preset p c =
    if text_eq p (codes "@reboot")
    then record c { fields = spec (codes "0") p [] [] [] []; active = some p; reboot_shown = true }
    else record c { fields = preset_fields (split b' ' p); active = some p; reboot_shown = false }

-- A click on the reset button.
unfoldable pub reset_cron : CronInputs → CronInputs
reset_cron c = record c { fields = default_spec; active = none; reboot_shown = false }
