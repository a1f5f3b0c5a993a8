-- ===== src/App/Tests/Config.antt =====
-- tasks.conf, the dialog and the anchor at concrete inputs.
use cockpit_cronplus.Common.{
  ℕ, ◌≡◌, ◌↔◌, refl, ◌<◌, inl, inr, arith, Bool, true, none, some, List, [], ◌∷◌, ◌++◌, pos, Text,
  codes, All, all, ltb, ltb→lt, if◌then◌else◌, Bool-cases, &&_parts,
}
use cockpit_cronplus.Cron.Next.{Spec}
use cockpit_cronplus.Cron.Calendar.{make_date, year}
use cockpit_cronplus.Cron.Schedule.{spec, print_spec}
use cockpit_cronplus.App.Types.{Task}
use cockpit_cronplus.App.Form.{edit_form, form_task}
use cockpit_cronplus.App.Form.Schedules.{of_words}
use cockpit_cronplus.App.Form.RoundTrip.{CanEdit, no_base, form_task-edit_form}
use cockpit_cronplus.App.Store.{max_id, import_config}
use cockpit_cronplus.App.Config.{
  load_tasks, save_tasks, export_config, write_tasks, reload, toast, save_raw_editor,
}
use cockpit_cronplus.App.Config.RoundTrip.{
  IsComplete, numbered, load_tasks-save_tasks, import_config-export_config,
}
use cockpit_cronplus.App.Config.Accepts.{IsAccepted, is_written, save_raw_editor-is_written}
use cockpit_cronplus.App.Anchor.{Anchor, edit_first_run, confirm_anchor}
use cockpit_cronplus.App.Anchor.RoundTrip.{confirm_anchor-edit_first_run}
use cockpit_cronplus.Utils.{format_date_time}
use cockpit_cronplus.Utils.Base64.{Browser, IsCodec}
use cockpit_cronplus.App.Tests.{backup, report, two_tasks, filled}

-- A browser for texts of bytes, that encodes a byte as itself.
abbrev is_bytes : Text → Bool
is_bytes = all (λ c. ltb c 256)

abbrev bytes_only : Browser
bytes_only = record {
  encode_utf8 = λ s. if is_bytes s then some s else none;
  decode_utf8 = λ s. some s;
  btoa = λ s. some s;
  atob = λ s. some s;
}

is_bytes-All : (s : Text) → is_bytes s ≡ true → All (λ c. c < 256) s
is_bytes-All [] h = tt
is_bytes-All (c ∷ s) h =
    let (small, rest) = &&_parts (ltb c 256) (is_bytes s) h in
    (ltb→lt c 256 small, is_bytes-All s rest)

bytes_only_encodes :
    (s : Text) {e : Text} → bytes_only.encode_utf8 s ≡ some e → (is_bytes s ≡ true) × (s ≡ e)
bytes_only_encodes s {e} h = elim (Bool-cases (is_bytes s)) [
  | inl bytes ↦ (bytes, ground arith)
  | inr other ↦ absurd (cc (rw other at h))
]

bytes_only-IsCodec : IsCodec bytes_only
bytes_only-IsCodec = record {
  utf8_bytes =
      λ s h. let (bytes, same) = bytes_only_encodes s h in rw (← same) (is_bytes-All s bytes);
  utf8_decodes = λ s h. let (bytes, same) = bytes_only_encodes s h in rw same refl;
  base64 = λ e h. (e, refl, refl);
  empty = (refl, refl);
}

load_tasks-save_tasks_example :
    (file : List Task) × (save_tasks bytes_only true two_tasks.tasks
      ≡ write_tasks file ∷ reload ∷ toast (codes "task.saved") ∷ [])
    × ((load_tasks bytes_only two_tasks (some file)).0 ≡ two_tasks)
load_tasks-save_tasks_example =
    load_tasks-save_tasks bytes_only bytes_only-IsCodec two_tasks
      ((backup.command, refl), ((report.command, refl), tt))

abbrev nightly : Spec
nightly = spec (codes "0") (codes "0") (codes "3") (codes "*") (codes "*") (codes "1-5")

abbrev complete : Task
complete = record backup { enabled = some true; schedule = print_spec nightly }

complete-IsComplete : IsComplete complete
unfolding print_spec
complete-IsComplete = record {
  command = refl;
  enabled = cc;
  run_user = refl;
  retry_interval = ground arith;
  max_concurrent = ground arith;
  schedule = refl;
}

import_config-export_config_example :
    (import_config two_tasks
      (some (export_config (record two_tasks { tasks = complete ∷ [] })))).0.tasks
    ≡ two_tasks.tasks ++ numbered (max_id two_tasks.tasks) (complete ∷ [])
import_config-export_config_example =
    import_config-export_config (record two_tasks { tasks = complete ∷ [] }) two_tasks
      (complete-IsComplete, tt)

complete-CanEdit : CanEdit complete
complete-CanEdit = record {
  one_line = ((refl, refl), (refl, refl), (refl, refl), (refl, refl), (refl, refl));
  no_return = (refl, refl);
  title = refl;
  command = refl;
  comment = refl;
  tags = refl;
  cwd = refl;
  enabled = cc;
  run_user = (refl, refl);
  no_marker = refl;
  retry_interval = ground arith;
  max_concurrent = ground arith;
  counters = refl;
  schedule =
      of_words nightly
        (record {
          sec = (refl, refl);
          min = (refl, refl);
          hour = (refl, refl);
          day = (refl, refl);
          month = (refl, refl);
          dow = (refl, refl);
        })
        refl refl;
  base_time = no_base;
  env = tt;
}

form_task-edit_form_example : form_task (edit_form (codes "root" ∷ []) filled complete) 3 ≡ complete
form_task-edit_form_example =
    form_task-edit_form (codes "root" ∷ []) filled complete complete-CanEdit

save_raw_editor-is_written_example :
    (is_written
        (save_raw_editor bytes_only (some (some (report ∷ []))) true none two_tasks (codes "[]")).1
      ≡ true)
    ↔ All IsAccepted (report ∷ [])
save_raw_editor-is_written_example =
    save_raw_editor-is_written bytes_only (report ∷ []) true none two_tasks (codes "[]")

abbrev monday : ℕ
monday = make_date 2026 (pos 4) 27 (pos 9) (pos 0) (pos 0)

abbrev first_monday : Anchor
first_monday = record {
  cron = nightly;
  base = [];
  listed = monday ∷ [];
  fields = nightly;
  hint = true;
}

confirm_anchor-edit_first_run_example :
    ((confirm_anchor 100 0 first_monday (edit_first_run monday)).0.base
      ≡ format_date_time (some monday))
    × ((confirm_anchor 100 0 first_monday (edit_first_run monday)).0.cron ≡ nightly)
unfolding make_date year
confirm_anchor-edit_first_run_example =
    confirm_anchor-edit_first_run 100 0 first_monday monday [] refl refl (omega arith) (omega arith)
