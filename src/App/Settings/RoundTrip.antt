-- ===== src/App/Settings/RoundTrip.antt =====
-- The settings dialog shows what it saves.
use cockpit_cronplus.Common.{
  or_else-full, ◌≡◌, refl, ◌∙◌, true, false, List, ℤ, pos, Text, codes, text_eq, is_empty, or_else,
  any,
}
use cockpit_cronplus.App.Types.{num_or-zero, num_or, int_or}
use cockpit_cronplus.App.Form.{show_int, root}
use cockpit_cronplus.App.Form.Inputs.{int_or-show_int, int_or-num_or}
use cockpit_cronplus.App.Settings.{Settings}
use cockpit_cronplus.App.Settings.Dialog.{
  Offered, chosen, user_options, open_settings, form_settings,
}

-- A text that is given and that the select offers.
abbrev pub IsOption : List Text → Text → Type 0
IsOption options s = (is_empty s ≡ false) × (any (text_eq s) options ≡ true)

-- A number that `n || d` keeps and that the select offers.
abbrev pub IsNumber : List Text → ℤ → ℤ → Type 0
IsNumber options n d = (num_or n d ≡ n) × (any (text_eq (show_int n)) options ≡ true)

-- Settings that the dialog can show: the texts and numbers of the selects are offered, and no number
-- is 0 but those whose default is 0.
pub record CanShow (o : Offered) (users : List Text) (s : Settings) : Type 0 where
  pub language : IsOption o.language s.language
  pub theme : IsOption o.theme s.theme
  pub user : IsOption (user_options users) s.default_run_user
  pub retry_interval : num_or s.default_retry_interval (pos 60) ≡ s.default_retry_interval
  pub auto_refresh : num_or s.auto_refresh_interval (pos 15) ≡ s.auto_refresh_interval
  pub log_page_size : num_or s.log_page_size (pos 20) ≡ s.log_page_size
  pub task_page_size : num_or s.task_page_size (pos 20) ≡ s.task_page_size
  pub log_max_bytes : IsNumber o.log_max_bytes s.log_max_bytes (pos 10485760)
  pub log_backup_count : IsNumber o.log_backup_count s.log_backup_count (pos 5)
  pub level : IsOption o.daemon_log_level s.daemon_log_level
  pub lines : IsNumber o.daemon_log_lines s.daemon_log_lines (pos 100)
  pub interval : IsNumber o.daemon_log_interval s.daemon_log_interval (pos 2)
  pub max_bytes : IsNumber o.daemon_log_max_bytes s.daemon_log_max_bytes (pos 10485760)
  pub backup_count : IsNumber o.daemon_log_backup_count s.daemon_log_backup_count (pos 3)

chosen-text :
    (options : List Text) (s d : Text) → IsOption options s → chosen options (or_else s d) ≡ s
chosen-text options s d (given, offered) = rw (or_else-full s d given, offered) refl

level-text :
    (options : List Text) (s d : Text)
    → IsOption options s
    → or_else (chosen options (or_else s d)) d ≡ s
level-text options s d h = rw (chosen-text options s d h) (or_else-full s d h.0)

chosen-number :
    (options : List Text) (n d : ℤ)
    → IsNumber options n d
    → int_or (chosen options (show_int (num_or n d))) d ≡ n
chosen-number options n d (kept, offered) = rw (kept, offered) (int_or-show_int n d ∙ kept)

input-number : (n d : ℤ) → num_or n d ≡ n → int_or (show_int (num_or n d)) d ≡ n
input-number n d kept = int_or-num_or n d ∙ kept

-- Saving the settings dialog as it opens keeps the settings, where the dialog can show them.
pub form_settings-open_settings :
    (o : Offered) (users : List Text) (lang : Text) (s : Settings)
    → CanShow o users s
    → form_settings s (open_settings o users lang s) ≡ s
unfolding form_settings open_settings
form_settings-open_settings o users lang s c = simp (
  chosen-text o.language s.language (or_else lang (codes "en")) c.language,
  chosen-text o.theme s.theme (codes "auto") c.theme,
  chosen-text (user_options users) s.default_run_user root c.user,
  input-number s.default_timeout (pos 0) (num_or-zero s.default_timeout),
  input-number s.default_max_retries (pos 0) (num_or-zero s.default_max_retries),
  input-number s.default_retry_interval (pos 60) c.retry_interval,
  input-number s.auto_refresh_interval (pos 15) c.auto_refresh,
  input-number s.log_page_size (pos 20) c.log_page_size,
  c.task_page_size,
  chosen-number o.log_max_bytes s.log_max_bytes (pos 10485760) c.log_max_bytes,
  chosen-number o.log_backup_count s.log_backup_count (pos 5) c.log_backup_count,
  level-text o.daemon_log_level s.daemon_log_level (codes "all") c.level,
  chosen-number o.daemon_log_lines s.daemon_log_lines (pos 100) c.lines,
  chosen-number o.daemon_log_interval s.daemon_log_interval (pos 2) c.interval,
  chosen-number o.daemon_log_max_bytes s.daemon_log_max_bytes (pos 10485760) c.max_bytes,
  chosen-number o.daemon_log_backup_count s.daemon_log_backup_count (pos 3) c.backup_count,
)
