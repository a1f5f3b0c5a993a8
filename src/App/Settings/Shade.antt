-- ===== src/App/Settings/Shade.antt =====
-- Which theme the page shows after a theme was saved in the settings.
use cockpit_cronplus.Common.{◌≡◌, refl, true, false, Option, pos, Text, codes, text_eq, ◌∙◌}
use cockpit_cronplus.App.Types.{num_or}
use cockpit_cronplus.App.Settings.{
  Settings, View, Stored, thousand, stop_auto_refresh, start_auto_refresh, apply_settings,
  load_settings, save_settings,
}
use cockpit_cronplus.App.Settings.Page.{theme_init, init, draw_logs}
use cockpit_cronplus.App.Settings.Dialog.{SettingsForm, form_settings, handle_save_settings}
use cockpit_cronplus.Theme.{effective, shade_key}
use cockpit_cronplus.App.Settings.Sync.{restart_timer}

-- What the theme is made of stays.
keeps_theme :
    (v : View)
    → ((apply_settings v).saved_theme ≡ v.saved_theme)
      × ((apply_settings v).prefers_light ≡ v.prefers_light)
unfolding apply_settings
keeps_theme v =
    let ms = thousand (num_or v.settings.auto_refresh_interval (pos 15)) in
    let (t, anew, _) = restart_timer (record v { auto_refresh_ms = ms }) in rw anew (refl, refl)

load-keeps_theme :
    (v : View) (raw : Option Stored)
    → ((load_settings v raw).saved_theme ≡ v.saved_theme)
      × ((load_settings v raw).prefers_light ≡ v.prefers_light)
unfolding load_settings
load-keeps_theme v raw = keeps_theme _

save-keeps_theme :
    (v : View) (s : Settings)
    → ((save_settings v s).saved_theme ≡ v.saved_theme)
      × ((save_settings v s).prefers_light ≡ v.prefers_light)
unfolding save_settings
save-keeps_theme v s = keeps_theme _

init-shown_theme :
    (v : View) (raw : Option Stored)
    → (init v raw).shown_theme ≡ shade_key (effective v.saved_theme v.prefers_light)
unfolding init theme_init draw_logs start_auto_refresh stop_auto_refresh
init-shown_theme v raw = let (kept, same) = load-keeps_theme v raw in rw (kept, same) refl

-- The page shows, whenever it starts, the theme of localStorage or of the browser, whatever theme was
-- saved in the dialog before. Saving a theme other than "auto" leaves localStorage as it was.
pub init-handle_save_settings :
    (v : View) (lang : Text) (f : SettingsForm) (raw : Option Stored)
    → text_eq f.theme (codes "auto") ≡ false
    → (init (handle_save_settings true lang v f).0 raw).shown_theme
      ≡ shade_key (effective v.saved_theme v.prefers_light)
unfolding handle_save_settings form_settings draw_logs
init-handle_save_settings v lang f raw named =
    let (kept, same) = save-keeps_theme v (form_settings v.settings f) in
    init-shown_theme _ raw ∙ rw (named, kept, same) refl
