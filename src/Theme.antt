-- ===== src/Theme.antt =====
-- cockpit-cronplus/static/js/theme.js: the theme that is saved, the browser's, and the one shown.
mod Tests
use cockpit_cronplus.Common.{
  ◌≡◌, refl, sym, ◌∙◌, ◌⊎◌, inl, inr, Bool, true, false, Option, none, some, List, [], ◌∷◌, Text,
  codes, text_eq,
}

pub data Shade : Type 0 where
  light dark : Shade

abbrev pub shade_key : Shade → Text
shade_key light = codes "light"
shade_key dark = codes "dark"

-- `saved` is the text of localStorage, none if there is none or it is empty.
pub record Theme : Type 0 where
  pub saved : Option Text
  pub prefers_light : Bool
  pub shown : Shade

abbrev browser_shade : Bool → Shade
browser_shade true = light
browser_shade false = dark

abbrev saved_shade : Bool → Bool → Shade → Shade
saved_shade true _ other = light
saved_shade false true other = dark
saved_shade false false other = other

-- `getEffectiveTheme`
unfoldable pub effective : Option Text → Bool → Shade
effective none prefers = browser_shade prefers
effective (some s) prefers =
    saved_shade (text_eq s (codes "light")) (text_eq s (codes "dark")) (browser_shade prefers)

-- `init`, and what happens after it: `toggle`, and the browser's `change` event.
unfoldable pub init : Option Text → Bool → Theme
init saved prefers = record {
  saved = saved;
  prefers_light = prefers;
  shown = effective saved prefers;
}

abbrev pub other_shade : Shade → Shade
other_shade dark = light
other_shade light = dark

unfoldable pub toggle : Theme → Theme
toggle t =
    let next = other_shade (effective t.saved t.prefers_light) in
    record t { saved = some (shade_key next); shown = next }

unfoldable pub change : Theme → Bool → Theme
change t prefers = elim t.saved [
  | none ↦ record t { prefers_light = prefers; shown = effective none prefers }
  | some s ↦ record t { prefers_light = prefers }
]

pub data Event : Type 0 where
  toggled : Event
  changed : Bool → Event

abbrev pub handle : Theme → Event → Theme
handle t toggled = toggle t
handle t (changed prefers) = change t prefers

unfoldable pub run : Theme → List Event → Theme
run t [] = t
run t (e ∷ es) = run (handle t e) es

-- What localStorage holds is nothing or the name of a theme.
abbrev pub IsSaved : Option Text → Type 0
IsSaved saved = (saved ≡ none) ⊎ ((s : Shade) × (saved ≡ some (shade_key s)))

abbrev IsShown : Theme → Type 0
IsShown t = IsSaved t.saved × (t.shown ≡ effective t.saved t.prefers_light)

effective_key : (s : Shade) (prefers : Bool) → effective (some (shade_key s)) prefers ≡ s
unfolding effective
effective_key light prefers = refl
effective_key dark prefers = refl

handle-IsShown : (t : Theme) (e : Event) → IsShown t → IsShown (handle t e)
unfolding toggle change
handle-IsShown t toggled h =
    let next = other_shade (effective t.saved t.prefers_light) in
    (inr (next, refl), sym (effective_key next t.prefers_light))
handle-IsShown t (changed prefers) (inl e, shown) = rw e (inl refl, refl)
handle-IsShown t (changed prefers) (inr (s, e), shown) = rw e (
  inr (s, refl),
  (rw e at shown) ∙ effective_key s t.prefers_light ∙ sym (effective_key s prefers),
)

run-IsShown : (es : List Event) (t : Theme) → IsShown t → IsShown (run t es)
unfolding run
run-IsShown [] t h = h
run-IsShown (e ∷ es) t h = run-IsShown es (handle t e) (handle-IsShown t e h)

-- Where the saved text is absent or the name of a theme when the page starts, the theme shown after
-- any sequence of toggles and changes of the browser's preference is the effective one.
pub run-effective :
    (saved : Option Text) (prefers : Bool) (es : List Event)
    → IsSaved saved
    → (run (init saved prefers) es).shown
      ≡ effective (run (init saved prefers) es).saved (run (init saved prefers) es).prefers_light
unfolding init
run-effective saved prefers es h = (run-IsShown es (init saved prefers) (h, refl)).1
