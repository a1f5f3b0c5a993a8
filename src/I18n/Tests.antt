-- ===== src/I18n/Tests.antt =====
-- The translations at concrete inputs.
use cockpit_cronplus.Common.{◌≡◌, if◌then◌else◌, Option, none, some, [], ◌∷◌, Text, codes, text_eq}
use cockpit_cronplus.I18n.{Dict, I18n, en, load, answered, load_done}
use cockpit_cronplus.I18n.Loading.{IsFaithful, IsLoaded, load_done-IsLoaded, answered_late}

abbrev fresh : I18n
fresh = record { current = en; dict = []; cache = []; saved = none }

abbrev english : Dict
english = (codes "btn.copy", some (codes "Copy")) ∷ []

-- Only English has a file.
abbrev english_only : Text → Option Dict
english_only lang = if text_eq lang en then some english else none

fresh-IsFaithful : IsFaithful english_only fresh
fresh-IsFaithful l d e = absurd (cc e)

load_done-IsLoaded_example :
    ((load_done english_only fresh (codes "ja")).1 ≡ none)
    × IsLoaded english_only (load_done english_only fresh (codes "ja")).0
load_done-IsLoaded_example = load_done-IsLoaded english_only fresh (codes "ja") fresh-IsFaithful

answered_late_example :
    ¬ IsFaithful english_only (answered (load (load fresh en).0 (codes "ja")).0 (some english)).0
answered_late_example = answered_late english_only fresh en (codes "ja") english (cc)
