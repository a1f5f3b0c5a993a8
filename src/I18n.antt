-- ===== src/I18n.antt =====
-- cockpit-cronplus/static/js/i18n.js: `detectLang`, `load` and `t`. `load` is split where it waits
-- for the server: the request, and the handler of the answer.
pub mod Loading
mod Tests
use cockpit_cronplus.Common.{
  ℕ, ◌+◌, ◌≡◌, ◌≢◌, refl, sym, ◌∙◌, ◌⊎◌, inl, inr, Bool, true, false, ◌&&◌, leb, Option, none, some,
  List, [], ◌∷◌, ◌++◌, map, if◌then◌else◌, Text, codes, text_eq, is_empty, or_else, starts_with,
  drop_prefix, text_eq→eq, text_eq_refl, Bool-cases, Option-cases,
}

-- A dictionary: keys with their texts; none is `null`.
abbrev pub Dict : Type 0
Dict = List (Text × Option Text)

abbrev pub lookup {ℓ} : {A : Type ℓ} → Text → List (Text × A) → Option A
lookup key [] = none
lookup key ((k, v) ∷ rest) = if text_eq k key then some v else lookup key rest

-- The module's variables, and the saved language in localStorage.
pub record I18n : Type 0 where
  pub current : Text
  pub dict : Dict
  pub cache : List (Text × Dict)
  pub saved : Option Text

abbrev pub en : Text
en = codes "en"

abbrev pub lower : ℕ → ℕ
lower c = if leb b'A' c && leb c b'Z' then c + 32 else c

abbrev pub first_prefix : List (Text × Text) → Text → Text
first_prefix [] nav = en
first_prefix ((prefix, lang) ∷ rest) nav =
    if starts_with prefix nav then lang else first_prefix rest nav

-- The prefixes that `detectLang` tries, in its order.
abbrev pub prefixes : List (Text × Text)
prefixes =
    (codes "zh", codes "zh-CN")
    ∷ (codes "ja", codes "ja")
    ∷ (codes "ko", codes "ko")
    ∷ (codes "fr", codes "fr")
    ∷ (codes "de", codes "de")
    ∷ (codes "es", codes "es")
    ∷ (codes "ru", codes "ru")
    ∷ (codes "pt", codes "pt-BR")
    ∷ []

-- `detectLang` from the saved language, Cockpit's, and the browser's two; an absent one is empty.
-- The tags are ASCII.
unfoldable pub detect_lang : Text → Text → Text → Text → Text
detect_lang saved cockpit language user_language =
    let nav = map lower (or_else cockpit (or_else language user_language)) in
    if is_empty saved then first_prefix prefixes nav else saved

-- `load(lang)` up to the request: the state, and the language that is asked for, none if the cache
-- has it.
unfoldable pub load : I18n → Text → I18n × Option Text
load s lang =
    let wanted = or_else lang s.current in
    let s' : I18n = record s { current = wanted; saved = some wanted } in
    elim (lookup wanted s.cache) [
      | none ↦ (s', some wanted)
      | some d ↦ (record s' { dict = d }, none)
    ]

-- The handler of an answer, none for a failure. It may ask for another language. The answer does
-- not say which language it is for: `_cache[_currentLang] = data`.
unfoldable pub answered : I18n → Option Dict → I18n × Option Text
answered s (some d) = (record s { dict = d; cache = (s.current, d) ∷ s.cache }, none)
answered s none =
    let again = load (record s { current = en }) en in
    if text_eq s.current en then (record s { dict = [] }, none) else again

-- The server's answer to a request, where one was made. `server` gives the files.
abbrev pub settle : (Text → Option Dict) → I18n × Option Text → I18n × Option Text
settle server (s, none) = (s, none)
settle server (s, some lang) = answered s (server lang)

-- `load(lang)` to its end, where nothing else happens meanwhile.
unfoldable pub load_done : (Text → Option Dict) → I18n → Text → I18n × Option Text
load_done server s lang = settle server (settle server (load s lang))

-- `String(text).replace('{' + k + '}', value)`: the first place only. (`$` patterns in the value
-- are not read.)
abbrev replace_once : Text → Text → Text → Text
replace_once pattern value [] = elim pattern [ [] ↦ value | _ ∷ _ ↦ [] ]
replace_once pattern value (c ∷ s) =
    let rest = replace_once pattern value s in
    elim (drop_prefix pattern (c ∷ s)) [ some after ↦ value ++ after | none ↦ c ∷ rest ]

abbrev fill_in : List (Text × Text) → Text → Text
fill_in [] text = text
fill_in ((k, v) ∷ rest) text = fill_in rest (replace_once (b'{' ∷ k ++ b'}' ∷ []) v text)

abbrev text_of : Text → Option (Option Text) → Text
text_of key (some (some text)) = text
text_of key _ = key

-- `t(key, params)`
unfoldable pub translate : I18n → Text → List (Text × Text) → Text
translate s key params = fill_in params (text_of key (lookup key s.dict))

-- The languages that have a file in lang/.
abbrev pub shipped : List Text
shipped = map codes ("de" ∷ "en" ∷ "es" ∷ "fr" ∷ "ja" ∷ "ko" ∷ "pt-BR" ∷ "ru" ∷ "zh-CN" ∷ [])
