-- ===== src/I18n/Loading.antt =====
-- i18n.js: what `load` leaves behind, alone and with another `load` under way.
use cockpit_cronplus.Common.{
  ◌≡◌, ◌≢◌, refl, ◌∙◌, ◌⊎◌, inl, inr, true, false, Option, none, some, List, [], ◌∷◌, Text, text_eq,
  or_else, text_eq→eq, text_eq_refl, Bool-cases, Option-cases, All, map, any, starts_with,
}
use cockpit_cronplus.I18n.{
  Dict, lookup, I18n, en, load, answered, settle, load_done, first_prefix, lower, prefixes,
  detect_lang, shipped,
}

some_dict : {a b : Dict} → some a ≡ some b → a ≡ b
some_dict e = cc

-- Each cached dictionary is the file of its language.
abbrev pub IsFaithful : (Text → Option Dict) → I18n → Type 0
IsFaithful server s = (l : Text) (d : Dict) → lookup l s.cache ≡ some d → server l ≡ some d

-- What `load` promises: the dictionary is the file of the current language, or English is current
-- and there is no dictionary; and the current language is the saved one.
abbrev pub IsLoaded : (Text → Option Dict) → I18n → Type 0
IsLoaded server s =
    ((server s.current ≡ some s.dict) ⊎ ((s.current ≡ en) × (s.dict ≡ [])))
    × (s.saved ≡ some s.current)
    × IsFaithful server s

-- A state that waits for the dictionary of its language.
abbrev IsAsking : (Text → Option Dict) → I18n × Option Text → Type 0
IsAsking server (s, asked) =
    (asked ≡ some s.current) × (s.saved ≡ some s.current) × IsFaithful server s

abbrev IsSettled : (Text → Option Dict) → I18n × Option Text → Type 0
IsSettled server (s, asked) = (asked ≡ none) × IsLoaded server s

cached-IsFaithful :
    (server : Text → Option Dict) (s : I18n) (d : Dict)
    → IsFaithful server s
    → server s.current ≡ some d
    → IsFaithful server (record s { dict = d; cache = (s.current, d) ∷ s.cache })
cached-IsFaithful server s d h e l d' found = elim (Bool-cases (text_eq s.current l)) [
  | inl same ↦ rw (← text_eq→eq s.current l same) (e ∙ (rw same at found))
  | inr other ↦ h l d' (rw other at found)
]

load-parts :
    (server : Text → Option Dict) (s : I18n) (lang : Text)
    → IsFaithful server s
    → IsSettled server (load s lang) ⊎ IsAsking server (load s lang)
unfolding load
load-parts server s lang h = elim (Option-cases (lookup (or_else lang s.current) s.cache)) [
  | inl new ↦ rw (load, new) (inr (refl, refl, h))
  | inr (d, found) ↦ rw (load, found) (inl (refl, (inl (h _ d found), refl, h)))
]

load_current : (s : I18n) (lang : Text) → (load s lang).0.current ≡ or_else lang s.current
unfolding load
load_current s lang = elim (Option-cases (lookup (or_else lang s.current) s.cache)) [
  | inl new ↦ rw (load, new) refl
  | inr (d, found) ↦ rw (load, found) refl
]

some_text : {a b : Text} → some a ≡ some b → a ≡ b
some_text e = cc

settle-IsSettled :
    (server : Text → Option Dict) (x : I18n × Option Text)
    → IsSettled server x
    → IsSettled server (settle server x)
settle-IsSettled server (s, none) h = h
settle-IsSettled server (s, some l) (e, h) = absurd (cc e)

-- The answer to a request: an end, or, where it failed and was not for English, a request for it.
answered-parts :
    (server : Text → Option Dict) (s : I18n)
    → (s.saved ≡ some s.current)
    → IsFaithful server s
    → IsSettled server (answered s (server s.current))
      ⊎ (IsAsking server (answered s (server s.current))
          × ((answered s (server s.current)).0.current ≡ en)
          × (text_eq s.current en ≡ false))
unfolding answered
answered-parts server s saved h = elim (Option-cases (server s.current)) [
  | inr (d, e) ↦ rw e (inl (refl, (inl e, saved, cached-IsFaithful server s d h e)))
  | inl missing ↦ elim (Bool-cases (text_eq s.current en)) [
    | inl is_en ↦
        rw (missing, is_en) (inl (refl, (inr (text_eq→eq s.current en is_en, refl), saved, h)))
    | inr other ↦
        let s' : I18n = record s { current = en } in
        elim (load-parts server s' en h) [
          | inl ended ↦ rw (missing, other) (inl ended)
          | inr asked ↦ rw (missing, other) (inr (asked, load_current s' en, refl))
        ]
  ]
]

settle-parts :
    (server : Text → Option Dict) (x : I18n × Option Text)
    → IsAsking server x
    → IsSettled server (settle server x)
      ⊎ (IsAsking server (settle server x)
          × ((settle server x).0.current ≡ en)
          × (text_eq x.0.current en ≡ false))
settle-parts server (s, none) (e, _, _) = absurd (cc e)
settle-parts server (s, some l) (e, saved, h) = rw (some_text e) (answered-parts server s saved h)

-- One `load` with no other under way ends after at most two requests, whatever the server has: the
-- current language is the saved one, the dictionary is the file of that language, or English is
-- current and there is none; and each cached dictionary is still the file of its language.
pub load_done-IsLoaded :
    (server : Text → Option Dict) (s : I18n) (lang : Text)
    → IsFaithful server s
    → ((load_done server s lang).1 ≡ none) × IsLoaded server (load_done server s lang).0
unfolding load_done
load_done-IsLoaded server s lang h =
    let asked = load s lang in
    elim (load-parts server s lang h) [
      | inl ended ↦ settle-IsSettled server _ (settle-IsSettled server asked ended)
      | inr asks ↦ elim (settle-parts server asked asks) [
        | inl ended ↦ settle-IsSettled server (settle server asked) ended
        | inr (again, now_en, _) ↦ elim (settle-parts server (settle server asked) again) [
          | inl ended ↦ ended
          | inr (_, _, not_en) ↦ absurd (cc (text_eq_refl en, rw now_en at not_en))
        ]
      ]
    ]

-- Where the dictionary of one language arrives after a second language was chosen, and is not the
-- second one's, the cache is no longer faithful: it is kept under the second language.
pub answered_late :
    (server : Text → Option Dict) (s : I18n) (first second : Text) (d : Dict)
    → server (or_else second (or_else first s.current)) ≢ some d
    → ¬ IsFaithful server (answered (load (load s first).0 second).0 (some d)).0
unfolding answered
answered_late server s first second d differs faithful =
    let chosen = (load (load s first).0 second).0 in
    let current : chosen.current ≡ or_else second (or_else first s.current) =
      rw (load_current (load s first).0 second, load_current s first) refl in
    differs (rw (← current) (faithful chosen.current d (rw (text_eq_refl chosen.current) refl)))

IsShipped : Text → Type 0
IsShipped lang = any (text_eq lang) shipped ≡ true

first_prefix-IsShipped :
    (ps : List (Text × Text)) (nav : Text)
    → All (λ p. IsShipped p.1) ps
    → IsShipped (first_prefix ps nav)
unfolding IsShipped
first_prefix-IsShipped [] nav h = refl
first_prefix-IsShipped ((prefix, lang) ∷ rest) nav (here, later) =
    elim (Bool-cases (starts_with prefix nav)) [
      | inl fits ↦ rw fits here
      | inr differs ↦ rw differs (first_prefix-IsShipped rest nav later)
    ]

-- Where no language is saved, the one that is detected has a file, whatever Cockpit and the browser
-- say.
pub detect_lang-IsShipped :
    (cockpit language user_language : Text)
    → any (text_eq (detect_lang [] cockpit language user_language)) shipped ≡ true
unfolding detect_lang IsShipped
detect_lang-IsShipped cockpit language user_language =
    first_prefix-IsShipped prefixes (map lower (or_else cockpit (or_else language user_language)))
      (refl, (refl, (refl, (refl, (refl, (refl, (refl, (refl, tt))))))))
