-- ===== src/App/Users.antt =====
-- app.js, the users that a task can run as: `loadSystemUsers`, `populateUserSelects`,
-- `toggleCustomUser`, `loadUser` and the change of the user select. The answer of the command is an
-- argument, none where it fails.
use cockpit_cronplus.Common.{
  ◌≡◌, refl, sym, Bool, true, false, not, ◌&&◌, Option, none, some, List, [], ◌∷◌, if◌then◌else◌,
  Text, codes, text_eq, is_empty, or_else, trim, split, filter, any, arith, Bool-cases, inl, inr,
}
use cockpit_cronplus.App.Form.{Form, custom, root, selected_user}

-- `loadSystemUsers`: the users that it offers.
unfoldable pub load_system_users : Option Text → List Text
load_system_users out =
    let users : List Text = elim out [
      | none ↦ root ∷ []
      | some s ↦
          let names = filter (λ u. not (is_empty u)) (split 10 (trim s)) in
          root ∷ filter (λ u. not (text_eq u root)) names
    ] in
    if any (text_eq root) users then users else root ∷ users

-- `toggleCustomUser(show)`, where `show` is none if it is not given; the focus is left out.
unfoldable pub toggle_custom_user : Option Bool → Form → Form
toggle_custom_user show f = record f {
  custom_shown = elim show [ none ↦ not f.custom_shown | some b ↦ b ];
}

-- The value of a select whose options were just written, with none chosen: that of the first one.
abbrev pub first_option : List Text → Text
first_option [] = custom
first_option (u ∷ users) = u

-- `populateUserSelects`
unfoldable pub populate_user_selects : List Text → Form → Form
populate_user_selects users f =
    let filled = record f { user = first_option users } in
    if not (is_empty f.user) && any (text_eq f.user) users
    then record filled { user = f.user }
    else if text_eq f.user custom
    then toggle_custom_user (some true) (record filled { user = custom })
    else if not (is_empty f.user)
    then toggle_custom_user (some true) (record filled { user = custom; custom_user = f.user })
    else filled

-- The listener of `#inputUser`, once its value is `v`.
unfoldable pub change_user : Text → Form → Form
change_user v f = toggle_custom_user (some (text_eq v custom)) (record f { user = v })

-- `loadUser`: the text of `#currentUser`
unfoldable pub load_user : Option Text → Text
load_user none = codes "unknown"
load_user (some user) = trim user

text_eq_sym : (s t : Text) → text_eq s t ≡ text_eq t s
text_eq_sym [] [] = refl
text_eq_sym [] (b ∷ t) = refl
text_eq_sym (a ∷ s) [] = refl
text_eq_sym (a ∷ s) (b ∷ t) = ground (arith, text_eq_sym s t)

any_text :
    (w : Text) (names : List Text) → any (text_eq w) (filter (λ u. not (text_eq u w)) names) ≡ false
any_text w [] = refl
any_text w (u ∷ names) = elim (Bool-cases (text_eq u w)) [
  | inl same ↦ rw same (any_text w names)
  | inr other ↦ rw (other, text_eq_sym w u, other, any_text w names) refl
]

-- Root is offered first, and once.
pub load_system_users-root :
    (out : Option Text)
    → (names : List Text) × (load_system_users out ≡ root ∷ names)
      × (any (text_eq root) names ≡ false)
unfolding load_system_users
load_system_users-root none = ([], refl, refl)
load_system_users-root (some s) =
    let names = filter (λ u. not (is_empty u)) (split 10 (trim s)) in
    (filter (λ u. not (text_eq u root)) names, refl, any_text root names)

or_else-empty : (s d : Text) → is_empty s ≡ true → or_else s d ≡ d
or_else-empty [] d h = refl
or_else-empty (c ∷ s) d h = absurd (cc)

populate_user_selects-root :
    (names : List Text) (f : Form)
    → trim f.user ≡ f.user
    → selected_user (populate_user_selects (root ∷ names) f) ≡ selected_user f
unfolding selected_user populate_user_selects toggle_custom_user
populate_user_selects-root names f trimmed =
    elim (Bool-cases (not (is_empty f.user) && any (text_eq f.user) (root ∷ names))) [
      | inl known ↦ rw (populate_user_selects, known) refl
      | inr unknown ↦ elim (Bool-cases (text_eq f.user custom)) [
        | inl typed ↦ rw (populate_user_selects, unknown, typed) refl
        | inr other ↦ elim (Bool-cases (is_empty f.user)) [
          | inl empty ↦
              rw (populate_user_selects, unknown, other, empty)
                (sym (or_else-empty f.user root empty))
          | inr full ↦ rw (populate_user_selects, unknown, other, full, trimmed) refl
        ]
      ]
    ]

-- Loading the users and writing the options of the select keeps the user that the dialog has chosen,
-- whether it is one of them, is typed, or is not known any more; with none chosen it stays root.
pub selected_user-populate_user_selects :
    (out : Option Text) (f : Form)
    → trim f.user ≡ f.user
    → selected_user (populate_user_selects (load_system_users out) f) ≡ selected_user f
selected_user-populate_user_selects out f trimmed =
    let (names, users, once) = load_system_users-root out in
    rw users (populate_user_selects-root names f trimmed)
