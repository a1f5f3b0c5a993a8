-- ===== src/App/LogView/UserOptions.antt =====
-- app.js, the users that the filter of the log list and the cleanup dialog offer:
-- `Object.keys(userSet).sort()`. No user is named `__proto__`, which is no key of such an object.
use cockpit_cronplus.Common.{
  ◌≡◌, refl, ap, ◌∙◌, true, false, ◌||◌, List, [], ◌∷◌, if◌then◌else◌, Text, codes, text_eq,
  text_eq→eq, text_lt, or_else, any, arith, Bool-cases, inl, inr,
}
use cockpit_cronplus.App.Types.{LogEntry}

-- `l.run_user || 'root'`
abbrev pub user_of : LogEntry → Text
user_of l = or_else l.run_user (codes "root")

-- One more key, in the order of their code units.
unfoldable pub insert_user : Text → List Text → List Text
insert_user u [] = u ∷ []
insert_user u (v ∷ us) =
    let later = insert_user u us in
    if text_eq u v then v ∷ us else if text_lt u v then u ∷ v ∷ us else v ∷ later

unfoldable pub user_options : List LogEntry → List Text
user_options [] = []
user_options (l ∷ ls) = insert_user (user_of l) (user_options ls)

-- The value of the filter once its options are written anew.
unfoldable pub kept_user : List LogEntry → Text → Text
kept_user logs value = if any (text_eq value) (user_options logs) then value else []

abbrev pub IsAfter : Text → List Text → Type 0
IsAfter u [] = Unit
IsAfter u (v ∷ us) = text_lt u v ≡ true

abbrev pub IsAscending : List Text → Type 0
IsAscending [] = Unit
IsAscending (u ∷ us) = IsAfter u us × IsAscending us

text_lt_total : (s t : Text) → text_eq s t ≡ false → text_lt s t ≡ false → text_lt t s ≡ true
text_lt_total [] [] e l = absurd (cc)
text_lt_total [] (b ∷ t) e l = absurd (cc)
text_lt_total (a ∷ s) [] e l = refl
text_lt_total (a ∷ s) (b ∷ t) e l = ground (arith, text_lt_total s t)

insert_user-IsAfter :
    (v u : Text) (us : List Text) → text_lt v u ≡ true → IsAfter v us → IsAfter v (insert_user u us)
unfolding insert_user
insert_user-IsAfter v u [] h o = h
insert_user-IsAfter v u (w ∷ us) h o = ground (arith)

insert_user-IsAscending :
    (u : Text) (us : List Text) → IsAscending us → IsAscending (insert_user u us)
unfolding insert_user
insert_user-IsAscending u [] h = (tt, tt)
insert_user-IsAscending u (v ∷ us) (first, rest) = elim (Bool-cases (text_eq u v)) [
  | inl same ↦ rw same (first, rest)
  | inr other ↦ elim (Bool-cases (text_lt u v)) [
    | inl before ↦ rw (other, before) (before, (first, rest))
    | inr after ↦
        rw (other, after)
          (
            insert_user-IsAfter v u us (text_lt_total u v other after) first,
            insert_user-IsAscending u us rest,
          )
  ]
]

any-insert_user :
    (w u : Text) (us : List Text)
    → any (text_eq w) (insert_user u us) ≡ (text_eq w u || any (text_eq w) us)
unfolding insert_user
any-insert_user w u [] = refl
any-insert_user w u (v ∷ us) = elim (Bool-cases (text_eq u v)) [
  | inl same ↦ rw (same, text_eq→eq u v same) (ground arith)
  | inr other ↦ rw other (ground (arith, any-insert_user w u us))
]

user_options-IsAscending : (logs : List LogEntry) → IsAscending (user_options logs)
unfolding user_options
user_options-IsAscending [] = tt
user_options-IsAscending (l ∷ ls) =
    insert_user-IsAscending (user_of l) (user_options ls) (user_options-IsAscending ls)

any-user_options :
    (u : Text) (logs : List LogEntry)
    → any (text_eq u) (user_options logs) ≡ any (λ l. text_eq u (user_of l)) logs
unfolding user_options
any-user_options u [] = refl
any-user_options u (l ∷ ls) =
    any-insert_user u (user_of l) (user_options ls)
    ∙ ap (λ b. text_eq u (user_of l) || b) (any-user_options u ls)

-- The users offered ascend, so that none is offered twice, and a user is offered exactly if an entry
-- ran as it.
pub user_options-IsExact :
    (u : Text) (logs : List LogEntry)
    → IsAscending (user_options logs)
      × (any (text_eq u) (user_options logs) ≡ any (λ l. text_eq u (user_of l)) logs)
user_options-IsExact u logs = (user_options-IsAscending logs, any-user_options u logs)
