-- ===== src/App/Cleanup.antt =====
-- app.js, log cleanup: `buildPruneArgs`, `countCleanupServer`, `previewCleanup`, `execCleanup`. The
-- answers of `cronplus` and of the user are arguments; deletion itself is the command's.
pub mod Dialog
use cockpit_cronplus.Common.{
  ℕ, ◌+◌, ◌-◌, ◌*◌, ◌≡◌, refl, Bool, true, false, not, ◌||◌, Option, none, some, List, [], ◌∷◌,
  ◌++◌, if◌then◌else◌, ◌==◌, ℤ, pos, pos_part, neg_part, Text, codes, text_eq, is_empty, length,
  arith, inl, inr, ◌⊎◌, Bool-cases, Option-cases,
}
use cockpit_cronplus.Utils.{format_date_time}
use cockpit_cronplus.App.Types.{LogEntry, int_or}
use cockpit_cronplus.App.Form.{show_int}

pub data Mode : Type 0 where
  age task status user count all : Mode

-- The values of the dialog's inputs.
pub record Inputs : Type 0 where
  pub days : Text
  pub task_id : Text
  pub status : Text
  pub user : Text
  pub count : Text

abbrev prune : List Text → Option (List Text)
prune selector = some (codes "cronplus" ∷ codes "prune" ∷ selector)

-- A selector whose value has to be chosen.
abbrev chosen : Text → Text → Option (List Text)
chosen flag value = if is_empty value then none else prune (flag ∷ value ∷ [])

-- `Date.now() - days * 86400000`
abbrev cutoff : ℕ → ℤ → ℕ
cutoff now days = now + neg_part days * 86400000 - pos_part days * 86400000

-- `buildPruneArgs(mode)` at the time `now`; none is `null`.
unfoldable pub build_prune_args : Mode → Inputs → ℕ → Option (List Text)
build_prune_args age f now =
    prune (codes "--before" ∷ format_date_time (some (cutoff now (int_or f.days (pos 30)))) ∷ [])
build_prune_args task f now = chosen (codes "--task") f.task_id
build_prune_args status f now = chosen (codes "--status") f.status
build_prune_args user f now = chosen (codes "--user") f.user
build_prune_args count f now = prune (codes "--keep" ∷ show_int (int_or f.count (pos 100)) ∷ [])
build_prune_args all f now = prune []

abbrev pub is_all : Mode → Bool
is_all all = true
is_all _ = false

-- What the preview shows: a number, or that it is not known.
pub data Shown : Type 0 where
  number : ℕ → Shown
  unknown : Shown

abbrev shown : Option ℕ → Shown
shown none = unknown
shown (some n) = number n

-- `previewCleanup` with the answer of the dry run, none if it failed, and the mode that is chosen
-- when the answer comes. The result is the count in the end; none if a stale answer is dropped.
abbrev same_mode : Mode → Mode → Bool
same_mode age age = true
same_mode task task = true
same_mode status status = true
same_mode user user = true
same_mode count count = true
same_mode all all = true
same_mode _ _ = false

unfoldable pub preview : Mode → Mode → Inputs → ℕ → List LogEntry → Option ℕ → Option Shown
preview mode later f now logs answer =
    if is_all mode then some (number (length logs)) else elim (build_prune_args mode f now) [
      | none ↦ some (number 0)
      | some args ↦ if same_mode later mode then some (shown answer) else none
    ]

-- The command lines that `execCleanup` runs, in their order.
pub record World : Type 0 where
  -- the number that the dry run reports, none if it cannot be reached
  pub planned : Option ℕ
  -- whether the user confirms
  pub confirmed : Bool

abbrev planned_none : Option ℕ → Bool
planned_none none = false
planned_none (some n) = n == 0

abbrev dry_run : List Text → List Text
dry_run args = args ++ codes "--dry-run" ∷ codes "--json" ∷ []

abbrev real_run : List Text → List Text
real_run args = args ++ codes "--json" ∷ []

-- `execCleanup`, whose selector is built at `now`, and built again for the dry run at `later`.
unfoldable pub exec_cleanup : Mode → Inputs → ℕ → ℕ → World → List (List Text)
exec_cleanup mode f now later w =
    let planned : List (List Text) = elim (build_prune_args mode f later) [
      | none ↦ []
      | some args ↦ dry_run args ∷ []
    ] in
    let selective : List (List Text) = elim (build_prune_args mode f now) [
      | none ↦ []
      | some args ↦
          planned ++ (if planned_none w.planned || not w.confirmed then [] else real_run args ∷ [])
    ] in
    if is_all mode
    then (if w.confirmed then (codes "cronplus" ∷ codes "clear-logs" ∷ []) ∷ [] else [])
    else selective

-- Whether a command line deletes entries: every one does but a dry run.
abbrev pub has_word : Text → List Text → Bool
has_word w [] = false
has_word w (v ∷ vs) = text_eq v w || has_word w vs

abbrev pub deletions : List (List Text) → List (List Text)
deletions [] = []
deletions (c ∷ cs) = if has_word (codes "--dry-run") c then deletions cs else c ∷ deletions cs

-- What keeps the dialog from deleting: the user refuses, or a selection holds no entry.
abbrev pub Refused : Mode → World → Type 0
Refused mode w = (w.confirmed ≡ false) ⊎ ((is_all mode ≡ false) × (w.planned ≡ some 0))

has_word-append :
    (w : Text) (xs ys : List Text) → has_word w (xs ++ ys) ≡ (has_word w xs || has_word w ys)
has_word-append w [] ys = refl
has_word-append w (x ∷ xs) ys = ground (arith, has_word-append w xs ys)

dry_run_word : (args : List Text) → has_word (codes "--dry-run") (dry_run args) ≡ true
dry_run_word args =
    ground
      (arith, has_word-append (codes "--dry-run") args (codes "--dry-run" ∷ codes "--json" ∷ []))

deletions-dry_run : (args : List Text) → deletions (dry_run args ∷ []) ≡ []
deletions-dry_run args = rw (dry_run_word args) refl

planned_deletions :
    (o : Option (List Text))
    → deletions (elim o [ none ↦ [] | some args ↦ dry_run args ∷ [] ] ++ []) ≡ []
planned_deletions none = refl
planned_deletions (some args) = deletions-dry_run args

Refused-guard :
    (mode : Mode) (w : World)
    → Refused mode w
    → is_all mode ≡ false
    → (planned_none w.planned || not w.confirmed) ≡ true
Refused-guard mode w (inl h) k = ground arith
Refused-guard mode w (inr (a, h)) k = rw h refl

clear-Refused :
    (mode : Mode) (w : World) → Refused mode w → is_all mode ≡ true → w.confirmed ≡ false
clear-Refused mode w (inl h) k = h
clear-Refused mode w (inr (a, h)) k = cc

-- When the user does not confirm, or the dry run of a selection finds no entry, no command that
-- deletes entries is run.
pub exec_cleanup-Refused :
    (mode : Mode) (f : Inputs) (now later : ℕ) (w : World)
    → Refused mode w
    → deletions (exec_cleanup mode f now later w) ≡ []
unfolding exec_cleanup
exec_cleanup-Refused mode f now later w h = elim (Bool-cases (is_all mode)) [
  | inl wipe ↦ rw (wipe, clear-Refused mode w h wipe) refl
  | inr part ↦ elim (Option-cases (build_prune_args mode f now)) [
    | inl missing ↦ rw (part, missing) refl
    | inr (args, built) ↦
        rw (part, built, Refused-guard mode w h part)
          (planned_deletions (build_prune_args mode f later))
  ]
]
