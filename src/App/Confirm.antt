-- ===== src/App/Confirm.antt =====
-- app.js, `confirmDialog`: one dialog at a time, and a promise for each that resolves once. Promises
-- are numbered in the order of the calls. The texts of the dialog are left out.
use cockpit_cronplus.Common.{
  ℕ, suc, ◌≤◌, ◌<◌, ◌≡◌, ◌≢◌, refl, ◌∙◌, Bool, true, false, Option, none, some, List, [], ◌∷◌,
  if◌then◌else◌, ◌==◌, arith,
}

-- What has the focus: the dialog itself, or one of its buttons in the order of the Tab key.
pub data Focus : Type 0 where
  container close_button cancel_button ok_button : Focus

-- `pending` is the promise of `confirmState`, `resolved` what was resolved, last first.
pub record Confirm : Type 0 where
  pub issued : ℕ
  pub pending : Option ℕ
  pub focus : Focus
  pub resolved : List (ℕ × Bool)

pub data Event : Type 0 where
  ask : (danger : Bool) → Event
  click_ok click_cancel click_close click_overlay escape : Event
  tab : (shift : Bool) → Event

-- `finish(result)`
unfoldable pub finish : Confirm → Bool → Confirm
finish c result = elim c.pending [
  | none ↦ c
  | some p ↦ record c { pending = none; resolved = (p, result) ∷ c.resolved }
]

-- The Tab key goes round the three buttons; the dialog itself leaves it to the browser, which goes
-- to the first button.
unfoldable pub tab_from : Bool → Focus → Focus
tab_from shift container = close_button
tab_from false close_button = cancel_button
tab_from false cancel_button = ok_button
tab_from false ok_button = close_button
tab_from true close_button = ok_button
tab_from true cancel_button = close_button
tab_from true ok_button = cancel_button

-- The listeners are there only while a dialog is pending.
abbrev tab_key : Confirm → Bool → Confirm
tab_key c shift = elim c.pending [ none ↦ c | some p ↦ record c { focus = tab_from shift c.focus } ]

unfoldable pub step : Confirm → Event → Confirm
step c (ask danger) =
    let free = finish c false in
    record free {
      issued = suc free.issued;
      pending = some free.issued;
      focus = if danger then container else ok_button;
    }
step c click_ok = finish c true
step c click_cancel = finish c false
step c click_close = finish c false
step c click_overlay = finish c false
step c escape = finish c false
step c (tab shift) = tab_key c shift

unfoldable pub run : Confirm → List Event → Confirm
run c [] = c
run c (e ∷ es) = run (step c e) es

abbrev pub initial : Confirm
initial = record { issued = 0; pending = none; focus = container; resolved = [] }

-- How often a promise was resolved.
abbrev pub times : ℕ → List (ℕ × Bool) → ℕ
times p [] = 0
times p ((q, result) ∷ rs) = let rest = times p rs in if q == p then suc rest else rest

abbrev pub is_pending : Option ℕ → ℕ → Bool
is_pending none p = false
is_pending (some q) p = q == p

-- Each issued promise was resolved once, unless it is pending; no other was.
abbrev pub IsFair : Confirm → ℕ → Type 0
IsFair c p =
    (c.issued ≤ p → times p c.resolved ≡ 0)
    × (p < c.issued → times p c.resolved ≡ (if is_pending c.pending p then 0 else 1))
    × (is_pending c.pending p ≡ true → p < c.issued)

finish-IsFair : (c : Confirm) (result : Bool) (p : ℕ) → IsFair c p → IsFair (finish c result) p
unfolding finish
finish-IsFair c result p h = ground arith

finish_pending : (c : Confirm) (result : Bool) → (finish c result).pending ≡ none
unfolding finish
finish_pending c result = ground arith

ask-IsFair : (c : Confirm) (danger : Bool) (p : ℕ) → IsFair c p → IsFair (step c (ask danger)) p
unfolding step
ask-IsFair c danger p h =
    let f = finish-IsFair c false p h in ground (arith, finish_pending c false, f.0, f.1, f.2)

step-IsFair : (c : Confirm) (e : Event) (p : ℕ) → IsFair c p → IsFair (step c e) p
unfolding step
step-IsFair c (ask danger) p h = ask-IsFair c danger p h
step-IsFair c click_ok p h = finish-IsFair c true p h
step-IsFair c click_cancel p h = finish-IsFair c false p h
step-IsFair c click_close p h = finish-IsFair c false p h
step-IsFair c click_overlay p h = finish-IsFair c false p h
step-IsFair c escape p h = finish-IsFair c false p h
step-IsFair c (tab shift) p h = ground arith

run-IsFair_from : (c : Confirm) (es : List Event) (p : ℕ) → IsFair c p → IsFair (run c es) p
unfolding run
run-IsFair_from c [] p h = h
run-IsFair_from c (e ∷ es) p h = run-IsFair_from (step c e) es p (step-IsFair c e p h)

-- After any events, a promise that was issued has been resolved exactly once, or is the pending one
-- and has not been resolved; a promise that was not issued has not been resolved.
pub run-IsFair : (es : List Event) (p : ℕ) → IsFair (run initial es) p
run-IsFair es p = run-IsFair_from initial es p (ground arith)

-- Whether a promise was resolved with true, and whether the confirm button was clicked.
abbrev pub has_true : List (ℕ × Bool) → Bool
has_true [] = false
has_true ((p, true) ∷ rs) = true
has_true ((p, false) ∷ rs) = has_true rs

abbrev pub clicks_ok : List Event → Bool
clicks_ok [] = false
clicks_ok (click_ok ∷ es) = true
clicks_ok (e ∷ es) = clicks_ok es

step-has_true :
    (c : Confirm) (e : Event) → e ≢ click_ok → has_true (step c e).resolved ≡ has_true c.resolved
unfolding step finish
step-has_true c (ask danger) ne = ground arith
step-has_true c click_ok ne = absurd (ne refl)
step-has_true c click_cancel ne = ground arith
step-has_true c click_close ne = ground arith
step-has_true c click_overlay ne = ground arith
step-has_true c escape ne = ground arith
step-has_true c (tab shift) ne = ground arith

-- Where no promise was resolved with true and the events hold no click on the confirm button, none
-- is resolved with true after them.
pub run_refuses :
    (c : Confirm) (es : List Event)
    → clicks_ok es ≡ false
    → has_true c.resolved ≡ false
    → has_true (run c es).resolved ≡ false
unfolding run
run_refuses c [] h g = g
run_refuses c (click_ok ∷ es) h g = absurd (cc)
run_refuses c (ask danger ∷ es) h g = run_refuses _ es h (step-has_true c (ask danger) (cc) ∙ g)
run_refuses c (e ∷ es) h g = run_refuses (step c e) es h (step-has_true c e (cc) ∙ g)
