-- ===== src/Cron/Field/Expand.antt =====
-- The loops of `parseFieldValues` collect the numbers that `matchField` accepts.
use native.Mathlib.Nat.{mod-eq_of_lt, mod-eq-sub-mod}
use cockpit_cronplus.Common.{
  ℕ, zero, suc, ◌+◌, ◌-◌, ◌≤◌, ◌<◌, ◌≡◌, ◌≢◌, refl, Bool, false, ◌&&◌, ◌||◌, ◌==◌, none, some, List,
  leb, ℤ, pos, inl, inr, arith, Bool-cases, subst, leb→le,
}
use cockpit_cronplus.Cron.Field.{divides, has_key, add_key, add_steps}
use cockpit_cronplus.Cron.Field.Sorted.{IsKeySet, add_key-IsKeySet, has_key-add_key}

-- What the loop from `v` to `hi` visits.
abbrev pub in_steps : ℕ → ℕ → ℕ → ℕ → Bool
in_steps u v hi step = leb v u && leb u hi && divides step (u - v)

divides_unfold :
    (step a : ℕ) → 0 < step → divides step a ≡ (a == 0 || (leb step a && divides step (a - step)))
divides_unfold step a h =
    ground (arith, mod-eq_of_lt {n = a} {m = step}, mod-eq-sub-mod {n = a} {m = step})

in_steps_next :
    (u v hi step : ℕ)
    → 0 < step
    → v ≤ hi
    → (in_steps u (v + step) hi step || (v == u)) ≡ in_steps u v hi step
in_steps_next u v hi step h le =
    let e : u - (v + step) ≡ u - v - step = omega arith in
    rw e (ground (arith, divides_unfold step (u - v) h))

-- With a step of 0 a loop that starts does not end, whatever the fuel.
pub add_steps-zero : (fuel v hi : ℕ) (keys : List ℤ) → v ≤ hi → add_steps fuel v hi 0 keys ≡ none
unfolding add_steps
add_steps-zero zero v hi keys h = refl
add_steps-zero (suc fuel) v hi keys h =
    let e : v + 0 ≡ v = omega arith in
    ground (arith, e, add_steps-zero fuel v hi (add_key (pos v) keys) h)

-- The loop ends when the fuel passes the length of the range.
pub add_steps_total :
    (fuel v hi step : ℕ) (keys : List ℤ)
    → 0 < step
    → hi < v + fuel
    → (r : List ℤ) × (add_steps (suc fuel) v hi step keys ≡ some r)
unfolding add_steps
add_steps_total zero v hi step keys h f = (keys, ground arith)
add_steps_total (suc fuel) v hi step keys h f = elim (Bool-cases (leb v hi)) [
  | inl go ↦ rw go (add_steps_total fuel (v + step) hi step (add_key (pos v) keys) h (omega arith))
  | inr stop ↦ (keys, rw stop refl)
]

-- The result of a loop that does not start.
add_steps_stop :
    (fuel v hi step : ℕ) (keys : List ℤ) {r : List ℤ}
    → leb v hi ≡ false
    → add_steps fuel v hi step keys ≡ some r
    → keys ≡ r
unfolding add_steps
add_steps_stop zero v hi step keys stop e = absurd (cc)
add_steps_stop (suc fuel) v hi step keys stop e = ground arith

pub add_steps-has_key :
    (fuel v hi step u : ℕ) (keys : List ℤ) {r : List ℤ}
    → add_steps fuel v hi step keys ≡ some r
    → has_key (pos u) r ≡ (in_steps u v hi step || has_key (pos u) keys)
unfolding add_steps
add_steps-has_key zero v hi step u keys e = absurd (cc)
add_steps-has_key (suc fuel) v hi zero u keys {r} e = elim (Bool-cases (leb v hi)) [
  | inl go ↦ absurd (cc (e, add_steps-zero (suc fuel) v hi keys (leb→le v hi go)))
  | inr stop ↦ rw (add_steps_stop (suc fuel) v hi 0 keys stop e) (ground arith)
]
add_steps-has_key (suc fuel) v hi (suc k) u keys {r} e = ground (
  arith,
  add_steps-has_key fuel (v + suc k) hi (suc k) u (add_key (pos v) keys) {r = r},
  has_key-add_key (pos u) (pos v) keys,
  in_steps_next u v hi (suc k),
)

pub add_steps-IsKeySet :
    (fuel v hi step : ℕ) (keys : List ℤ) {r : List ℤ}
    → add_steps fuel v hi step keys ≡ some r
    → IsKeySet keys
    → IsKeySet r
unfolding add_steps
add_steps-IsKeySet zero v hi step keys e h = absurd (cc)
add_steps-IsKeySet (suc fuel) v hi step keys {r} e h = elim (Bool-cases (leb v hi)) [
  | inl go ↦
      add_steps-IsKeySet fuel (v + step) hi step (add_key (pos v) keys) {r = r} (rw go at e)
        (add_key-IsKeySet (pos v) keys h)
  | inr stop ↦ subst IsKeySet (add_steps_stop (suc fuel) v hi step keys stop e) h
]

-- With a step that is not 0 the loop ends, if the fuel passes the length of the range.
pub add_steps_ends :
    (fuel v hi step : ℕ) (keys : List ℤ)
    → 0 < step
    → hi < v + fuel
    → add_steps (suc fuel) v hi step keys ≢ none
add_steps_ends fuel v hi step keys h l stuck =
    let (r, e) = add_steps_total fuel v hi step keys h l in cc
