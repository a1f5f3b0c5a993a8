-- ===== src/Cron/Base/Fill.antt =====
-- cron.js, `getNextRunTimesFromBase`: the parts that fill up the times of the grid.
use cockpit_cronplus.Common.{
  ℕ, zero, suc, ◌-◌, ◌≤◌, ◌<◌, ◌≡◌, ◌≢◌, true, false, Option, none, some, List, [], ◌∷◌, ◌++◌, ◌==◌,
  ltb, length, take, arith, Bool-cases, Option-cases, inl, inr,
}
use cockpit_cronplus.Cron.Next.{
  Spec, Fields, parse_fields, next_run_time_after, match_cron, with_defaults,
}
use cockpit_cronplus.Cron.Next.Sound.{IsPlainSpec}
use cockpit_cronplus.Cron.Next.First.{AreWithin, next_run_time_after-IsNextRun}
use cockpit_cronplus.Cron.Base.Chain.{IsRising, Follow-push, last_or-push, IsRising-take}
use cockpit_cronplus.Cron.Base.{
  Outcome, runs, type_error, hangs, last_or, fill, finish, refill, push_new, push_fallback,
  off_grid,
}

-- The call ends; where it returns, the times rise and satisfy the expression.
abbrev pub IsGood : Spec → Outcome → Type 0
IsGood spec (runs ts) = IsRising spec ts
IsGood spec type_error = Unit
IsGood spec hangs = true ≡ false

-- Rising times of which the last one is at most `ref`.
abbrev pub IsUpTo : Spec → ℕ → List ℕ → Type 0
IsUpTo spec ref [] = Unit
IsUpTo spec ref (r ∷ rs) = IsRising spec (r ∷ rs) × (last_or r rs ≤ ref)

module _ (fuel count : ℕ) (spec : Spec) (now : ℕ) {f : Fields}
    (complete : with_defaults spec ≡ spec) (plain : IsPlainSpec spec)
    (parse : parse_fields fuel spec ≡ some f) (within : AreWithin f) where
  IsUpTo-push :
      (results : List ℕ) (ref v : ℕ)
      → IsUpTo spec ref results
      → ref < v
      → match_cron v spec ≡ true
      → IsUpTo spec v (results ++ v ∷ [])
  IsUpTo-push [] ref v h later hits = ((hits, tt), omega arith)
  IsUpTo-push (r ∷ rs) ref v ((hit, h), below) later hits =
      ((hit, Follow-push spec r rs v h (omega arith) hits), omega (arith, last_or-push spec r rs v))

  IsUpTo-IsRising : (ref : ℕ) (results : List ℕ) → IsUpTo spec ref results → IsRising spec results
  IsUpTo-IsRising ref [] h = tt
  IsUpTo-IsRising ref (r ∷ rs) (h, _) = h

  next-later :
      (ref t : ℕ)
      → next_run_time_after fuel (with_defaults spec) ref ≡ some (some t)
      → (ref < t) × (match_cron t spec ≡ true)
  next-later ref t e =
      let next =
        next_run_time_after-IsNextRun fuel spec ref plain parse within (rw complete at e) in
      (omega (arith, next.later), next.hits)

  next_returns : (ref : ℕ) → next_run_time_after fuel (with_defaults spec) ref ≢ none
  unfolding next_run_time_after
  next_returns ref e = cc (rw (complete, parse) at e)

  fill-IsGood :
      (left : ℕ) (results : List ℕ) (ref : ℕ)
      → IsUpTo spec ref results
      → IsGood spec (fill fuel count spec now left results ref)
  unfolding fill
  fill-IsGood zero results ref h = IsUpTo-IsRising ref results h
  fill-IsGood (suc left) results ref h =
      elim (Option-cases (next_run_time_after fuel (with_defaults spec) ref)) [
        | inl stuck ↦ absurd (next_returns ref stuck)
        | inr (none, found) ↦ rw (fill, found) (IsUpTo-IsRising ref results h)
        | inr (some t, found) ↦
            let (later, hits) = next-later ref t found in
            rw (fill, found)
              (fill-IsGood left (results ++ t ∷ []) t (IsUpTo-push results ref t h later hits))
      ]

  taken-IsGood :
      (o : Outcome)
      → IsGood spec o
      → IsGood spec
          (elim o [ runs ts ↦ runs (take count ts) | type_error ↦ type_error | hangs ↦ hangs ])
  taken-IsGood (runs ts) h = IsRising-take spec count ts h
  taken-IsGood type_error h = h
  taken-IsGood hangs h = h

  last-IsUpTo :
      (results : List ℕ) → IsRising spec results → IsUpTo spec (last_or now results) results
  last-IsUpTo [] h = tt
  last-IsUpTo (r ∷ rs) h = (h, omega arith)

  pub finish-IsGood : (o : Outcome) → IsGood spec o → IsGood spec (finish fuel count spec now o)
  finish-IsGood (runs results) h =
      taken-IsGood (fill fuel count spec now (count - length results) results (last_or now results))
        (fill-IsGood (count - length results) results (last_or now results) (last-IsUpTo results h))
  finish-IsGood type_error h = h
  finish-IsGood hangs h = h

  none_left : (n : ℕ) → IsGood spec (elim n [ zero ↦ runs [] | suc m ↦ type_error ])
  none_left zero = tt
  none_left (suc m) = tt

  refill-IsGood :
      (results : List ℕ) → IsRising spec results → IsGood spec (refill fuel count spec now results)
  refill-IsGood [] h = none_left count
  refill-IsGood (t ∷ ts) h =
      fill-IsGood (count - length (t ∷ ts)) (t ∷ ts) (last_or t ts) (h, omega arith)

  push_new-IsRising :
      (results : List ℕ) (prev t : ℕ)
      → IsUpTo spec prev results
      → prev < t
      → match_cron t spec ≡ true
      → IsRising spec (push_new fuel count spec now results t)
  push_new-IsRising [] prev t h later hits = (hits, tt)
  push_new-IsRising (r ∷ rs) prev t ((hit, h), below) later hits =
      elim (Bool-cases (last_or r rs == t)) [
        | inl same ↦ rw same (hit, h)
        | inr new ↦ rw new (hit, Follow-push spec r rs t h (omega arith) hits)
      ]

  push_fallback-IsRising :
      (results : List ℕ) (prev : ℕ) (found : Option ℕ)
      → IsUpTo spec prev results
      → next_run_time_after fuel (with_defaults spec) prev ≡ some found
      → IsRising spec (push_fallback fuel count spec now results found)
  push_fallback-IsRising results prev none h e = IsUpTo-IsRising prev results h
  push_fallback-IsRising results prev (some t) h e =
      let (later, hits) = next-later prev t e in
      elim (Bool-cases (ltb (length results) count)) [
        | inl room ↦ rw room (push_new-IsRising results prev t h later hits)
        | inr full ↦ rw full (IsUpTo-IsRising prev results h)
      ]

  pub off_grid-IsGood :
      (results : List ℕ) (prev : ℕ)
      → IsUpTo spec prev results
      → IsGood spec (off_grid fuel count spec now results prev)
  unfolding off_grid
  off_grid-IsGood results prev h =
      elim (Option-cases (next_run_time_after fuel (with_defaults spec) prev)) [
        | inl stuck ↦ absurd (next_returns prev stuck)
        | inr (found, e) ↦
            rw (off_grid, e) (refill-IsGood _ (push_fallback-IsRising results prev found h e))
      ]
