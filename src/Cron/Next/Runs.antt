-- ===== src/Cron/Next/Runs.antt =====
-- cron.js: the lists of run times, of `getNextRunTimes`.
use cockpit_cronplus.Common.{
  ℕ, zero, suc, ◌≤◌, ◌≡◌, inl, inr, none, some, List, [], ◌∷◌, length, Option-cases, arith, subst,
}
use cockpit_cronplus.Cron.Next.{
  Spec, Fields, parse_fields, next_run_time_after, with_defaults, runs_after, get_next_run_times,
}
use cockpit_cronplus.Cron.Next.Sound.{IsPlainSpec}
use cockpit_cronplus.Cron.Next.First.{AreWithin, IsNextRun, next_run_time_after-IsNextRun}

-- Each of the list is the next run after the one before it, the first one after `cur`.
abbrev pub IsChain : Spec → ℕ → List ℕ → Type 0
IsChain spec cur [] = Unit
IsChain spec cur (t ∷ ts) = IsNextRun spec cur t × IsChain spec t ts

-- The runs after an instant, at most `count`, with none left out.
abbrev pub IsRuns : ℕ → Spec → ℕ → List ℕ → Type 0
IsRuns count spec cur ts = IsChain spec cur ts × (length ts ≤ count)

runs_of : {a b : List ℕ} → some a ≡ some b → a ≡ b
runs_of e = cc

pub runs_after-IsRuns :
    (count fuel : ℕ) (spec : Spec) (cur : ℕ) {f : Fields} {ts : List ℕ}
    → IsPlainSpec spec
    → parse_fields fuel spec ≡ some f
    → AreWithin f
    → runs_after count fuel spec cur ≡ some ts
    → IsRuns count spec cur ts
unfolding runs_after
runs_after-IsRuns zero fuel spec cur {ts = ts} plain parse within e =
    subst (IsRuns 0 spec cur) (runs_of e) (tt, omega arith)
runs_after-IsRuns (suc count) fuel spec cur {f} {ts} plain parse within e =
    elim (Option-cases (next_run_time_after fuel spec cur)) [
      | inl stuck ↦ absurd (cc (rw stuck at e))
      | inr (none, found) ↦
          subst (IsRuns (suc count) spec cur) (runs_of (rw found at e)) (tt, omega arith)
      | inr (some t, found) ↦ elim (Option-cases (runs_after count fuel spec t)) [
        | inl stuck ↦ absurd (cc (rw (found, stuck) at e))
        | inr (rest, more) ↦
            let (chain, short) =
              runs_after-IsRuns count fuel spec t {f = f} {ts = rest} plain parse within more in
            let next =
              next_run_time_after-IsNextRun fuel spec cur {f = f} {t = t} plain parse within
                found in
            subst (IsRuns (suc count) spec cur) (runs_of (rw (found, more) at e))
              ((next, chain), omega (arith, short))
      ]
    ]

-- The times that `getNextRunTimes` lists for an expression that is plain and within the units'
-- ranges, after the defaults are filled in, are at most five, each is the next run after the one
-- before it, and the first one is the next run from now.
pub get_next_run_times-IsRuns :
    (fuel : ℕ) (spec : Spec) (now : ℕ) {f : Fields} {ts : List ℕ}
    → IsPlainSpec (with_defaults spec)
    → parse_fields fuel (with_defaults spec) ≡ some f
    → AreWithin f
    → get_next_run_times fuel spec now ≡ some ts
    → IsRuns 5 (with_defaults spec) now ts
unfolding get_next_run_times
get_next_run_times-IsRuns fuel spec now {f} plain parse within e =
    runs_after-IsRuns 5 fuel (with_defaults spec) now {f = f} plain parse within e
